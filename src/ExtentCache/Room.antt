-- ===== src/ExtentCache/Room.antt =====
-- The room that the server has for the bytes of a file, while extent_client_cache.cc reads files.
use naive_file_system.Prelude.{
  inr, inl, Bool-cases, ℕ, ◌≡◌, refl, sym, ap, ◌∙◌, Option, none, some, List,
}
use naive_file_system.Inodes.{Times}
use naive_file_system.Inodes.Files.{Attr}
use naive_file_system.ExtentCache.{
  CacheState, unread, update, modified, removed, Entry, Rpc, Client, is_ok, is_removed, set_cached,
  entry_at, get, get_cached, get_entry, get_missing, get_unread, put,
}
use naive_file_system.ExtentCache.View.{Contents, shown, Serves, view, view_at}

module _ {S : Type 0} (rpc : Rpc S) (unset : Attr) (held : Contents S)
    (serves : Serves rpc held) where
  -- There is no less room.
  abbrev pub KeepsRoom : S → S → Type 0
  KeepsRoom s next = (j : ℕ) (b : List ℕ) → held.CanPut s j b → held.CanPut next j b

  -- `get` of a file that is seen leaves the server's room as it is.
  pub get-KeepsRoom :
      (id : ℕ) (buf d : List ℕ) (t : Times) (c : Client S)
      → held.IsSound c.server
      → view held c id ≡ some d
      → KeepsRoom c.server (get rpc unset id buf t c).2.server
  unfolding get
  get-KeepsRoom id buf d t c sound v = by_entry (c.table id) refl
    where
      of_state :
          (m : CacheState) (e : Entry)
          → e.m_state ≡ m
          → c.table id ≡ some e
          → KeepsRoom c.server (get_entry rpc unset m id buf t e c).2.server
      of_state unread e p x =
          let f : held.file c.server id ≡ some d =
            sym
              (view_at held c id (some e) x ∙ ap (λ m. shown m e.data_of (held.file c.server id)) p)
            ∙ v in
          unfold get_entry get_unread is_ok set_cached in
          rw (serves.get_ok id d c.server sound f).0 (serves.get_keeps id d c.server sound f).3
      of_state update e p x = unfold get_entry set_cached in λ j b room. room
      of_state modified e p x = unfold get_entry set_cached in λ j b room. room
      of_state removed e p x = unfold get_entry in λ j b room. room

      by_entry :
          (o : Option Entry)
          → c.table id ≡ o
          → KeepsRoom c.server (get_cached rpc unset o id buf t c).2.server
      by_entry none x =
          let f : held.file c.server id ≡ some d = sym (view_at held c id none x) ∙ v in
          let s = (rpc.call_get id c.server).2 in
          let k = serves.get_keeps id d c.server sound f in
          let here : held.file s id ≡ some d = k.0 id ∙ f in
          let g = serves.getattr_ok id d s k.2 here in
          let q = serves.getattr_keeps id d s k.2 here in
          unfold get_missing is_ok set_cached in rw g.0 (λ j b room. q.3 j b (k.3 j b room))
      by_entry (some e) x = of_state e.m_state e refl x

  -- `put` does not call the server.
  pub put-server :
      (id : ℕ) (buf : List ℕ) (t : Times) (c : Client S)
      → c.server ≡ (put rpc unset id buf t c).1.server
  unfolding put set_cached
  put-server id buf t c = elim (Bool-cases (is_removed (entry_at unset (c.table id)).m_state)) [
    | inl r ↦ rw r refl
    | inr r ↦ rw r refl
  ]

-- ===== src/ExtentCache/Reread.antt =====
-- `put` of extent_client_cache.cc on a file that was just read keeps its type.
use naive_file_system.Prelude.{
  ℕ, ◌≡◌, refl, sym, ap, ◌∙◌, Option, none, some, List, if_true, ==_refl, Bool-cases, inl, inr,
}
use naive_file_system.Inodes.{Times}
use naive_file_system.Inodes.Files.{Attr}
use naive_file_system.ExtentCache.{
  CacheState, unread, update, modified, removed, Entry, Rpc, Client, is_ok, is_removed, set_cached,
  entry_at, get, get_cached, get_entry, get_missing, get_unread, put,
}
use naive_file_system.ExtentCache.View.{Contents, shown, Serves, view, view_at}
use naive_file_system.ExtentCache.Attributes.{entry_type}
use naive_file_system.ExtentCache.Types.{type_in, told, get-type}

module _ {S : Type 0} (rpc : Rpc S) (unset : Attr) (held : Contents S)
    (serves : Serves rpc held) where
  -- `get` of a file that is seen leaves an entry.
  get-caches :
      (id : ℕ) (buf d : List ℕ) (t : Times) (c : Client S)
      → held.IsSound c.server
      → view held c id ≡ some d
      → (e : Entry) × ((get rpc unset id buf t c).2.table id ≡ some e)
  unfolding get
  get-caches id buf d t c sound v = by_entry (c.table id) refl
    where
      of_state :
          (m : CacheState) (e : Entry)
          → e.m_state ≡ m
          → c.table id ≡ some e
          → (f : Entry) × ((get_entry rpc unset m id buf t e c).2.table id ≡ some f)
      of_state unread e p x =
          let f : held.file c.server id ≡ some d =
            sym
              (view_at held c id (some e) x ∙ ap (λ m. shown m e.data_of (held.file c.server id)) p)
            ∙ v in
          unfold get_entry get_unread is_ok set_cached in
          rw (serves.get_ok id d c.server sound f).0 (_, if_true (c.table id) (==_refl id))
      of_state update e p x = unfold get_entry set_cached in (_, if_true (c.table id) (==_refl id))
      of_state modified e p x =
          unfold get_entry set_cached in (_, if_true (c.table id) (==_refl id))
      of_state removed e p x = unfold get_entry in (e, x)

      by_entry :
          (o : Option Entry)
          → c.table id ≡ o
          → (e : Entry) × ((get_cached rpc unset o id buf t c).2.table id ≡ some e)
      by_entry none x =
          let f : held.file c.server id ≡ some d = sym (view_at held c id none x) ∙ v in
          let k = serves.get_keeps id d c.server sound f in
          let g = serves.getattr_ok id d (rpc.call_get id c.server).2 k.2 (k.0 id ∙ f) in
          unfold get_missing is_ok set_cached in rw g.0 (_, if_true (c.table id) (==_refl id))
      by_entry (some e) x = of_state e.m_state e refl x

  put-kept-type :
      (id : ℕ) (buf : List ℕ) (t : Times) (e : Entry) (c : Client S)
      → c.table id ≡ some e
      → type_in rpc unset held serves (put rpc unset id buf t c).1 id
        ≡ type_in rpc unset held serves c id
  unfolding put set_cached
  put-kept-type id buf t e c x =
      elim (Bool-cases (is_removed (entry_at unset (c.table id)).m_state)) [
        | inl r ↦ rw r refl
        | inr r ↦ rw r (
            ap (λ o. entry_type o (held.type_at c.server id)) (if_true (c.table id) (==_refl id))
            ∙ ap (λ o. (entry_at unset o).attr.type) x
            ∙ told rpc unset held serves c id (some e) x)
      ]

  -- `put` on a file that was just read keeps its type.
  pub put-got-type :
      (id : ℕ) (buf b d : List ℕ) (t u : Times) (c : Client S)
      → held.IsSound c.server
      → view held c id ≡ some d
      → type_in rpc unset held serves (put rpc unset id b u (get rpc unset id buf t c).2).1 id
        ≡ type_in rpc unset held serves c id
  put-got-type id buf b d t u c sound v =
      let (e, x) = get-caches id buf d t c sound v in
      put-kept-type id b u e (get rpc unset id buf t c).2 x
      ∙ get-type rpc unset held serves id id buf d t c sound v

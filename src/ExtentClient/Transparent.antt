-- ===== src/ExtentClient/Transparent.antt =====
-- The cache of extent_client_cache.cc answers what extent_client.cc would, and leaves the same files.
use naive_file_system.Prelude.{
  ℕ, ◌≡◌, ◌≢◌, sym, ap, ◌∙◌, subst, none, some, List, Option-cases, Bool-cases, inl, inr, ◌==◌,
  if_true, if_false, ==_refl, ==_eq,
}
use naive_file_system.Inodes.{Times}
use naive_file_system.Inodes.Files.{Attr}
use naive_file_system.ExtentCache.{
  modified, removed, replied, Status, ok, Entry, Rpc, Client, flush, flush_cached,
}
use naive_file_system.ExtentCache
use naive_file_system.ExtentCache.View.{
  shown, Contents, Serves, view, view_at, IsCoherent, seen_there,
}
use naive_file_system.ExtentCache.Get.{get-view}
use naive_file_system.ExtentCache.Put.{put-view, put-entry}
use naive_file_system.ExtentCache.Room.{put-server}
use naive_file_system.ExtentCache.Flush.{CanFlush, flush-view}
use naive_file_system.ExtentClient

module _ {S : Type 0} (rpc : Rpc S) (call_remove : ℕ → S → Status × ℕ × S) (unset : Attr)
    (held : Contents S) (serves : Serves rpc held) where
  -- After a `flush` the server has what was seen of the file, and is sound.
  flushed :
      (c : Client S) (id : ℕ) (d : List ℕ)
      → view held c id ≡ some d
      → ((e : Entry) → c.table id ≡ some e → CanFlush rpc unset held serves id e c)
      → IsCoherent held c
      → let s = (flush rpc unset id c).1.server in (held.file s id ≡ some d) × held.IsSound s
  unfolding flush
  flushed c id d v room h = elim (Option-cases (c.table id)) [
    | inl gone ↦
        subst
          (λ o.
            let s = (flush_cached rpc unset o id c).1.server in
            (held.file s id ≡ some d) × held.IsSound s)
          (sym gone) (sym (view_at held c id none gone) ∙ v, h.sound)
    | inr (e, x) ↦
        let f =
          flush-view rpc unset held serves c id e x
            (λ m.
              let gone : none ≡ some d =
                sym (
                  view_at held c id (some e) x
                  ∙ ap (λ s. shown s e.data_of (held.file c.server id)) m)
                ∙ v in
              cc)
            (room e x) h in
        (f.2 ∙ v, f.4.1.sound)
  ]

  -- Over a server that keeps its promises and on a coherent cache: for a file that is seen, and if
  -- the server has room for its bytes where the client changed them, `get` of the caching client
  -- answers the same status and bytes as `get` of the plain one does after the file was flushed.
  pub get-transparent :
      (c : Client S) (id : ℕ) (buf buf' d : List ℕ) (t : Times)
      → view held c id ≡ some d
      → ((e : Entry) → c.table id ≡ some e → CanFlush rpc unset held serves id e c)
      → IsCoherent held c
      → let cached = ExtentCache.get rpc unset id buf t c in
        let plain = ExtentClient.get rpc call_remove id buf' (flush rpc unset id c).1.server in
        (cached.0 ≡ plain.0) × (cached.1 ≡ plain.1)
  unfolding ExtentClient.get
  get-transparent c id buf buf' d t v room h =
      let g = get-view rpc unset held serves c id buf d t v h in
      let f = flushed c id d v room h in
      let s = serves.get_ok id d (flush rpc unset id c).1.server f.1 f.0 in
      (g.0 ∙ sym s.0, g.1 ∙ sym (ap (λ r. replied r buf') s.1))

  -- Over a server that keeps its promises and has room for the bytes, and on a coherent cache:
  -- `put` of the caching client on a file that is seen and then `flush` leave the server with the
  -- same files as `put` of the plain client does, and answer the same status.
  pub put-transparent :
      (c : Client S) (id : ℕ) (d : List ℕ) (t : Times)
      → view held c id ≢ none
      → held.CanPut c.server id d
      → IsCoherent held c
      → let p = ExtentCache.put rpc unset id d t c in
        let f = flush rpc unset id p.1 in
        let plain = ExtentClient.put rpc call_remove id d c.server in
        (p.0 ≡ plain.0) × (f.0 ≡ plain.0) × ((j : ℕ) → held.file f.1.server j ≡ held.file plain.1 j)
  unfolding ExtentClient.put
  put-transparent c id d t ne room h =
      let p = put-view rpc unset held c id d t ne h in
      let b = (ExtentCache.put rpc unset id d t c).1 in
      let (e, x, changed, bytes) = put-entry rpc unset held c id d t ne in
      let same : c.server ≡ b.server = put-server rpc unset held serves id d t c in
      let f =
        flush-view rpc unset held serves b id e x
          (λ m. let two : modified ≡ removed = sym changed ∙ m in cc)
          (λ m.
            subst (λ (q : S × List ℕ). held.CanPut q.0 id q.1) (λ i. (same i, sym bytes i)) room)
          p.2 in
      let s = serves.put_ok id d c.server h.sound (seen_there held c id h ne) room in
      (
        p.0 ∙ sym s.0,
        f.0 ∙ sym s.0,
        λ j. elim (Bool-cases (j == id)) [
          | inl i ↦
              ap (held.file (flush rpc unset id b).1.server) (==_eq j id i)
              ∙ f.2
              ∙ p.1 id
              ∙ if_true (view held c id) (==_refl id)
              ∙ sym (s.1 j ∙ if_true (held.file c.server j) i)
          | inr o ↦ f.3 j o ∙ ap (λ z. held.file z j) (sym same) ∙ sym (s.1 j ∙ if_false (some d) o)
        ],
      )

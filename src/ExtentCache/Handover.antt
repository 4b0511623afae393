-- ===== src/ExtentCache/Handover.antt =====
-- A file goes from one client of extent_client_cache.cc to another one with its lock, which
-- lock_client_cache.cc gives back after `dorelease` of its `lock_user`.
use naive_file_system.Prelude.{
  ℕ, ◌≡◌, ◌≢◌, sym, ap, ◌∙◌, subst, none, some, List, ◌==◌, Bool-cases, inl, inr, ==_eq, false,
}
use naive_file_system.Inodes.{Times}
use naive_file_system.Inodes.Files.{Attr}
use naive_file_system.ExtentCache.{ok, removed, Entry, Rpc, Client, get, flush}
use naive_file_system.ExtentCache.View.{Contents, Serves, Fresh, view, IsCoherent, view_at}
use naive_file_system.ExtentCache.Get.{get-view}
use naive_file_system.ExtentCache.Flush.{CanFlush, flush-view}
use naive_file_system.LockClient.{dorelease}

module _ {S : Type 0} (rpc : Rpc S) (unset : Attr) (held : Contents S)
    (serves : Serves rpc held) where
  -- A client without an entry of a file does not notice that it changes at the server.
  served-IsCoherent :
      (b : Client S) (s : S) (id : ℕ)
      → b.table id ≡ none
      → ((j : ℕ) → (j == id) ≡ false → held.file s j ≡ held.file b.server j)
      → held.IsSound s
      → IsCoherent held b
      → IsCoherent held (record b { server = s })
  served-IsCoherent b s id x others sound h = record {
    sound = sound;
    fresh = λ j e t. elim (Bool-cases (j == id)) [
      | inl same ↦ absurd (none_some (sym x ∙ ap b.table (sym (==_eq j id same)) ∙ t))
      | inr o ↦ subst (λ f. Fresh f e) (sym (others j o)) (h.fresh j e t)
    ];
  }
    where
      none_some : {e : Entry} → none ≡ some e → ⊥
      none_some e = cc

  -- Over a server that keeps its promises and with coherent caches: a client has an entry of a file
  -- that it sees, and gives the lock of the file back; the server has room for the bytes if the
  -- client changed them. Another client of that server, which has no entry of the file, then gets
  -- the bytes that the first client saw.
  pub handover :
      (a b : Client S) (id : ℕ) (e : Entry) (buf d : List ℕ) (t : Times)
      → a.table id ≡ some e
      → e.m_state ≢ removed
      → view held a id ≡ some d
      → b.table id ≡ none
      → b.server ≡ a.server
      → CanFlush rpc unset held serves id e a
      → IsCoherent held a
      → IsCoherent held b
      → let after = dorelease (λ lid c. (flush rpc unset lid c).1) id a in
        let r = get rpc unset id buf t (record b { server = after.server }) in
        (r.0 ≡ ok) × (r.1 ≡ d)
  unfolding dorelease
  handover a b id e buf d t x n v y same room h k =
      let f = flush-view rpc unset held serves a id e x n room h in
      let s = (flush rpc unset id a).1.server in
      let c : Client S = record b { server = s } in
      let kept =
        served-IsCoherent b s id y (λ j o. f.3 j o ∙ ap (λ z. held.file z j) (sym same)) f.4.1.sound
          k in
      let g =
        get-view rpc unset held serves c id buf d t (view_at held c id none y ∙ f.2 ∙ v) kept in
      (g.0, g.1)

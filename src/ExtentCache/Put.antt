-- ===== src/ExtentCache/Put.antt =====
-- `put` and `remove` of extent_client_cache.cc against the view of the files.
use naive_file_system.Prelude.{
  ==_refl, if_true, ap, ℕ, ◌≡◌, ◌≢◌, refl, false, Option, none, some, List, ◌==◌, if◌then◌else◌,
}
use naive_file_system.Inodes.{Times}
use naive_file_system.Inodes.Files.{Attr}
use naive_file_system.ExtentCache.{
  set_cached, size_of, ok, noent, CacheState, unread, update, modified, removed, Entry, Rpc, Client,
  entry_at, is_removed, put, remove,
}
use naive_file_system.ExtentCache.View.{
  Contents, some-injective, seen_there, set_cached-IsCoherent, view-set_cached, entry_view, shown,
  view, IsCoherent,
}

module _ {S : Type 0} (rpc : Rpc S) (unset : Attr) (held : Contents S) where
  -- A file that is seen is not removed in the cache.
  seen :
      (c : Client S) (id : ℕ)
      → view held c id ≢ none
      → is_removed (entry_at unset (c.table id)).m_state ≡ false
  unfolding view is_removed
  seen c id ne = by_entry (c.table id) ne
    where
      by_state :
          (m : CacheState) (d : List ℕ) (f : Option (List ℕ))
          → shown m d f ≢ none
          → is_removed m ≡ false
      by_state unread d f n = refl
      by_state update d f n = refl
      by_state modified d f n = refl
      by_state removed d f n = absurd (n refl)

      by_entry :
          (e : Option Entry)
          → entry_view e (held.file c.server id) ≢ none
          → is_removed (entry_at unset e).m_state ≡ false
      by_entry none n = refl
      by_entry (some e) n = by_state e.m_state e.data_of (held.file c.server id) n

  -- On a coherent cache, `put` on a file that is seen answers `OK`; it changes what is seen of that
  -- file to the new bytes and of no other file, and the cache stays coherent.
  pub put-view :
      (c : Client S) (id : ℕ) (buf : List ℕ) (t : Times)
      → view held c id ≢ none
      → IsCoherent held c
      → ((put rpc unset id buf t c).0 ≡ ok)
        × ((j : ℕ)
            → view held (put rpc unset id buf t c).1 j
              ≡ (if j == id then some buf else view held c j))
        × IsCoherent held (put rpc unset id buf t c).1
  unfolding put
  put-view c id buf t ne h = rw (seen c id ne) (
    refl,
    λ j. view-set_cached held c id _ j,
    set_cached-IsCoherent held c id _
        (record {
          there = seen_there held c id h ne;
          same = λ e. cc;
          sized = λ d e. ap size_of (some-injective e);
        })
        h,
  )

  -- The entry that it leaves.
  pub put-entry :
      (c : Client S) (id : ℕ) (buf : List ℕ) (t : Times)
      → view held c id ≢ none
      → (e : Entry) × ((put rpc unset id buf t c).1.table id ≡ some e)
        × (e.m_state ≡ modified)
        × (e.data_of ≡ buf)
  unfolding put set_cached
  put-entry c id buf t ne = rw (seen c id ne) (_, if_true (c.table id) (==_refl id), refl, refl)

  -- On a coherent cache, `remove` of a file that is seen answers `OK`; that file is seen no more,
  -- every other file as before, and the cache stays coherent.
  pub remove-view :
      (c : Client S) (id : ℕ)
      → view held c id ≢ none
      → IsCoherent held c
      → ((remove rpc unset id c).0 ≡ ok)
        × ((j : ℕ)
            → view held (remove rpc unset id c).1 j ≡ (if j == id then none else view held c j))
        × IsCoherent held (remove rpc unset id c).1
  unfolding remove
  remove-view c id ne h = rw (seen c id ne) (
    refl,
    λ j. view-set_cached held c id _ j,
    set_cached-IsCoherent held c id _
        (record { there = seen_there held c id h ne; same = λ e. cc; sized = λ d e. cc }) h,
  )

  -- A file that is removed in the cache is seen by no operation: `put` and `remove` answer `NOENT`
  -- and change nothing.
  pub removed_stays :
      (c : Client S) (id : ℕ) (e : Entry) (buf : List ℕ) (t : Times)
      → c.table id ≡ some e
      → e.m_state ≡ removed
      → (put rpc unset id buf t c ≡ (noent, c)) × (remove rpc unset id c ≡ (noent, c))
  unfolding put remove is_removed
  removed_stays c id e buf t h r = rw h (rw r (refl, refl))

-- ===== src/ExtentCache/Flush.antt =====
-- `flush` of extent_client_cache.cc against the view of the files.
use naive_file_system.Prelude.{
  ◌⊎◌, ℕ, ◌≡◌, ◌≢◌, refl, sym, ap, ◌∙◌, true, false, none, some, ◌==◌, if◌then◌else◌, Bool-cases,
  inl, inr, subst, if_true, if_false, ==_refl, ==_eq,
}
use naive_file_system.Inodes.Files.{Attr}
use naive_file_system.ExtentCache.{
  Option, Status, ok, CacheState, unread, update, modified, removed, Entry, Rpc, Client, flush,
  flush_entry, flush_cached, erase_cached,
}
use naive_file_system.ExtentCache.View.{
  Contents, view_at, Fresh, Serves, entry_view, shown, view, IsCoherent, Same,
}

none-some : {e : Entry} → none ≡ some e → ⊥
none-some e = cc

erased : {S : Type 0} (id : ℕ) (c : Client S) → (erase_cached c id).table id ≡ none
unfolding erase_cached
erased id c = if_true (c.table id) (==_refl id)

module _ {S : Type 0} (rpc : Rpc S) (unset : Attr) (held : Contents S)
    (serves : Serves rpc held) where
  -- An entry is erased after the server got its bytes.
  erase-Same :
      (c : Client S) (id : ℕ) (s : S)
      → ((j : ℕ) → (j == id) ≡ false → held.file s j ≡ held.file c.server j)
      → held.file s id ≡ view held c id
      → held.IsSound s
      → IsCoherent held c
      → Same held c (erase_cached (record c { server = s }) id)
  unfolding view erase_cached
  erase-Same c id s others same sound h = (
    λ j. views j (Bool-cases (j == id)),
    record { sound = sound; fresh = λ j x t. fresh j x t (Bool-cases (j == id)) },
  )
    where
      views :
          (j : ℕ)
          → ((j == id) ≡ true) ⊎ ((j == id) ≡ false)
          → entry_view (if j == id then none else c.table j) (held.file s j)
            ≡ entry_view (c.table j) (held.file c.server j)
      views j (inl e) =
          ap (λ o. entry_view o (held.file s j)) (if_true (c.table j) e)
          ∙ subst (λ i. held.file s i ≡ view held c i) (sym (==_eq j id e)) same
      views j (inr o) =
          ap (λ x. entry_view x (held.file s j)) (if_false none o)
          ∙ ap (entry_view (c.table j)) (others j o)

      fresh :
          (j : ℕ) (x : Entry)
          → (if j == id then none else c.table j) ≡ some x
          → ((j == id) ≡ true) ⊎ ((j == id) ≡ false)
          → Fresh (held.file s j) x
      fresh j x t (inl e) = absurd (none-some (sym (if_true (c.table j) e) ∙ t))
      fresh j x t (inr o) =
          subst (λ f. Fresh f x) (sym (others j o)) (h.fresh j x (sym (if_false none o) ∙ t))

  -- Whatever the server answers, `flush` of a file that is seen leaves no entry.
  pub flush-erases :
      (id : ℕ) (c : Client S) → view held c id ≢ none → (flush rpc unset id c).1.table id ≡ none
  unfolding flush flush_entry erase_cached
  flush-erases id c ne = by_entry (c.table id) refl
    where
      by_state :
          (m : CacheState) (e : Entry)
          → m ≢ removed
          → (flush_entry rpc unset m id e c).1.table id ≡ none
      by_state unread e n = if_true (c.table id) (==_refl id)
      by_state update e n = if_true (c.table id) (==_refl id)
      by_state modified e n = if_true (c.table id) (==_refl id)
      by_state removed e n = absurd (n refl)

      by_entry :
          (o : Option Entry) → c.table id ≡ o → (flush_cached rpc unset o id c).1.table id ≡ none
      by_entry none x = x
      by_entry (some e) x = by_state e.m_state e (λ m.
          ne (view_at held c id (some e) x ∙ ap (λ s. shown s e.data_of (held.file c.server id)) m))

  -- What `flush` of a file does.
  abbrev Flushes : ℕ → Client S → Status × Client S → Type 0
  Flushes id c r =
      (r.0 ≡ ok)
      × (r.1.table id ≡ none)
      × (held.file r.1.server id ≡ view held c id)
      × ((j : ℕ) → (j == id) ≡ false → held.file r.1.server j ≡ held.file c.server j)
      × Same held c r.1

  -- The server has room for the bytes that are written back, if any are.
  abbrev pub CanFlush : ℕ → Entry → Client S → Type 0
  CanFlush id e c = e.m_state ≡ modified → held.CanPut c.server id e.data_of

  flush_entry-Flushes :
      (m : CacheState) (id : ℕ) (e : Entry) (c : Client S)
      → m ≢ removed
      → e.m_state ≡ m
      → c.table id ≡ some e
      → view held c id ≡ shown m e.data_of (held.file c.server id)
      → CanFlush id e c
      → IsCoherent held c
      → Flushes id c (flush_entry rpc unset m id e c)
  unfolding flush_entry
  flush_entry-Flushes unread id e c n m x v room h = (
    refl,
    erased id c,
    sym v,
    (λ j o. refl),
    erase-Same c id c.server (λ j o. refl) (sym v) h.sound h,
  )
  flush_entry-Flushes update id e c n m x v room h =
      let same : held.file c.server id ≡ view held c id = sym ((h.fresh id e x).same m) ∙ sym v in
      (
        refl,
        erased id c,
        same,
        (λ j o. refl),
        erase-Same c id c.server (λ j o. refl) same h.sound h,
      )
  flush_entry-Flushes modified id e c n m x v room h =
      let s = (rpc.call_put id e.data_of c.server).1 in
      let p = serves.put_ok id e.data_of c.server h.sound (h.fresh id e x).there (room m) in
      let same : held.file s id ≡ view held c id =
        p.1 id ∙ if_true (held.file c.server id) (==_refl id) ∙ sym v in
      let others : (j : ℕ) → (j == id) ≡ false → held.file s j ≡ held.file c.server j =
        λ j o. p.1 j ∙ if_false (some e.data_of) o in
      (p.0, erased id (record c { server = s }), same, others, erase-Same c id s others same p.2 h)
  flush_entry-Flushes removed id e c n m x v room h = absurd (n refl)

  -- Over a server that keeps its promises and has room for the bytes, and on a coherent cache,
  -- `flush` of a file with an entry that is not removed answers `OK` and drops the entry. The
  -- server then holds the bytes that were seen, and the other files as before; nothing that is seen
  -- changes, of this or of another file, and the cache stays coherent.
  pub flush-view :
      (c : Client S) (id : ℕ) (e : Entry)
      → c.table id ≡ some e
      → e.m_state ≢ removed
      → CanFlush id e c
      → IsCoherent held c
      → Flushes id c (flush rpc unset id c)
  unfolding flush
  flush-view c id e x n room h =
      subst (λ o. Flushes id c (flush_cached rpc unset o id c)) (sym x)
        (flush_entry-Flushes e.m_state id e c n refl x shows room h)
    where
      shows : view held c id ≡ shown e.m_state e.data_of (held.file c.server id)
      shows = unfold view in ap (λ y. entry_view y (held.file c.server id)) x

  -- `flush` of a file that is seen changes nothing that is seen, also without an entry.
  pub flush-Same :
      (id : ℕ) (c : Client S)
      → view held c id ≢ none
      → ((e : Entry) → c.table id ≡ some e → CanFlush id e c)
      → IsCoherent held c
      → Same held c (flush rpc unset id c).1
  flush-Same id c ne room h = by_entry (c.table id) refl
    where
      by_entry : (o : Option Entry) → c.table id ≡ o → Same held c (flush rpc unset id c).1
      by_entry none x =
          unfold flush in
          subst (λ o. Same held c (flush_cached rpc unset o id c).1) (sym x) (λ j. refl, h)
      by_entry (some e) x =
          (flush-view c id e x
            (λ m. ne (
              view_at held c id (some e) x ∙ ap (λ s. shown s e.data_of (held.file c.server id)) m))
            (room e x) h).4

-- ===== src/ExtentCache/Attributes.antt =====
-- `getattr` of extent_client_cache.cc against the view of the files.
use naive_file_system.Prelude.{ℕ, ◌≡◌, refl, sym, ap, ◌∙◌, subst, Option, none, some, List}
use naive_file_system.Inodes.Files.{Attr}
use naive_file_system.ExtentCache.{
  getattr_missing, Status, ok, CacheState, unread, update, modified, removed, Entry, Rpc, Client,
  is_ok, size_of, getattr, getattr_cached, getattr_entry,
}
use naive_file_system.ExtentCache.View.{
  Contents, Same-trans, Serves, shown, view, IsCoherent, Same, serve-Same, store-Same, view_at,
  some-injective,
}

-- The type of a file, as the client tells it.
abbrev pub entry_type : Option Entry → ℕ → ℕ
entry_type none n = n
entry_type (some e) n = e.attr.type

module _ {S : Type 0} (rpc : Rpc S) (unset : Attr) (held : Contents S)
    (serves : Serves rpc held) where
  -- The attributes of a file that is seen.
  abbrev pub Attributes : ℕ → List ℕ → Client S → Status × Attr × Client S → Type 0
  Attributes n d c r = (r.0 ≡ ok) × (r.1.type ≡ n) × (r.1.size ≡ size_of d) × Same held c r.2

  getattr_missing-Attributes :
      (id : ℕ) (a : Attr) (d : List ℕ) (c : Client S)
      → held.file c.server id ≡ some d
      → view held c id ≡ some d
      → IsCoherent held c
      → Attributes (held.type_at c.server id) d c (getattr_missing rpc unset id a c)
  unfolding getattr_missing is_ok
  getattr_missing-Attributes id a d c f v h =
      let (good, (b, e, type, size)) = serves.getattr_ok id d c.server h.sound f in
      let kept = serves.getattr_keeps id d c.server h.sound f in
      let c1 = record c { server = (rpc.call_getattr id c.server).2 } in
      let served : Same held c c1 = serve-Same held c c1.server kept.0 kept.2 h in
      let there = kept.0 id ∙ f in
      rw good (
        rw e (
          refl,
          type,
          size,
          Same-trans held c c1 _ served (
              store-Same held c1 id _ (there ∙ sym v ∙ sym (served.0 id))
                (record {
                  there = λ n. cc;
                  same = λ u. cc;
                  sized = λ x g. size ∙ ap size_of (some-injective (sym there ∙ g));
                })
                served.1),
        ))

  pub getattr-Attributes :
      (id : ℕ) (a : Attr) (d : List ℕ) (c : Client S)
      → view held c id ≡ some d
      → IsCoherent held c
      → Attributes
          (entry_type (c.table id) (held.type_at c.server id))
          d
          c
          (getattr rpc unset id a c)
  unfolding getattr
  getattr-Attributes id a d c v h = by_entry (c.table id) refl
    where
      of_state :
          (m : CacheState) (e : Entry)
          → e.m_state ≡ m
          → c.table id ≡ some e
          → shown e.m_state e.data_of (held.file c.server id) ≡ some d
          → Attributes e.attr.type d c (getattr_entry rpc unset m a e c)
      of_state removed e p x w =
          let gone : none ≡ some d =
            subst (λ m. shown m e.data_of (held.file c.server id) ≡ some d) p w in
          cc
      of_state unread e p x w = (refl, refl, (h.fresh id e x).sized d w, (λ j. refl, h))
      of_state update e p x w = (refl, refl, (h.fresh id e x).sized d w, (λ j. refl, h))
      of_state modified e p x w = (refl, refl, (h.fresh id e x).sized d w, (λ j. refl, h))

      by_entry :
          (o : Option Entry)
          → c.table id ≡ o
          → Attributes
              (entry_type o (held.type_at c.server id))
              d
              c
              (getattr_cached rpc unset o id a c)
      by_entry none x = getattr_missing-Attributes id a d c (sym (view_at held c id none x) ∙ v) v h
      by_entry (some e) x = of_state e.m_state e refl x (sym (view_at held c id (some e) x) ∙ v)

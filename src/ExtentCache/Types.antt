-- ===== src/ExtentCache/Types.antt =====
-- The types of files, as a client of extent_client_cache.cc tells them from its entries and the
-- server's attributes.
use naive_file_system.Prelude.{
  ℕ, ◌≡◌, ◌≢◌, refl, sym, ap, ◌∙◌, false, Option, none, some, List, ◌==◌, if_true, if_false,
  ==_refl, ==_eq, ==_ne, Bool-cases, inl, inr,
}
use naive_file_system.Inodes.{Times}
use naive_file_system.Inodes.Files.{Attr}
use naive_file_system.ExtentCache.{
  CacheState, unread, update, modified, removed, Entry, Rpc, Client, is_ok, is_removed, set_cached,
  entry_at, create, get, get_cached, get_entry, get_missing, get_unread, getattr, getattr_cached,
  getattr_entry, getattr_missing, put,
}
use naive_file_system.ExtentCache.View.{Contents, shown, Serves, view, view_at}
use naive_file_system.ExtentCache.Attributes.{entry_type}

module _ {S : Type 0} (rpc : Rpc S) (unset : Attr) (held : Contents S)
    (serves : Serves rpc held) where
  abbrev pub type_in : Client S → ℕ → ℕ
  type_in c j = entry_type (c.table j) (held.type_at c.server j)

  other :
      (j id : ℕ) (e : Entry) (c : Client S)
      → (j == id) ≡ false
      → type_in (set_cached c id e) j ≡ type_in c j
  unfolding set_cached
  other j id e c o = ap (λ x. entry_type x (held.type_at c.server j)) (if_false (some e) o)

  -- An entry with the type of its file is stored.
  type-set_cached :
      (c : Client S) (s : S) (id j : ℕ) (e : Entry)
      → ((k : ℕ) → held.type_at s k ≡ held.type_at c.server k)
      → e.attr.type ≡ type_in c id
      → type_in (set_cached (record c { server = s }) id e) j ≡ type_in c j
  unfolding set_cached
  type-set_cached c s id j e same t = elim (Bool-cases (j == id)) [
    | inl i ↦
        ap (λ o. entry_type o (held.type_at s j)) (if_true (c.table j) i)
        ∙ t
        ∙ ap (type_in c) (sym (==_eq j id i))
    | inr o ↦
        ap (λ o. entry_type o (held.type_at s j)) (if_false (some e) o)
        ∙ ap (entry_type (c.table j)) (same j)
  ]

  pub told :
      (c : Client S) (id : ℕ) (o : Option Entry)
      → c.table id ≡ o
      → entry_type o (held.type_at c.server id) ≡ type_in c id
  told c id o x = ap (λ y. entry_type y (held.type_at c.server id)) (sym x)

  missing-type :
      (id j : ℕ) (a : Attr) (d : List ℕ) (c : Client S)
      → c.table id ≡ none
      → held.IsSound c.server
      → held.file c.server id ≡ some d
      → type_in (getattr_missing rpc unset id a c).2 j ≡ type_in c j
  unfolding getattr_missing is_ok
  missing-type id j a d c x sound f =
      let (good, (b, e, type, size)) = serves.getattr_ok id d c.server sound f in
      rw good (
        rw e (
          type-set_cached c _ id j _ (serves.getattr_keeps id d c.server sound f).1
            (type ∙ told c id none x)))

  get_missing-type :
      (id j : ℕ) (buf d : List ℕ) (t : Times) (c : Client S)
      → c.table id ≡ none
      → held.IsSound c.server
      → held.file c.server id ≡ some d
      → type_in (get_missing rpc unset id buf t c).2 j ≡ type_in c j
  unfolding get_missing is_ok
  get_missing-type id j buf d t c x sound f =
      let s1 = (rpc.call_get id c.server).2 in
      let k1 = serves.get_keeps id d c.server sound f in
      let f1 : held.file s1 id ≡ some d = k1.0 id ∙ f in
      let k2 = serves.getattr_keeps id d s1 k1.2 f1 in
      let (good, (b, e, type, size)) = serves.getattr_ok id d s1 k1.2 f1 in
      rw good (
        rw e
          (type-set_cached c _ id j _ (λ k. k2.1 k ∙ k1.1 k) (type ∙ k1.1 id ∙ told c id none x)))

  unread-type :
      (id j : ℕ) (buf d : List ℕ) (t : Times) (e : Entry) (c : Client S)
      → c.table id ≡ some e
      → held.IsSound c.server
      → held.file c.server id ≡ some d
      → type_in (get_unread rpc unset id buf t e c).2 j ≡ type_in c j
  unfolding get_unread is_ok
  unread-type id j buf d t e c x sound f =
      rw (serves.get_ok id d c.server sound f).0 (
        type-set_cached c _ id j _ (serves.get_keeps id d c.server sound f).1
          (told c id (some e) x))

  -- `get` and `getattr` of a file that is seen, and `put` on another one, keep the type of a file.
  pub get-type :
      (id j : ℕ) (buf d : List ℕ) (t : Times) (c : Client S)
      → held.IsSound c.server
      → view held c id ≡ some d
      → type_in (get rpc unset id buf t c).2 j ≡ type_in c j
  unfolding get
  get-type id j buf d t c sound v = by_entry (c.table id) refl
    where
      of_state :
          (m : CacheState) (e : Entry)
          → e.m_state ≡ m
          → c.table id ≡ some e
          → type_in (get_entry rpc unset m id buf t e c).2 j ≡ type_in c j
      of_state unread e p x =
          unfold get_entry in
          unread-type id j buf d t e c x sound (
            sym
              (view_at held c id (some e) x ∙ ap (λ m. shown m e.data_of (held.file c.server id)) p)
            ∙ v)
      of_state update e p x =
          unfold get_entry in type-set_cached c c.server id j _ (λ k. refl) (told c id (some e) x)
      of_state modified e p x =
          unfold get_entry in type-set_cached c c.server id j _ (λ k. refl) (told c id (some e) x)
      of_state removed e p x = unfold get_entry in refl

      by_entry :
          (o : Option Entry)
          → c.table id ≡ o
          → type_in (get_cached rpc unset o id buf t c).2 j ≡ type_in c j
      by_entry none x = get_missing-type id j buf d t c x sound (sym (view_at held c id none x) ∙ v)
      by_entry (some e) x = of_state e.m_state e refl x

  pub getattr-type :
      (id j : ℕ) (a : Attr) (d : List ℕ) (c : Client S)
      → held.IsSound c.server
      → view held c id ≡ some d
      → type_in (getattr rpc unset id a c).2 j ≡ type_in c j
  unfolding getattr
  getattr-type id j a d c sound v = by_entry (c.table id) refl
    where
      of_state :
          (m : CacheState) (e : Entry) → type_in (getattr_entry rpc unset m a e c).2 j ≡ type_in c j
      of_state unread e = refl
      of_state update e = refl
      of_state modified e = refl
      of_state removed e = refl

      by_entry :
          (o : Option Entry)
          → c.table id ≡ o
          → type_in (getattr_cached rpc unset o id a c).2 j ≡ type_in c j
      by_entry none x = missing-type id j a d c x sound (sym (view_at held c id none x) ∙ v)
      by_entry (some e) x = of_state e.m_state e

  pub put-type :
      (id j : ℕ) (buf : List ℕ) (t : Times) (c : Client S)
      → j ≢ id
      → type_in (put rpc unset id buf t c).1 j ≡ type_in c j
  unfolding put set_cached
  put-type id j buf t c ne = elim (Bool-cases (is_removed (entry_at unset (c.table id)).m_state)) [
    | inl r ↦ rw r refl
    | inr r ↦ rw r (other j id _ c (==_ne j id ne))
  ]

  -- `create` gives the type.
  pub create-type :
      (type id : ℕ) (t : Times) (c : Client S)
      → let r = create rpc unset type id t c in type_in r.2 r.1 ≡ type
  unfolding create set_cached
  create-type type id t c =
      let eid = (create rpc unset type id t c).1 in
      ap (λ o. entry_type o (held.type_at (rpc.call_create type c.server).2 eid))
        (if_true (c.table eid) (==_refl eid))

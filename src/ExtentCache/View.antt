-- ===== src/ExtentCache/View.antt =====
-- What a client of extent_client_cache.cc sees of the files: the cached bytes, or the server's.
use naive_file_system.Prelude.{
  ◌≢◌, arith, ◌⊎◌, sym, ap, ◌∙◌, subst, if_true, if_false, Bool-cases, inl, inr, ==_eq, ℕ, ◌≡◌,
  refl, true, false, Option, none, some, List, ◌==◌, if◌then◌else◌,
}
use naive_file_system.ExtentCache.{
  size_of, Attr, ok, CacheState, unread, update, modified, removed, Entry, Rpc, Client, set_cached,
}

-- What a server keeps: the files with their types, while it is sound; and whether it has room for the
-- bytes of a file.
pub record Contents (S : Type 0) : Type 1 where
  pub file : S → ℕ → Option (List ℕ)
  pub type_at : S → ℕ → ℕ
  pub IsSound : S → Type 0
  pub CanPut : S → ℕ → List ℕ → Type 0

-- A server that answers for the files that it has: this is what the caching client relies on.
pub record Serves {S : Type 0} (rpc : Rpc S) (held : Contents S) : Type 0 where
  pub get_ok :
      (id : ℕ) (d : List ℕ) (s : S)
      → held.IsSound s
      → held.file s id ≡ some d
      → ((rpc.call_get id s).0 ≡ ok) × ((rpc.call_get id s).1 ≡ some d)
  pub get_keeps :
      (id : ℕ) (d : List ℕ) (s : S)
      → held.IsSound s
      → held.file s id ≡ some d
      → ((j : ℕ) → held.file (rpc.call_get id s).2 j ≡ held.file s j)
        × ((j : ℕ) → held.type_at (rpc.call_get id s).2 j ≡ held.type_at s j)
        × held.IsSound (rpc.call_get id s).2
        × ((j : ℕ) (b : List ℕ) → held.CanPut s j b → held.CanPut (rpc.call_get id s).2 j b)
  pub getattr_ok :
      (id : ℕ) (d : List ℕ) (s : S)
      → held.IsSound s
      → held.file s id ≡ some d
      → ((rpc.call_getattr id s).0 ≡ ok)
        × ((a : Attr) × ((rpc.call_getattr id s).1 ≡ some a)
            × (a.type ≡ held.type_at s id)
            × (a.size ≡ size_of d))
  pub getattr_keeps :
      (id : ℕ) (d : List ℕ) (s : S)
      → held.IsSound s
      → held.file s id ≡ some d
      → ((j : ℕ) → held.file (rpc.call_getattr id s).2 j ≡ held.file s j)
        × ((j : ℕ) → held.type_at (rpc.call_getattr id s).2 j ≡ held.type_at s j)
        × held.IsSound (rpc.call_getattr id s).2
        × ((j : ℕ) (b : List ℕ) → held.CanPut s j b → held.CanPut (rpc.call_getattr id s).2 j b)
  pub put_ok :
      (id : ℕ) (d : List ℕ) (s : S)
      → held.IsSound s
      → held.file s id ≢ none
      → held.CanPut s id d
      → ((rpc.call_put id d s).0 ≡ ok)
        × ((j : ℕ)
            → held.file (rpc.call_put id d s).1 j ≡ (if j == id then some d else held.file s j))
        × held.IsSound (rpc.call_put id d s).1

-- What a cached entry shows, over the file of the server; a removed file shows nothing.
abbrev pub shown : CacheState → List ℕ → Option (List ℕ) → Option (List ℕ)
shown unread d f = f
shown update d f = some d
shown modified d f = some d
shown removed d f = none

abbrev pub entry_view : Option Entry → Option (List ℕ) → Option (List ℕ)
entry_view none f = f
entry_view (some e) f = shown e.m_state e.data_of f

pub some-injective : {A : Type 0} {a b : A} → some a ≡ some b → a ≡ b
some-injective e = cc

-- A file with an entry is one of the server's, and an entry that was read and not changed has the
-- server's bytes. The size among the attributes of an entry is that of the bytes that are seen.
pub record Fresh (f : Option (List ℕ)) (e : Entry) : Type 0 where
  pub there : f ≢ none
  pub same : e.m_state ≡ update → some e.data_of ≡ f
  pub sized : (d : List ℕ) → shown e.m_state e.data_of f ≡ some d → e.attr.size ≡ size_of d

module _ {S : Type 0} (held : Contents S) where
  unfoldable pub view : Client S → ℕ → Option (List ℕ)
  view c id = entry_view (c.table id) (held.file c.server id)

  pub record IsCoherent (c : Client S) : Type 0 where
    pub sound : held.IsSound c.server
    pub fresh : (id : ℕ) (e : Entry) → c.table id ≡ some e → Fresh (held.file c.server id) e

  -- What an operation does that changes nothing that is seen.
  abbrev pub Same : Client S → Client S → Type 0
  Same c d = ((j : ℕ) → view d j ≡ view c j) × IsCoherent d

  pub Same-trans : (a b c : Client S) → Same a b → Same b c → Same a c
  Same-trans a b c p q = (λ j. q.0 j ∙ p.0 j, q.1)

  pub serve-Same :
      (c : Client S) (s : S)
      → ((j : ℕ) → held.file s j ≡ held.file c.server j)
      → held.IsSound s
      → IsCoherent c
      → Same c (record c { server = s })
  unfolding view
  serve-Same c s same sound h = (
    λ j. ap (entry_view (c.table j)) (same j),
    record {
      sound = sound;
      fresh = λ j e t. subst (λ f. Fresh f e) (sym (same j)) (h.fresh j e t);
    },
  )

  -- An entry is stored.
  pub view-set_cached :
      (c : Client S) (id : ℕ) (e : Entry) (j : ℕ)
      → view (set_cached c id e) j
        ≡ (if j == id then shown e.m_state e.data_of (held.file c.server id) else view c j)
  unfolding view set_cached
  view-set_cached c id e j = ground arith

  pub set_cached-IsCoherent :
      (c : Client S) (id : ℕ) (e : Entry)
      → Fresh (held.file c.server id) e
      → IsCoherent c
      → IsCoherent (set_cached c id e)
  unfolding set_cached
  set_cached-IsCoherent c id e f h = record {
    sound = h.sound;
    fresh = λ j x t. elim (Bool-cases (j == id)) [
      | inl same ↦
          subst (λ i. Fresh (held.file c.server i) x) (sym (==_eq j id same))
            (subst (Fresh (held.file c.server id))
              (some-injective (sym (if_true (c.table j) same) ∙ t)) f)
      | inr other ↦ h.fresh j x (sym (if_false (some e) other) ∙ t)
    ];
  }

  pub store-Same :
      (c : Client S) (id : ℕ) (e : Entry)
      → shown e.m_state e.data_of (held.file c.server id) ≡ view c id
      → Fresh (held.file c.server id) e
      → IsCoherent c
      → Same c (set_cached c id e)
  store-Same c id e seen f h = (
    λ j. view-set_cached c id e j ∙ at j (Bool-cases (j == id)),
    set_cached-IsCoherent c id e f h,
  )
    where
      at :
          (j : ℕ)
          → ((j == id) ≡ true) ⊎ ((j == id) ≡ false)
          → (if j == id then shown e.m_state e.data_of (held.file c.server id) else view c j)
            ≡ view c j
      at j (inl s) = if_true _ s ∙ seen ∙ ap (view c) (sym (==_eq j id s))
      at j (inr o) = if_false _ o

  pub view_at :
      (c : Client S) (id : ℕ) (o : Option Entry)
      → c.table id ≡ o
      → view c id ≡ entry_view o (held.file c.server id)
  unfolding view
  view_at c id o t = ap (λ x. entry_view x (held.file c.server id)) t

  -- A file that is seen is one of the server's.
  pub seen_there :
      (c : Client S) (id : ℕ) → IsCoherent c → view c id ≢ none → held.file c.server id ≢ none
  seen_there c id h = by_entry (c.table id) refl
    where
      by_entry :
          (o : Option Entry) → c.table id ≡ o → view c id ≢ none → held.file c.server id ≢ none
      by_entry none t ne n = ne (view_at c id none t ∙ n)
      by_entry (some e) t ne n = (h.fresh id e t).there n

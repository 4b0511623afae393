-- ===== src/ExtentCache/Create.antt =====
-- `create` of extent_client_cache.cc against the view of the files.
use naive_file_system.Prelude.{
  ℕ, ◌^◌, ◌<◌, ◌≡◌, refl, sym, ap, ◌∙◌, subst, Option, none, some, [], ◌==◌, if◌then◌else◌, if_true,
  if_false, Bool-cases, true, false, ◌⊎◌, inl, inr, ==_eq, ==_refl, ==_ne, ◌≢◌,
}
use naive_file_system.Inodes.{u32, Times}
use naive_file_system.Inodes.Files.{Attr}
use naive_file_system.ExtentCache.{
  List, unread, Entry, Rpc, Client, set_cached, entry_at, size_of, create,
}
use naive_file_system.ExtentCache.Attributes.{entry_type}
use naive_file_system.ExtentCache.View.{
  Contents, Fresh, shown, entry_view, view, IsCoherent, view_at, view-set_cached,
  set_cached-IsCoherent, some-injective,
}

-- What `create` of the server promises for a type while there is room for a file of that type.
pub record Creates {S : Type 0} (rpc : Rpc S) (held : Contents S) (HasRoom : ℕ → S → Type 0)
    : Type 0 where
  pub number : (type : ℕ) (s : S) → HasRoom type s → ℕ
  pub replies :
      (type : ℕ) (s : S) (r : HasRoom type s)
      → held.IsSound s
      → (rpc.call_create type s).1 ≡ some (number type s r)
  pub small : (type : ℕ) (s : S) (r : HasRoom type s) → held.IsSound s → number type s r < 2 ^ 64
  pub unused :
      (type : ℕ) (s : S) (r : HasRoom type s)
      → held.IsSound s
      → held.file s (number type s r) ≡ none
  pub makes :
      (type : ℕ) (s : S) (r : HasRoom type s)
      → held.IsSound s
      → ((j : ℕ)
          → held.file (rpc.call_create type s).2 j
            ≡ (if j == number type s r then some [] else held.file s j))
        × held.IsSound (rpc.call_create type s).2
  pub keeps_room :
      (type : ℕ) (s : S)
      → HasRoom type s
      → held.IsSound s
      → (j : ℕ) (b : List ℕ) → held.CanPut s j b
      → held.CanPut (rpc.call_create type s).2 j b
  pub keeps_types :
      (type : ℕ) (s : S) (r : HasRoom type s)
      → held.IsSound s
      → (j : ℕ) → (j == number type s r) ≡ false
      → held.type_at (rpc.call_create type s).2 j ≡ held.type_at s j

module _ {S : Type 0} (rpc : Rpc S) (unset : Attr) (held : Contents S) (HasRoom : ℕ → S → Type 0)
    (creates : Creates rpc held HasRoom) (type : ℕ) (c : Client S) (room : HasRoom type c.server)
    (h : IsCoherent held c) where
  abbrev made_id : ℕ
  made_id = creates.number type c.server room

  abbrev served : Client S
  served = record c { server = (rpc.call_create type c.server).2 }

  no_entry : (e : Entry) → c.table made_id ≡ some e → ⊥
  no_entry e x = (h.fresh made_id e x).there (creates.unused type c.server room h.sound)

  unseen : view held c made_id ≡ none
  unseen = by_entry (c.table made_id) refl
    where
      by_entry : (o : Option Entry) → c.table made_id ≡ o → view held c made_id ≡ none
      by_entry none x = view_at held c made_id none x ∙ creates.unused type c.server room h.sound
      by_entry (some e) x = absurd (no_entry e x)

  made : held.file served.server made_id ≡ some []
  made = (creates.makes type c.server room h.sound).0 made_id ∙ if_true _ (==_refl made_id)

  other : (j : ℕ) → (j == made_id) ≡ false → held.file served.server j ≡ held.file c.server j
  other j o = (creates.makes type c.server room h.sound).0 j ∙ if_false _ o

  served-IsCoherent : IsCoherent held served
  served-IsCoherent = record {
    sound = (creates.makes type c.server room h.sound).1;
    fresh = λ j e x. elim (Bool-cases (j == made_id)) [
      | inl s ↦ absurd (no_entry e (ap c.table (sym (==_eq j made_id s)) ∙ x))
      | inr o ↦ subst (λ f. Fresh f e) (sym (other j o)) (h.fresh j e x)
    ];
  }

  others : (j : ℕ) → (j == made_id) ≡ false → view held served j ≡ view held c j
  unfolding view
  others j o = ap (entry_view (c.table j)) (other j o)

  made-Sets :
      (e : Entry)
      → e.m_state ≡ unread
      → e.attr.size ≡ 0
      → ((j : ℕ)
          → view held (set_cached served made_id e) j
            ≡ (if j == made_id then some [] else view held c j))
        × IsCoherent held (set_cached served made_id e)
  made-Sets e m z = (
    λ j. view-set_cached held served made_id e j ∙ at j (Bool-cases (j == made_id)),
    set_cached-IsCoherent held served made_id e
        (record {
          there = λ n. let gone : held.file served.server made_id ≡ some [] = made in cc;
          same = λ u. cc;
          sized = λ d g. z ∙ ap size_of (some-injective (sym shows ∙ g));
        })
        served-IsCoherent,
  )
    where
      shows : shown e.m_state e.data_of (held.file served.server made_id) ≡ some []
      shows = ap (λ s. shown s e.data_of (held.file served.server made_id)) m ∙ made

      at :
          (j : ℕ)
          → ((j == made_id) ≡ true) ⊎ ((j == made_id) ≡ false)
          → (if j == made_id
              then shown e.m_state e.data_of (held.file served.server made_id)
              else view held served j)
            ≡ (if j == made_id then some [] else view held c j)
      at j (inl s) = if_true _ s ∙ shows ∙ sym (if_true _ s)
      at j (inr o) = if_false _ o ∙ others j o ∙ sym (if_false _ o)

  -- `create` makes an empty file that was not seen, and nothing else that is seen changes.
  pub create-Sets :
      (id : ℕ) (t : Times)
      → let r = create rpc unset type id t c in
        (r.1 < 2 ^ 64)
        × (view held c r.1 ≡ none)
        × ((j : ℕ) → view held r.2 j ≡ (if j == r.1 then some [] else view held c j))
        × IsCoherent held r.2
  unfolding create
  create-Sets id t = rw (creates.replies type c.server room h.sound) (
      let old = entry_at unset (c.table made_id) in
      let a = record old.attr { atime = u32 t.a; type = type; size = 0 } in
      let s = made-Sets (record old { attr = a; m_state = unread }) refl refl in
      (creates.small type c.server room h.sound, unseen, s.0, s.1))

  -- It keeps the types of all other files.
  pub create-types :
      (id j : ℕ) (t : Times)
      → let r = create rpc unset type id t c in
        j ≢ r.1
        → entry_type (r.2.table j) (held.type_at r.2.server j)
          ≡ entry_type (c.table j) (held.type_at c.server j)
  unfolding create set_cached
  create-types id j t = rw (creates.replies type c.server room h.sound) (λ ne.
      let o = ==_ne j made_id ne in
      ap (λ x. entry_type x (held.type_at served.server j)) (if_false _ o)
      ∙ ap (entry_type (c.table j)) (creates.keeps_types type c.server room h.sound j o))

-- ===== src/Handles/Counts.antt =====
-- The reference counts of handle.h against the handles that exist.
use naive_file_system.Prelude.{
  ℕ, suc, ◌-◌, ◌^◌, ◌≤◌, ◌<◌, ◌≡◌, sym, ap, ◌∙◌, arith, Bool, true, false, Option, none, some, List,
  [], ◌∷◌, length, ◌==◌, if◌then◌else◌, if_true, if_false, Bool-cases, ◌⊎◌, inl, inr, ==_eq,
}
use naive_file_system.Handles.{Hinfo, Hmap, set_info}

-- How many of the handles that exist refer to an entry.
unfoldable pub occurrences : ℕ → List ℕ → ℕ
occurrences m [] = 0
occurrences m (x ∷ live) = if x == m then suc (occurrences m live) else occurrences m live

unfoldable pub dropped : ℕ → List ℕ → List ℕ
dropped m [] = []
dropped m (x ∷ live) = if x == m then live else x ∷ dropped m live

abbrev pub count_of : Option Hinfo → ℕ
count_of none = 0
count_of (some i) = i.refcnt

-- The counts are those of the handles, of which there are fewer than an `int` can count.
abbrev pub IsCounted : Hmap → List ℕ → Type 0
IsCounted hmap live = ((m : ℕ) → occurrences m live ≡ count_of (hmap m)) × (length live < 2 ^ 31)

pub occurrences-le : (m : ℕ) (live : List ℕ) → occurrences m live ≤ length live
unfolding occurrences
occurrences-le m [] = omega arith
occurrences-le m (x ∷ live) = ground (arith, occurrences-le m live)

pub occurrences-dropped :
    (m j : ℕ) (live : List ℕ)
    → 0 < occurrences m live
    → occurrences j (dropped m live)
      ≡ (if j == m then occurrences j live - 1 else occurrences j live)
unfolding occurrences dropped
occurrences-dropped m j [] h = absurd (omega arith)
occurrences-dropped m j (x ∷ live) h = ground (arith, occurrences-dropped m j live)

pub length-dropped : (m : ℕ) (live : List ℕ) → length (dropped m live) ≤ length live
unfolding dropped
length-dropped m [] = omega arith
length-dropped m (x ∷ live) = ground (arith, length-dropped m live)

count-set_info :
    (m j : ℕ) (i : Option Hinfo) (hmap : Hmap)
    → count_of (set_info m i hmap j) ≡ (if j == m then count_of i else count_of (hmap j))
unfolding set_info
count-set_info m j i hmap = ground arith

-- An entry is replaced by one with the count of the new list of handles.
pub set_info-IsCounted :
    (m : ℕ) (i : Option Hinfo) (hmap : Hmap) (live next : List ℕ)
    → ((j : ℕ) → occurrences j live ≡ count_of (hmap j))
    → ((j : ℕ) → occurrences j next ≡ (if j == m then count_of i else occurrences j live))
    → length next < 2 ^ 31
    → IsCounted (set_info m i hmap) next
set_info-IsCounted m i hmap live next h e l = (
  λ j. e j ∙ ap (λ n. if j == m then count_of i else n) (h j) ∙ sym (count-set_info m j i hmap),
  l,
)

pub occurrences-cons :
    (m j : ℕ) (live : List ℕ)
    → occurrences j (m ∷ live) ≡ (if j == m then suc (occurrences m live) else occurrences j live)
unfolding occurrences
occurrences-cons m j live = elim (Bool-cases (j == m)) [
  | inl same ↦
      let e : j ≡ m = ==_eq j m same in
      if_true _ (==_sym same)
      ∙ ap (λ k. suc (occurrences k live)) e
      ∙ sym (if_true (occurrences j live) same)
  | inr other ↦ if_false _ (==_sym other) ∙ sym (if_false (suc (occurrences m live)) other)
]
  where
    ==_sym : {b : Bool} → (j == m) ≡ b → (m == j) ≡ b
    ==_sym e = ground arith

-- A change of an entry that keeps its count.
pub same-IsCounted :
    (m : ℕ) (i k : Hinfo) (hmap : Hmap) (live : List ℕ)
    → hmap m ≡ some i
    → k.refcnt ≡ i.refcnt
    → IsCounted hmap live
    → IsCounted (set_info m (some k) hmap) live
same-IsCounted m i k hmap live e same h =
    set_info-IsCounted m (some k) hmap live live h.0 (λ j. keeps j (Bool-cases (j == m))) h.1
  where
    keeps :
        (j : ℕ)
        → ((j == m) ≡ true) ⊎ ((j == m) ≡ false)
        → occurrences j live ≡ (if j == m then k.refcnt else occurrences j live)
    keeps j (inl t) =
        ap (λ n. occurrences n live) (==_eq j m t)
        ∙ h.0 m
        ∙ ap count_of e
        ∙ sym same
        ∙ sym (if_true (occurrences j live) t)
    keeps j (inr f) = sym (if_false k.refcnt f)

-- ===== src/Extent/Named.antt =====
-- The files of extent_server.cc by the numbers that name an inode.
use naive_file_system.Prelude.{
  ◌+◌, ℕ, ◌<◌, ◌≡◌, ◌≢◌, ◌^◌, ◌%◌, true, false, sym, ap, ◌∙◌, subst, arith, none, some, List,
  length, if◌then◌else◌, if_true, if_false, Bool-cases, Option-cases, inl, inr, ◌==◌, ==_eq,
  ==_refl,
}
use naive_file_system.Outcome.{ret}
use naive_file_system.Blocks.Free.{free_count-same}
use naive_file_system.Inodes.Manager.{InodeManager}
use naive_file_system.Inodes.Table.{IsInum, inode_at}
use naive_file_system.Inodes.Valid.{File, file_at}
use naive_file_system.Extent.{masked}
use naive_file_system.Extent.Laws.{length-content, stored-IsLive, stored, IsId}
use naive_file_system.Extent.Calls.{
  RoomIn, Server, names, bytes_of, kind_of, file_in, kind_in, HasSmallKinds, IsServing,
}
use naive_file_system.ExtentCache.{size_of}
use naive_file_system.Inodes.Codec.{load_inode-Fits}
use naive_file_system.ExtentCache.View.{some-injective}

pub names-IsInum : (id : ℕ) → names id ≡ true → IsInum id × (masked id ≡ id)
names-IsInum id h = (ground arith, ground arith)

-- A file that the server keeps under a number, and its bytes.
abbrev pub Names : InodeManager → ℕ → List ℕ → File → Type 0
Names im id d f =
    (names id ≡ true) × IsInum id × (masked id ≡ id) × (stored im id ≡ some f) × (f.bytes ≡ d)

pub file_in-Names :
    (im : InodeManager) (id : ℕ) (d : List ℕ)
    → file_in (ret im) id ≡ some d
    → (f : File) × Names im id d f
file_in-Names im id d e = elim (Bool-cases (names id)) [
  | inr o ↦ absurd (none_some (sym (if_false _ o) ∙ e))
  | inl t ↦ elim (Option-cases (stored im id)) [
    | inl n ↦ absurd (none_some (sym (if_true none t ∙ ap bytes_of n) ∙ e))
    | inr (f, g) ↦
        let i = names-IsInum id t in
        (f, (t, i.0, i.1, g, some-injective (sym (if_true none t ∙ ap bytes_of g) ∙ e)))
  ]
]
  where
    none_some : {x : List ℕ} → none ≡ some x → ⊥
    none_some e = cc

pub IsInum-IsId : (id : ℕ) → IsInum id → masked id ≡ id → IsId id
IsInum-IsId id h e = subst IsInum (sym e) h

pub IsInum-masked : (i : ℕ) → IsInum i → masked i ≡ i
IsInum-masked i n = omega (arith, n.0, n.1)

-- What is told of the inodes alone.
by_name :
    {A : Type 0} (id : ℕ) (a b c : A)
    → (names id ≡ true → a ≡ b)
    → (if names id then a else c) ≡ (if names id then b else c)
by_name id a b c h = elim (Bool-cases (names id)) [
  | inl t ↦ if_true c t ∙ h t ∙ sym (if_true c t)
  | inr o ↦ if_false a o ∙ sym (if_false b o)
]

module _ (im next : InodeManager) (same : (j : ℕ) → IsId j → stored next j ≡ stored im j) where
  named_same : (j : ℕ) → names j ≡ true → stored next j ≡ stored im j
  named_same j t = let i = names-IsInum j t in same j (IsInum-IsId j i.0 i.1)

  pub file_same : (j : ℕ) → file_in (ret next) j ≡ file_in (ret im) j
  file_same j = by_name j _ _ none (λ t. ap bytes_of (named_same j t))

  pub kind_same : (j : ℕ) → kind_in (ret next) j ≡ kind_in (ret im) j
  kind_same j = by_name j _ _ 0 (λ t. ap kind_of (named_same j t))

  pub kinds_same : HasSmallKinds im → HasSmallKinds next
  kinds_same h i f n e =
      let m = IsInum-masked i n in
      h i f n (
        ap (file_at im.bm.d) (sym m)
        ∙ sym (same i (IsInum-IsId i n m))
        ∙ ap (file_at next.bm.d) m
        ∙ e)

-- One file is made or changed.
module _ (im next : InodeManager) (id : ℕ) (f : File) (named : names id ≡ true)
    (there : stored next id ≡ some f)
    (others : (j : ℕ) → IsId j → masked j ≢ masked id → stored next j ≡ stored im j) where
  apart : (j : ℕ) → masked j ≡ j → (j == id) ≡ false → masked j ≢ masked id
  apart j m o q =
      let same : j ≡ id = sym m ∙ q ∙ (names-IsInum id named).1 in
      true_false (sym (==_refl id) ∙ ap (λ k. k == id) (sym same) ∙ o)
    where
      true_false : true ≡ false → ⊥
      true_false e = cc

  pub file_set :
      (j : ℕ) → file_in (ret next) j ≡ (if j == id then some f.bytes else file_in (ret im) j)
  file_set j = elim (Bool-cases (j == id)) [
    | inl s ↦
        ap (file_in (ret next)) (==_eq j id s)
        ∙ if_true none named
        ∙ ap bytes_of there
        ∙ sym (if_true (file_in (ret im) j) s)
    | inr o ↦
        by_name j (bytes_of (stored next j)) (bytes_of (stored im j)) none (λ t.
          let i = names-IsInum j t in
          ap bytes_of (others j (IsInum-IsId j i.0 i.1) (apart j i.1 o)))
        ∙ sym (if_false (some f.bytes) o)
  ]

  pub kind_other : (j : ℕ) → (j == id) ≡ false → kind_in (ret next) j ≡ kind_in (ret im) j
  kind_other j o = by_name j (kind_of (stored next j)) (kind_of (stored im j)) 0 (λ t.
      let i = names-IsInum j t in ap kind_of (others j (IsInum-IsId j i.0 i.1) (apart j i.1 o)))

  pub kinds_set : f.kind < 2 ^ 15 → HasSmallKinds im → HasSmallKinds next
  kinds_set small h i g inum e = elim (Bool-cases (i == id)) [
    | inl s ↦
        let at_i = (names-IsInum id named).1 ∙ sym (==_eq i id s) in
        let is_f : f ≡ g = some-injective (sym there ∙ ap (λ k. file_at next.bm.d k) at_i ∙ e) in
        subst (λ x. x.kind < 2 ^ 15) is_f small
    | inr o ↦
        let m = IsInum-masked i inum in
        h i g inum (
          ap (file_at im.bm.d) (sym m)
          ∙ sym (others i (IsInum-IsId i inum m) (apart i m o))
          ∙ ap (file_at next.bm.d) m
          ∙ e)
  ]

-- The free blocks are counted by the table of the blocks in use.
pub room_same :
    (im next : InodeManager)
    → next.bm.using_blocks ≡ im.bm.using_blocks
    → (d : List ℕ) → RoomIn (ret im) d
    → RoomIn (ret next) d
room_same im next e d room = (room.0, omega (arith, room.1, free_count-same im.bm next.bm e))

-- A stored file is no longer than the size of an inode.
stored-length :
    (im : InodeManager) (id : ℕ) (f : File)
    → IsId id
    → stored im id ≡ some f
    → length f.bytes < 2 ^ 32
stored-length im id f h e =
    let l = stored-IsLive im.bm.d (masked id) f h e in
    subst (λ n. n < 2 ^ 32)
      (sym (length-content im.bm.d (inode_at im.bm.d (masked id))) ∙ ap length l.1)
      (unfold inode_at in (load_inode-Fits (im.bm.d.blocks (11 + masked id))).size)

pub sized :
    (im : InodeManager) (id : ℕ) (d : List ℕ) (f : File)
    → Names im id d f
    → length f.bytes ≡ size_of d
sized im id d f n =
    let l = stored-length im id f (IsInum-IsId id n.1 n.2) n.3 in
    ap length n.4 ∙ small (length d) (subst (λ x. length x < 2 ^ 32) n.4 l)
  where
    small : (k : ℕ) → k < 2 ^ 32 → k ≡ k % 2 ^ 32
    small k h = omega arith

-- What holds of a server that runs holds of a sound one.
pub running :
    (P : Server → Type 0) (s : Server) (h : IsServing s) → P (record s { state = ret h.0 }) → P s
running P s h p = subst (λ o. P (record s { state = o })) (sym h.1) p

pub IsInum-names : (id : ℕ) → IsInum id → names id ≡ true
IsInum-names id h = ground (arith, h.0, h.1)

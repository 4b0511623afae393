-- ===== src/Inodes/Commit.antt =====
-- The last step of an operation of inode_manager.cc on one inode, `put_inode`: where the blocks of
-- the other files are as before, the disk is sound again and the other files are the same.
use naive_file_system.Prelude.{
  ℕ, ◌≤◌, ◌<◌, ◌≡◌, ◌≢◌, refl, sym, ap, ◌∙◌, arith, ◌==◌, subst, Bool-cases, inl, inr, ==_eq,
}
use naive_file_system.Disk.{Disk}
use naive_file_system.Blocks.{BlockManager}
use naive_file_system.Blocks.Alloc.{IsData}
use naive_file_system.Inodes.{Inode, ndirect}
use naive_file_system.Inodes.Manager.{block_count}
use naive_file_system.Inodes.Table.{
  IsInum, inode_at, put_at, inode_at-put_at_self, inode_at-put_at_other, put_at_data,
}
use naive_file_system.Inodes.Content.{content, content_congr}
use naive_file_system.Inodes.Holding.{Holds}
use naive_file_system.Inodes.Valid.{IsLive, pointers, pointer, IsValid, Others, file_at}

-- The state `bm'` and the inode `ino` that an operation on inode `i` has reached from `bm`.
pub record Reaches (bm : BlockManager) (i : ℕ) (bm' : BlockManager) (ino : Inode) : Type 0 where
  pub count : ℕ
  pub inum : IsInum i
  pub holds : Holds (Others bm.d i) bm' ino count
  pub covers : ino.type ≢ 0 → block_count ino.size ≡ count
  pub table : (j : ℕ) → IsInum j → inode_at bm'.d j ≡ inode_at bm.d j
  pub kept : (b : ℕ) → Others bm.d i b → bm'.d.blocks b ≡ bm.d.blocks b

-- What `put_inode` makes of it.
pub record Commits (bm : BlockManager) (i : ℕ) (ino : Inode) (bm' : BlockManager) : Type 0 where
  pub valid : IsValid bm'
  pub self : inode_at bm'.d i ≡ ino
  pub others : (j : ℕ) → IsInum j → j ≢ i → inode_at bm'.d j ≡ inode_at bm.d j
  pub files : (j : ℕ) → IsInum j → j ≢ i → file_at bm'.d j ≡ file_at bm.d j

module _ {bm : BlockManager} {i : ℕ} {bm' : BlockManager} {ino : Inode} (v : IsValid bm)
    (r : Reaches bm i bm' ino) where
  abbrev d' : Disk
  d' = put_at bm'.d i ino

  self : inode_at d' i ≡ ino
  self = inode_at-put_at_self bm'.d i ino r.inum r.holds.fits

  others : (j : ℕ) → IsInum j → j ≢ i → inode_at d' j ≡ inode_at bm.d j
  others j h ne = inode_at-put_at_other bm'.d i j ino ne ∙ r.table j h

  pointer-IsData : (j n : ℕ) → IsLive d' j → n < pointers d' j → IsData (pointer d' j n)
  pointer-IsData j n live lt = elim (Bool-cases (j == i)) [
    | inl e ↦ let e' : j ≡ i = ==_eq j i e in ground (arith, self, r.covers, r.holds.in_data n)
    | inr ne ↦ ground (arith, others j live.0, v.in_data j n)
  ]

  few : (j : ℕ) → IsLive d' j → pointers d' j ≤ ndirect
  few j live = elim (Bool-cases (j == i)) [
    | inl e ↦ let e' : j ≡ i = ==_eq j i e in ground (arith, self, r.covers, r.holds.few)
    | inr ne ↦ ground (arith, others j live.0, v.few j)
  ]

  to_others : (j n : ℕ) → j ≢ i → IsLive d' j → n < pointers d' j → Others bm.d i (pointer d' j n)
  to_others j n ne live lt =
      let e = others j live.0 ne in
      record {
        j = j;
        n = n;
        other = ne;
        live = (live.0, ground arith);
        within = ground arith;
        is = ground arith;
      }

  marked : (j n : ℕ) → IsLive d' j → n < pointers d' j → bm'.using_blocks (pointer d' j n) ≡ 1
  marked j n live lt = elim (Bool-cases (j == i)) [
    | inl e ↦ let e' : j ≡ i = ==_eq j i e in ground (arith, self, r.covers, r.holds.marked n)
    | inr ne ↦ r.holds.others _ (to_others j n (ground arith) live lt)
  ]

  -- A pointer of inode `i` is none of another file's.
  apart_self :
      (j n p : ℕ)
      → j ≢ i
      → IsLive d' i
      → n < pointers d' i
      → IsLive d' j
      → p < pointers d' j
      → pointer d' i n ≢ pointer d' j p
  apart_self j n p ne live lt live' lt' e = r.holds.apart n (ground (arith, self, r.covers)) (
      subst (Others bm.d i) (sym e ∙ ap (λ (x : Inode). x.blocks n) self)
        (to_others j p ne live' lt'))

  distinct :
      (j n k p : ℕ)
      → IsLive d' j
      → n < pointers d' j
      → IsLive d' k
      → p < pointers d' k
      → pointer d' j n ≡ pointer d' k p
      → (j ≡ k) × (n ≡ p)
  distinct j n k p live lt live' lt' e = elim (Bool-cases (j == i)) [
    | inl a ↦ elim (Bool-cases (k == i)) [
      | inl b ↦ ground (arith, self, r.covers, r.holds.distinct n p)
      | inr b ↦
          let a' : j ≡ i = ==_eq j i a in
          absurd (
            apart_self k n p (ground arith) (subst (IsLive d') a' live) (ground arith) live' lt'
              (ground arith))
    ]
    | inr a ↦ elim (Bool-cases (k == i)) [
      | inl b ↦
          let b' : k ≡ i = ==_eq k i b in
          absurd (
            apart_self j p n (ground arith) (subst (IsLive d') b' live') (ground arith) live lt
              (ground arith))
      | inr b ↦ ground (arith, others j live.0, others k live'.0, v.distinct j n k p)
    ]
  ]

  content_other :
      (j : ℕ) → IsLive d' j → j ≢ i → content d' (inode_at bm.d j) ≡ content bm.d (inode_at bm.d j)
  content_other j live ne =
      let e = others j live.0 ne in
      content_congr bm.d d' (inode_at bm.d j) (inode_at bm.d j) refl (λ n lt.
        let o = to_others j n ne live (ground arith) in
        let e' : pointer d' j n ≡ (inode_at bm.d j).blocks n = ap (λ (x : Inode). x.blocks n) e in
        subst (λ b. d'.blocks b ≡ bm.d.blocks b) e'
          (put_at_data bm'.d i (pointer d' j n) ino r.inum
              (pointer-IsData j n live (ground arith)).0
            ∙ r.kept (pointer d' j n) o))

  files : (j : ℕ) → IsInum j → j ≢ i → file_at d' j ≡ file_at bm.d j
  unfolding file_at
  files j h ne = rw (others j h ne) (elim (Bool-cases ((inode_at bm.d j).type == 0)) [
    | inl dead ↦ rw dead
    | inr live ↦ rw live (rw (content_other j (h, ground (arith, others j h ne)) ne))
  ])

  -- The disk is sound after `put_inode`, and only file `i` has changed.
  pub Reaches-Commits : Commits bm i ino (record bm' { d = d' })
  Reaches-Commits = record {
    valid = record {
      ready = record { formatted = r.holds.ready.formatted; cursor = r.holds.ready.cursor };
      few = few;
      in_data = pointer-IsData;
      marked = marked;
      distinct = distinct;
    };
    self = self;
    others = others;
    files = files;
  }

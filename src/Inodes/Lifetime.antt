-- ===== src/Inodes/Lifetime.antt =====
-- `alloc_inode` of inode_manager.cc: files begin empty, and the other files are kept.
use naive_file_system.Prelude.{
  ℕ, zero, suc, ◌+◌, ◌-◌, ◌%◌, ◌^◌, ◌≤◌, ◌<◌, ◌≡◌, ◌≢◌, ◌⊎◌, refl, sym, ap, ◌∙◌, arith, Option,
  none, some, [], ◌==◌, subst, Bool-cases, inl, inr, ==_eq, ltb,
}
use naive_file_system.Outcome.{Outcome, ret, exits, Returns}
use naive_file_system.Disk.{Disk}
use naive_file_system.Blocks.{BlockManager, inode_num}
use naive_file_system.Blocks.Alloc.{IsReady}
use naive_file_system.Inodes.{Inode, Times, u32}
use naive_file_system.Inodes.Manager.{InodeManager, find_inode, claim_inode, alloc_inode}
use naive_file_system.Inodes.Table.{
  IsInum, inode_at, get_inode_at, put_inode-eq-put_at, put_at, inode_at-Fits,
}
use naive_file_system.Inodes.Valid.{IsLive, IsValid, Others, file_at, file_at_empty, file_at_free}
use naive_file_system.Inodes.Commit.{Reaches, Reaches-Commits}

abbrev IsFree : Disk → ℕ → Type 0
IsFree d i = (inode_at d i).type ≡ 0

-- The end of a search among the inodes from `hover` on.
abbrev Finds : ℕ → ℕ → BlockManager → Outcome (Option (ℕ × Inode)) → Type 0
Finds hover end bm r =
    ((r ≡ ret none) × ((j : ℕ) → hover ≤ j → j < end → ¬ IsFree bm.d j))
    ⊎ ((i : ℕ) × (hover ≤ i) × (i < end) × IsFree bm.d i × (r ≡ ret (some (i, inode_at bm.d i))))

find_inode-Finds :
    (rounds hover end : ℕ) (bm : BlockManager)
    → IsReady bm
    → 1 ≤ hover
    → hover + rounds ≡ end
    → end ≤ inode_num + 1
    → Finds hover end bm (find_inode rounds hover bm)
unfolding find_inode
find_inode-Finds zero hover end bm ready lo e hi = inl (refl, λ j a b. absurd (omega arith))
find_inode-Finds (suc rounds) hover end bm ready lo e hi =
    let step = get_inode_at bm hover ready (lo, omega arith) in
    elim (Bool-cases ((inode_at bm.d hover).type == 0)) [
      | inl free ↦ inr (
        hover,
        omega arith,
        omega arith,
        ==_eq (inode_at bm.d hover).type 0 free,
        rw step (rw free),
      )
      | inr used ↦
          elim (find_inode-Finds rounds (hover + 1) end bm ready (omega arith) (omega arith) hi) [
            | inl (r, full) ↦ inl (
              rw step (rw used r),
              λ j a b. elim (Bool-cases (j == hover)) [
                | inl same ↦
                    let e' : j ≡ hover = ==_eq j hover same in
                    subst (λ k. ¬ IsFree bm.d k) (sym e') (λ f. ground arith)
                | inr other ↦ full j (ground arith) b
              ],
            )
            | inr (i, a, b, f, r) ↦ inr (i, omega arith, b, f, rw step (rw used r))
          ]
    ]

-- The inode manager is sound: so is the disk, and the cursor stands on an inode behind the root.
pub record IsManaged (m : InodeManager) : Type 0 where
  pub blocks : IsValid m.bm
  pub cursor : (2 ≤ m.next_inum) × (m.next_inum ≤ inode_num)

-- The file that `alloc_inode` makes in the place of inode `i`.
pub record Creates (m : InodeManager) (type : ℕ) (r : ℕ × InodeManager) : Type 0 where
  pub range : (2 ≤ r.0) × (r.0 ≤ inode_num)
  pub fresh : file_at m.bm.d r.0 ≡ none
  pub managed : IsManaged r.1
  pub file : file_at r.1.bm.d r.0 ≡ some (record { kind = type; bytes = [] })
  pub others : (j : ℕ) → IsInum j → j ≢ r.0 → file_at r.1.bm.d j ≡ file_at m.bm.d j
  pub blocks : r.1.bm.using_blocks ≡ m.bm.using_blocks

abbrev created : ℕ → Times → Inode → Inode
created type t ino = record ino {
  type = type % 2 ^ 16;
  size = 0;
  atime = u32 t.a;
  mtime = u32 t.m;
  ctime = u32 t.c;
}

IsFree-Others :
    {bm : BlockManager} (i : ℕ) → IsValid bm → (b : ℕ) → Others bm.d i b → bm.using_blocks b ≡ 1
IsFree-Others {bm} i v b o =
    subst (λ c. bm.using_blocks c ≡ 1) o.is (v.marked o.j o.n o.live o.within)

created-Reaches :
    (bm : BlockManager) (i type : ℕ) (t : Times)
    → IsValid bm
    → IsInum i
    → Reaches bm i bm (created type t (inode_at bm.d i))
created-Reaches bm i type t v h =
    let fits = inode_at-Fits bm.d i in
    record {
      count = 0;
      inum = h;
      holds = record {
        ready = v.ready;
        few = omega arith;
        in_data = λ n lt. absurd (omega arith);
        marked = λ n lt. absurd (omega arith);
        distinct = λ n p lt. absurd (omega arith);
        apart = λ n lt. absurd (omega arith);
        others = IsFree-Others i v;
        fits = record {
          type = omega arith;
          size = omega arith;
          atime = omega arith;
          mtime = omega arith;
          ctime = omega arith;
          blocks = fits.blocks;
          bound = fits.bound;
        };
      };
      covers = λ _. refl;
      table = λ j _. refl;
      kept = λ b _. refl;
    }

claim_inode-Creates :
    (m : InodeManager) (type i : ℕ) (t : Times)
    → IsManaged m
    → 0 < type
    → type < 2 ^ 15
    → 2 ≤ i
    → i ≤ inode_num
    → IsFree m.bm.d i
    → Creates m type (claim_inode type t m (i, inode_at m.bm.d i))
unfolding claim_inode
claim_inode-Creates m type i t h pos small lo hi free =
    let ino = created type t (inode_at m.bm.d i) in
    let inum : IsInum i = (omega arith, hi) in
    let c = Reaches-Commits h.blocks (created-Reaches m.bm i type t h.blocks inum) in
    let kind : type % 2 ^ 16 ≡ type = omega arith in
    rw (put_inode-eq-put_at m.bm i ino h.blocks.ready inum) (record {
      range = (lo, hi);
      fresh = file_at_free m.bm.d i free;
      managed = record { blocks = c.valid; cursor = ground arith };
      file =
          file_at_empty (put_at m.bm.d i ino) i ino c.self (omega arith) refl
          ∙ ap (λ k. some (record { kind = k; bytes = [] })) kind;
      others = c.files;
      blocks = refl;
    })

-- On a sound disk and for a type that is positive and below 2 ^ 15, `alloc_inode` exits exactly
-- when all inodes from 2 on are in use. Else it returns an inode that was free, which now is an
-- empty file of the type asked for.
pub alloc_inode-Creates :
    (m : InodeManager) (type : ℕ) (t : Times)
    → IsManaged m
    → 0 < type
    → type < 2 ^ 15
    → ((alloc_inode type t m ≡ exits) × ((i : ℕ) → 2 ≤ i → i ≤ inode_num → IsLive m.bm.d i))
      ⊎ Returns (alloc_inode type t m) (Creates m type)
unfolding alloc_inode
alloc_inode-Creates m type t h pos small =
    elim (find_inode-Finds (inode_num + 1 - m.next_inum) m.next_inum (inode_num + 1) m.bm
      h.blocks.ready (omega arith) (omega arith) (omega arith)) [
        | inr (i, lo, hi, free, r) ↦ inr (
          claim_inode type t m (i, inode_at m.bm.d i),
          rw r,
          claim_inode-Creates m type i t h pos small (omega arith) (omega arith) free,
        )
        | inl (r₁, full₁) ↦
            elim (find_inode-Finds (m.next_inum - 2) 2 m.next_inum m.bm h.blocks.ready (omega arith)
              (omega arith) (omega arith)) [
                | inr (i, lo, hi, free, r) ↦ inr (
                  claim_inode type t m (i, inode_at m.bm.d i),
                  rw r₁ (rw r),
                  claim_inode-Creates m type i t h pos small lo (omega arith) free,
                )
                | inl (r₂, full₂) ↦ inl (
                  rw r₁ (rw r₂),
                  λ i lo hi. (
                    (omega arith, hi),
                    elim (Bool-cases (ltb i m.next_inum)) [
                      | inl early ↦ full₂ i lo (ground arith)
                      | inr late ↦ full₁ i (ground arith) (omega arith)
                    ],
                  ),
                )
              ]
      ]

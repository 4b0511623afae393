-- ===== src/Blocks/Alloc.antt =====
-- `alloc_block` of inode_manager.cc hands out a free data block, or finds that there is none.
use naive_file_system.Prelude.{
  ap, ℕ, zero, suc, ◌+◌, ◌-◌, ◌≤◌, ◌<◌, ◌≡◌, refl, ◌⊎◌, inl, inr, ◌≢◌, Option, none, some, arith,
  ◌==◌, if◌then◌else◌, Bool-cases, ==_eq, ltb, sym, subst,
}
use naive_file_system.Outcome.{Outcome, ret, exits}
use naive_file_system.Disk.{block_num}
use naive_file_system.Blocks.{
  BlockManager, inode_num, iblock, set_using, find_fit_from, find_fit_block, first_fit, second_fit,
  alloc_block,
}

-- The first block that holds data.
abbrev pub data_start : ℕ
data_start = 1036

abbrev pub IsData : ℕ → Type 0
IsData id = (data_start ≤ id) × (id < block_num)

-- `id` marked as used, with the cursor behind it.
abbrev pub taken : ℕ → ℕ → BlockManager → BlockManager
taken start id bm = record bm {
  using_blocks = set_using bm.using_blocks id 1;
  next_block = if id + 1 == block_num then start else id + 1;
}

abbrev Fits : ℕ → ℕ → ℕ → BlockManager → Option ℕ × BlockManager → Type 0
Fits rounds hover start bm (none, bm') =
    (bm' ≡ bm) × ((j : ℕ) → hover ≤ j → j < hover + rounds → bm.using_blocks j ≢ 0)
Fits rounds hover start bm (some id, bm') =
    (hover ≤ id) × (id < hover + rounds) × (bm.using_blocks id ≡ 0) × (bm' ≡ taken start id bm)

Fits-suc :
    (rounds hover start : ℕ) (bm : BlockManager) (r : Option ℕ × BlockManager)
    → bm.using_blocks hover ≢ 0
    → Fits rounds (hover + 1) start bm r
    → Fits (suc rounds) hover start bm r
Fits-suc rounds hover start bm (some id, bm') h (lo, hi, e, p) = (omega arith, omega arith, e, p)
Fits-suc rounds hover start bm (none, bm') h (p, all) = (p, λ j lo hi. ground (arith, all j))

find_fit_from-Fits :
    (rounds hover start : ℕ) (bm : BlockManager)
    → Fits rounds hover start bm (find_fit_from rounds hover start bm)
unfolding find_fit_from
find_fit_from-Fits zero hover start bm = (refl, λ j lo hi. absurd (omega arith))
find_fit_from-Fits (suc rounds) hover start bm = elim (Bool-cases (bm.using_blocks hover == 0)) [
  | inl free ↦ rw free (omega arith, omega arith, ==_eq _ _ free, refl)
  | inr used ↦ rw used (
      Fits-suc rounds hover start bm _ (ground arith)
        (find_fit_from-Fits rounds (hover + 1) start bm))
]

-- What `alloc_block` relies on: a formatted superblock and a cursor within the data blocks.
pub record IsReady (bm : BlockManager) : Type 0 where
  pub formatted : bm.sb.nblocks ≡ block_num
  pub cursor : IsData bm.next_block

-- No data block is free, and the process exits; or a free data block is marked and returned.
abbrev pub Allocates : BlockManager → Type 0
Allocates bm =
    ((alloc_block bm ≡ exits) × ((id : ℕ) → IsData id → bm.using_blocks id ≢ 0))
    ⊎ ((id : ℕ) × IsData id
        × (bm.using_blocks id ≡ 0)
        × (alloc_block bm ≡ ret (id, taken data_start id bm)))

abbrev Results : BlockManager → Outcome (ℕ × BlockManager) → Type 0
Results bm r =
    ((r ≡ exits) × ((id : ℕ) → IsData id → bm.using_blocks id ≢ 0))
    ⊎ ((id : ℕ) × IsData id × (bm.using_blocks id ≡ 0) × (r ≡ ret (id, taken data_start id bm)))

second_fit-Results :
    (bm : BlockManager) (r : Option ℕ × BlockManager)
    → IsData bm.next_block
    → ((j : ℕ) → bm.next_block ≤ j → j < block_num → bm.using_blocks j ≢ 0)
    → Fits (bm.next_block - data_start) data_start data_start bm r
    → Results bm (second_fit r)
second_fit-Results bm (some id, bm') cursor tail (lo, hi, e, p) =
    inr (id, (lo, omega arith), e, rw p)
second_fit-Results bm (none, bm') cursor tail (p, all) = inl (
  refl,
  λ id h. elim (Bool-cases (ltb id bm.next_block)) [
    | inl below ↦ all id h.0 (ground arith)
    | inr above ↦ tail id (ground arith) h.1
  ],
)

first_fit-Results :
    (bm : BlockManager) (r : Option ℕ × BlockManager)
    → IsData bm.next_block
    → Fits (block_num - bm.next_block) bm.next_block data_start bm r
    → Results bm (first_fit data_start r)
unfolding find_fit_block
first_fit-Results bm (some id, bm') cursor (lo, hi, e, p) =
    inr (id, (omega arith, omega arith), e, rw p)
first_fit-Results bm (none, bm') cursor (p, all) = rw p (
    second_fit-Results bm _ cursor (λ j lo hi. all j lo (omega arith))
      (find_fit_from-Fits _ data_start data_start bm))

start-eq : (bm : BlockManager) → IsReady bm → iblock inode_num bm.sb.nblocks + 1 ≡ data_start
start-eq bm ready = omega (arith, ready.formatted)

-- `alloc_block` on a formatted disk: it exits exactly when every data block is in use; else the
-- block that it returns is a data block that was free, which it marks, and nothing else changes
-- but the cursor.
pub alloc_block-Allocates : (bm : BlockManager) → IsReady bm → Allocates bm
unfolding alloc_block find_fit_block
alloc_block-Allocates bm ready =
    subst (λ s. Results bm (first_fit s (find_fit_block bm.next_block block_num s bm)))
      (sym (start-eq bm ready))
      (first_fit-Results bm (find_fit_block bm.next_block block_num data_start bm) ready.cursor
        (find_fit_from-Fits (block_num - bm.next_block) bm.next_block data_start bm))

-- What is returned leaves the manager ready for the next call.
pub taken-IsReady :
    (bm : BlockManager) (id : ℕ) → IsReady bm → IsData id → IsReady (taken data_start id bm)
taken-IsReady bm id ready h = ground arith

find_fit_from-first :
    (rounds hover start : ℕ) (bm : BlockManager)
    → 0 < rounds
    → bm.using_blocks hover ≡ 0
    → find_fit_from rounds hover start bm ≡ (some hover, taken start hover bm)
unfolding find_fit_from
find_fit_from-first zero hover start bm pos free = absurd (omega arith)
find_fit_from-first (suc rounds) hover start bm pos free = rw free

-- A free block under the cursor is the one that is returned.
pub alloc_block-next :
    (bm : BlockManager)
    → bm.next_block < block_num
    → bm.using_blocks bm.next_block ≡ 0
    → alloc_block bm
      ≡ ret (bm.next_block, taken (iblock inode_num bm.sb.nblocks + 1) bm.next_block bm)
unfolding alloc_block find_fit_block
alloc_block-next bm lt free =
    let start = iblock inode_num bm.sb.nblocks + 1 in
    ap (first_fit start)
      (find_fit_from-first (block_num - bm.next_block) bm.next_block start bm (omega arith) free)

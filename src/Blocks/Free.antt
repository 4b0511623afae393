-- ===== src/Blocks/Free.antt =====
-- The number of free data blocks, under `alloc_block` and `free_block` of inode_manager.cc.
use naive_file_system.Prelude.{
  ap, ℕ, zero, suc, ◌+◌, ◌-◌, ◌≤◌, ◌<◌, ◌≡◌, refl, inl, inr, ◌≢◌, arith, ◌==◌, if◌then◌else◌,
}
use naive_file_system.Outcome.{ret}
use naive_file_system.Disk.{block_num}
use naive_file_system.Blocks.{BlockManager, set_using, alloc_block}
use naive_file_system.Blocks.Alloc.{data_start, IsData, taken, IsReady, alloc_block-Allocates}

-- How many of the `n` blocks from `lo` on are free.
pub free_from : (ℕ → ℕ) → ℕ → ℕ → ℕ
free_from m lo zero = 0
free_from m lo (suc n) = (if m lo == 0 then 1 else 0) + free_from m (lo + 1) n

free_from-pos : (m : ℕ → ℕ) (lo n id : ℕ) → lo ≤ id → id < lo + n → m id ≡ 0 → 0 < free_from m lo n
unfolding free_from
free_from-pos m lo zero id h k e = absurd (omega arith)
free_from-pos m lo (suc n) id h k e = ground (arith, free_from-pos m (lo + 1) n id)

free_from-zero :
    (m : ℕ → ℕ) (lo n : ℕ) → ((id : ℕ) → lo ≤ id → id < lo + n → m id ≢ 0) → free_from m lo n ≡ 0
unfolding free_from
free_from-zero m lo zero h = refl
free_from-zero m lo (suc n) h =
    ground (arith, h lo, free_from-zero m (lo + 1) n (λ id a b. h id (omega arith) (omega arith)))

free_from-set_below :
    (m : ℕ → ℕ) (lo n id v : ℕ) → id < lo → free_from (set_using m id v) lo n ≡ free_from m lo n
unfolding free_from set_using
free_from-set_below m lo zero id v h = refl
free_from-set_below m lo (suc n) id v h = ground (arith, free_from-set_below m (lo + 1) n id v)

free_from-set :
    (m : ℕ → ℕ) (lo n id : ℕ)
    → lo ≤ id
    → id < lo + n
    → m id ≡ 0
    → free_from (set_using m id 1) lo n + 1 ≡ free_from m lo n
unfolding free_from set_using
free_from-set m lo zero id h k e = absurd (omega arith)
free_from-set m lo (suc n) id h k e =
    ground (arith, free_from-set m (lo + 1) n id, free_from-set_below m (lo + 1) n id 1)

free_from-all : (m : ℕ → ℕ) (lo n : ℕ) → ((id : ℕ) → m id ≡ 0) → free_from m lo n ≡ n
unfolding free_from
free_from-all m lo zero h = refl
free_from-all m lo (suc n) h = ground (arith, h lo, free_from-all m (lo + 1) n h)

-- The free data blocks of a block manager.
unfoldable pub free_count : BlockManager → ℕ
unfolding free_from
free_count bm = free_from bm.using_blocks data_start (block_num - data_start)

pub free_count-same :
    (bm bm' : BlockManager) → bm'.using_blocks ≡ bm.using_blocks → free_count bm' ≡ free_count bm
unfolding free_count
free_count-same bm bm' e = ap (λ u. free_from u data_start (block_num - data_start)) e

pub free_count-taken :
    (bm : BlockManager) (id : ℕ)
    → IsData id
    → bm.using_blocks id ≡ 0
    → free_count (taken data_start id bm) + 1 ≡ free_count bm
unfolding free_count
free_count-taken bm id h e =
    free_from-set bm.using_blocks data_start (block_num - data_start) id h.0 (omega arith) e

pub free_count-pos :
    (bm : BlockManager) (id : ℕ) → IsData id → bm.using_blocks id ≡ 0 → 0 < free_count bm
unfolding free_count
free_count-pos bm id h e =
    free_from-pos bm.using_blocks data_start (block_num - data_start) id h.0 (omega arith) e

free_count-zero :
    (bm : BlockManager) → ((id : ℕ) → IsData id → bm.using_blocks id ≢ 0) → free_count bm ≡ 0
unfolding free_count
free_count-zero bm full =
    free_from-zero bm.using_blocks data_start (block_num - data_start)
      (λ id a b. full id (a, omega arith))

-- With a free data block `alloc_block` returns one, and there is one less.
pub alloc_block-returns :
    (bm : BlockManager)
    → IsReady bm
    → 0 < free_count bm
    → (id : ℕ) × IsData id
      × (bm.using_blocks id ≡ 0)
      × (alloc_block bm ≡ ret (id, taken data_start id bm))
      × (free_count (taken data_start id bm) + 1 ≡ free_count bm)
alloc_block-returns bm ready pos = elim (alloc_block-Allocates bm ready) [
  | inl (_, full) ↦ absurd (omega (arith, free_count-zero bm full))
  | inr (id, h, e, r) ↦ (id, h, e, r, free_count-taken bm id h e)
]

pub free_count-all :
    (bm : BlockManager)
    → ((id : ℕ) → bm.using_blocks id ≡ 0)
    → free_count bm ≡ block_num - data_start
unfolding free_count
free_count-all bm h = free_from-all bm.using_blocks data_start (block_num - data_start) h

-- ===== src/Inodes/Indirect.antt =====
-- The indirect block of large files in inode_manager.cc. `alloc_nth_block` never allocates it, so
-- that all inodes keep the number that stood in their block before.
use naive_file_system.Prelude.{
  ℕ, ◌+◌, ◌-◌, ◌*◌, ◌/◌, ◌%◌, ◌^◌, ◌≤◌, ◌<◌, ◌≡◌, refl, ap, ◌∙◌, arith, none, false, [], le→ltb,
  lt→ltb, if_true, if_false,
}
use naive_file_system.Outcome.{ret, undefined, Returns}
use naive_file_system.Disk.{block_num, read_block_legal, write_block_self}
use naive_file_system.Blocks.{BlockManager, store_block}
use naive_file_system.Blocks.Alloc.{data_start, IsReady, taken}
use naive_file_system.Blocks.Free.{free_count, alloc_block-returns}
use naive_file_system.Inodes.{Inode, ndirect, nindirect, maxfile, get_u32, byte_of}
use naive_file_system.Inodes.Codec.{get_u32_bytes}
use naive_file_system.Inodes.Manager.{
  set_pointer, alloc_nth_block, get_nth_block, set_nth_block, set_entry, get_entry, modify_block,
  rewrite_block,
}
use naive_file_system.Inodes.Table.{load_block_legal}

modify_block_legal :
    (bm : BlockManager) (id k : ℕ) (change : (ℕ → ℕ) → ℕ → ℕ)
    → id < block_num
    → k < 512
    → (modify_block bm id change).d.blocks id k ≡ change (bm.d.blocks id) k
unfolding modify_block store_block
modify_block_legal bm id k change h lt =
    rw (read_block_legal bm.d id none h, rewrite_block)
      (write_block_self bm.d id k (change (bm.d.blocks id)) h lt)

set_entry_byte :
    (b : ℕ → ℕ) (i id k place : ℕ)
    → k < 4
    → place ≡ 4 * i + k
    → set_entry i id b place ≡ byte_of id k
unfolding set_entry
set_entry_byte b i id k place lt e =
    let word : place / 4 ≡ i = omega arith in let rest : place % 4 ≡ k = omega arith in ground arith

-- The entry that was set in the indirect block is read back.
get_u32-modify_block :
    (bm : BlockManager) (at i id : ℕ)
    → at < block_num
    → i < nindirect
    → id < 2 ^ 32
    → get_u32 ((modify_block bm at (set_entry i id)).d.blocks at) (4 * i) ≡ id
get_u32-modify_block bm at i id h few lt =
    get_u32_bytes ((modify_block bm at (set_entry i id)).d.blocks at) (4 * i) id
      (byte 0 (4 * i) (omega arith) (omega arith)) (byte 1 (4 * i + 1) (omega arith) refl)
      (byte 2 (4 * i + 2) (omega arith) refl) (byte 3 (4 * i + 3) (omega arith) refl) lt
  where
    byte :
        (k place : ℕ)
        → k < 4
        → place ≡ 4 * i + k
        → (modify_block bm at (set_entry i id)).d.blocks at place ≡ byte_of id k
    byte k place l e =
        modify_block_legal bm at place (set_entry i id) h (omega arith)
        ∙ set_entry_byte (bm.d.blocks at) i id k place l e

pub get_nth_block_indirect :
    (bm : BlockManager) (ino : Inode) (n : ℕ)
    → ino.blocks ndirect < block_num
    → ndirect ≤ n
    → n < maxfile
    → get_nth_block bm ino n ≡ ret (get_u32 (bm.d.blocks (ino.blocks ndirect)) (4 * (n - ndirect)))
unfolding get_nth_block get_entry
get_nth_block_indirect bm ino n h lo hi =
    if_false (ret (ino.blocks n)) (le→ltb n ndirect lo)
    ∙ rw (load_block_legal bm (ino.blocks ndirect) h)
        (if_true undefined (lt→ltb (n - ndirect) nindirect (omega arith)))

-- Two files with the same indirect block share each block of data that one of them gets behind its
-- direct pointers: the new block stands at the same place of the other file.
pub large_files_share :
    (bm : BlockManager) (ino other : Inode) (n : ℕ)
    → IsReady bm
    → 0 < free_count bm
    → ino.blocks ndirect < block_num
    → other.blocks ndirect ≡ ino.blocks ndirect
    → ndirect ≤ n
    → n < maxfile
    → Returns (alloc_nth_block bm ino n [] false) λ r.
      (id : ℕ) × (bm.using_blocks id ≡ 0)
      × (get_nth_block r.0 r.1 n ≡ ret id)
      × (get_nth_block r.0 other n ≡ ret id)
unfolding alloc_nth_block set_nth_block
large_files_share bm ino other n ready room h same lo hi =
    let (id, range, free, run, count) = alloc_block-returns bm ready room in
    let at = ino.blocks ndirect in
    let bm' = modify_block (taken data_start id bm) at (set_entry (n - ndirect) id) in
    let entry =
      get_u32-modify_block (taken data_start id bm) at (n - ndirect) id h (omega arith)
        (omega arith) in
    (
      (bm', ino),
      rw run (
          if_false (ret (taken data_start id bm, set_pointer ino n id)) (le→ltb n ndirect lo)
          ∙ if_true undefined (lt→ltb (n - ndirect) nindirect (omega arith))),
      (
        id,
        free,
        get_nth_block_indirect bm' ino n h lo hi ∙ ap ret entry,
        get_nth_block_indirect bm' other n (omega arith) lo hi
            ∙ ap (λ b. ret (get_u32 (bm'.d.blocks b) (4 * (n - ndirect)))) same
            ∙ ap ret entry,
      ),
    )

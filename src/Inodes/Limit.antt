-- ===== src/Inodes/Limit.antt =====
-- Where `write_file` of inode_manager.cc goes out of the bounds of an indirect block: unlike
-- `read_file`, it does not look at MAXFILE.
use naive_file_system.Prelude.{
  ℕ, zero, suc, ◌+◌, ◌-◌, ◌*◌, ◌≤◌, ◌<◌, ◌≡◌, ◌⊎◌, refl, ap, ◌∙◌, arith, false, [], List, le→ltb,
  lt→ltb, Option, none, some, sym, subst, if_true, if_false, Bool-cases, inl, inr, ltb, ◌==◌,
}
use naive_file_system.Outcome.{◌>>=◌, ret, undefined, Returns}
use naive_file_system.Disk.{Block, read_block, block_num, block_size}
use naive_file_system.Blocks.{BlockManager, Superblock, store_block, free_block}
use naive_file_system.Blocks.Alloc.{IsData, data_start, IsReady, taken, taken-IsReady}
use naive_file_system.Blocks.Free.{free_count, free_count-same, alloc_block-returns}
use naive_file_system.Inodes.{Inode, Times, ndirect, nindirect, maxfile, get_u32, u32}
use naive_file_system.Inodes.Manager.{
  alloc_nth_block, get_nth_block, set_nth_block, set_entry, set_pointer, modify_block, put_inode,
  to_block, rewrite_block, write_nth_block, free_nth_block, block_count,
}
use naive_file_system.Inodes.Files.{
  alloc_blocks, free_blocks, write_blocks, fit_blocks, write_content, write_file, slice, resize,
}
use naive_file_system.Inodes.Holding.{get_nth_block_direct}
use naive_file_system.Inodes.Indirect.{get_nth_block_indirect}
use naive_file_system.Inodes.Table.{inode_at, get_inode_at}
use naive_file_system.Inodes.Valid.{IsLive, IsValid, pointers}

-- A change in the data leaves the rest of the block manager as it is.
abbrev Alike : BlockManager → BlockManager → Type 0
Alike bm bm' =
    (bm'.sb ≡ bm.sb) × (bm'.next_block ≡ bm.next_block) × (bm'.using_blocks ≡ bm.using_blocks)

rewrite_block-Alike :
    (bm : BlockManager) (id : ℕ) (change : Block → Block) (o : Option Block)
    → Alike bm (rewrite_block bm id change o)
unfolding store_block
rewrite_block-Alike bm id change none = (refl, refl, refl)
rewrite_block-Alike bm id change (some buf) = (refl, refl, refl)

modify_block-Alike :
    (bm : BlockManager) (id : ℕ) (change : Block → Block) → Alike bm (modify_block bm id change)
unfolding modify_block
modify_block-Alike bm id change = rewrite_block-Alike bm id change (read_block bm.d id none)

Alike-IsReady : (bm bm' : BlockManager) → Alike bm bm' → IsReady bm → IsReady bm'
Alike-IsReady bm bm' (s, n, u) r = record {
  formatted = ap (λ (b : Superblock). b.nblocks) s ∙ r.formatted;
  cursor = subst IsData (sym n) r.cursor;
}

-- A new block within MAXFILE has a place, in the inode or in its indirect block.
record Extended (bm : BlockManager) (ino : Inode) (bm' : BlockManager) (ino' : Inode) : Type 0 where
  ready : IsReady bm'
  one_less : free_count bm' + 1 ≡ free_count bm
  indirect : ino'.blocks ndirect ≡ ino.blocks ndirect

alloc_nth_block-Extended :
    (bm : BlockManager) (ino : Inode) (n : ℕ)
    → IsReady bm
    → 0 < free_count bm
    → n < maxfile
    → Returns (alloc_nth_block bm ino n [] false) λ r. Extended bm ino r.0 r.1
unfolding alloc_nth_block set_nth_block
alloc_nth_block-Extended bm ino n ready room lt =
    let (id, range, free, run, count) = alloc_block-returns bm ready room in
    let now = taken data_start id bm in
    let same = modify_block-Alike now (ino.blocks ndirect) (set_entry (n - ndirect) id) in
    elim (Bool-cases (ltb n ndirect)) [
      | inl direct ↦ (
        (now, set_pointer ino n id),
        rw run (if_true _ direct),
        record {
          ready = taken-IsReady bm id ready range;
          one_less = count;
          indirect = ground arith;
        },
      )
      | inr not ↦ (
        (modify_block now (ino.blocks ndirect) (set_entry (n - ndirect) id), ino),
        rw run (if_false _ not ∙ if_true _ (lt→ltb (n - ndirect) nindirect (ground arith))),
        record {
          ready = Alike-IsReady now _ same (taken-IsReady bm id ready range);
          one_less = ap (λ k. k + 1) (free_count-same now _ same.2) ∙ count;
          indirect = refl;
        },
      )
    ]

-- The first block at or behind MAXFILE has none.
alloc_nth_block_beyond :
    (bm : BlockManager) (ino : Inode) (n : ℕ)
    → IsReady bm
    → 0 < free_count bm
    → maxfile ≤ n
    → alloc_nth_block bm ino n [] false ≡ undefined
unfolding alloc_nth_block set_nth_block
alloc_nth_block_beyond bm ino n ready room far =
    let (id, range, free, run, count) = alloc_block-returns bm ready room in
    rw run (
      if_false _ (le→ltb n ndirect (omega arith))
      ∙ if_false _ (le→ltb (n - ndirect) nindirect (omega arith)))

alloc_blocks_within :
    (rounds k : ℕ) (bm : BlockManager) (ino : Inode)
    → IsReady bm
    → k + rounds ≤ maxfile
    → rounds ≤ free_count bm
    → Returns (alloc_blocks rounds k bm ino) λ r. r.1.blocks ndirect ≡ ino.blocks ndirect
unfolding alloc_blocks
alloc_blocks_within zero k bm ino ready short room = ((bm, ino), refl, refl)
alloc_blocks_within (suc rounds) k bm ino ready short room =
    let (r, run, x) = alloc_nth_block-Extended bm ino k ready (omega arith) (omega arith) in
    let (s, runs, e) =
      alloc_blocks_within rounds (k + 1) r.0 r.1 x.ready (omega arith)
        (omega (arith, x.one_less)) in
    (s, rw run runs, e ∙ x.indirect)

alloc_blocks_beyond :
    (rounds k : ℕ) (bm : BlockManager) (ino : Inode)
    → IsReady bm
    → k ≤ maxfile
    → maxfile < k + rounds
    → maxfile < k + free_count bm
    → alloc_blocks rounds k bm ino ≡ undefined
unfolding alloc_blocks
alloc_blocks_beyond zero k bm ino ready low far room = absurd (omega arith)
alloc_blocks_beyond (suc rounds) k bm ino ready low far room = elim (Bool-cases (ltb k maxfile)) [
  | inl more ↦
      let (r, run, x) = alloc_nth_block-Extended bm ino k ready (omega arith) (ground arith) in
      rw run (
        alloc_blocks_beyond rounds (k + 1) r.0 r.1 x.ready (ground arith) (omega arith)
          (omega (arith, x.one_less)))
  | inr at_end ↦ rw (alloc_nth_block_beyond bm ino k ready (omega arith) (ground arith)) refl
]

get_nth_block_within :
    (bm : BlockManager) (ino : Inode) (n : ℕ)
    → ino.blocks ndirect < block_num
    → n < maxfile
    → (id : ℕ) × (get_nth_block bm ino n ≡ ret id)
get_nth_block_within bm ino n h lt = elim (Bool-cases (ltb n ndirect)) [
  | inl direct ↦ (ino.blocks n, get_nth_block_direct bm ino n (ground arith))
  | inr not ↦ (
    get_u32 (bm.d.blocks (ino.blocks ndirect)) (4 * (n - ndirect)),
    get_nth_block_indirect bm ino n h (ground arith) lt,
  )
]

free_blocks_within :
    (rounds k : ℕ) (bm : BlockManager) (ino : Inode)
    → ino.blocks ndirect < block_num
    → k + rounds ≤ maxfile
    → (bm' : BlockManager) × (free_blocks rounds k bm ino ≡ ret bm')
unfolding free_blocks free_nth_block
free_blocks_within zero k bm ino h short = (bm, refl)
free_blocks_within (suc rounds) k bm ino h short =
    let (id, run) = get_nth_block_within bm ino k h (omega arith) in
    let (bm', runs) = free_blocks_within rounds (k + 1) (free_block bm id) ino h (omega arith) in
    (bm', rw run runs)

write_nth_block_within :
    (bm : BlockManager) (ino : Inode) (n : ℕ) (buf : List ℕ)
    → ino.blocks ndirect < block_num
    → n < maxfile
    → (bm' : BlockManager) × (write_nth_block bm ino n buf ≡ ret bm')
unfolding write_nth_block
write_nth_block_within bm ino n buf h lt =
    let (id, run) = get_nth_block_within bm ino n h lt in
    (
      store_block bm id (to_block buf),
      ap (λ r. r >>= λ b. ret (store_block bm b (to_block buf))) run,
    )

write_blocks_within :
    (rounds k : ℕ) (bm : BlockManager) (ino : Inode) (buf : List ℕ)
    → ino.blocks ndirect < block_num
    → k + rounds ≤ maxfile
    → (bm' : BlockManager) × (write_blocks rounds k bm ino buf ≡ ret bm')
unfolding write_blocks
write_blocks_within zero k bm ino buf h short = (bm, refl)
write_blocks_within (suc rounds) k bm ino buf h short =
    let (next, run) = write_nth_block_within bm ino k (slice buf k block_size) h (omega arith) in
    let (bm', runs) = write_blocks_within rounds (k + 1) next ino buf h (omega arith) in
    (bm', rw run runs)

write_content_within :
    (after : ℕ) (bm : BlockManager) (ino : Inode) (buf : List ℕ) (size : ℕ)
    → ino.blocks ndirect < block_num
    → after ≤ maxfile
    → (bm' : BlockManager) × (write_content after bm ino buf size ≡ ret bm')
unfolding write_content
write_content_within after bm ino buf size h short = elim (Bool-cases (after == 0)) [
  | inl empty ↦ (bm, if_true _ empty)
  | inr some_blocks ↦
      let (next, run) = write_blocks_within (after - 1) 0 bm ino buf h (omega arith) in
      let (bm', runs) =
        write_nth_block_within next ino (after - 1)
          (resize block_size (slice buf (after - 1) (block_size - (after * block_size - size)))) h
          (ground arith) in
      (bm', if_false _ some_blocks ∙ rw run runs)
]

fit_blocks_within :
    (before after : ℕ) (bm : BlockManager) (ino : Inode)
    → IsReady bm
    → ino.blocks ndirect < block_num
    → before ≤ maxfile
    → after ≤ maxfile
    → after ≤ before + free_count bm
    → Returns (fit_blocks before after bm ino) λ r. r.1.blocks ndirect ≡ ino.blocks ndirect
unfolding fit_blocks
fit_blocks_within before after bm ino ready h low short room =
    elim (Bool-cases (ltb after before)) [
      | inl less ↦
          let (bm', run) = free_blocks_within (before - after) after bm ino h (ground arith) in
          ((bm', ino), rw less (rw run refl), refl)
      | inr not_less ↦ elim (Bool-cases (ltb before after)) [
        | inl more ↦
            let (r, run, e) =
              alloc_blocks_within (after - before) before bm ino ready (ground arith)
                (ground arith) in
            (r, rw not_less (rw more run), e)
        | inr same ↦ ((bm, ino), rw not_less (rw same refl), refl)
      ]
    ]

fit_blocks_beyond :
    (before after : ℕ) (bm : BlockManager) (ino : Inode)
    → IsReady bm
    → before ≤ maxfile
    → maxfile < after
    → maxfile < before + free_count bm
    → fit_blocks before after bm ino ≡ undefined
unfolding fit_blocks
fit_blocks_beyond before after bm ino ready low far room = rw (le→ltb after before (omega arith)) (
    rw (lt→ltb before after (omega arith))
      (alloc_blocks_beyond (after - before) before bm ino ready low (omega arith) room))

-- For a live file of a sound disk whose indirect block has the number of a block, and with more
-- blocks that are free or the file's own than MAXFILE: `write_file` returns if the size is at most
-- MAXFILE blocks, and else its behaviour is undefined.
pub write_file-limit :
    (bm : BlockManager) (i : ℕ) (buf : List ℕ) (size : ℕ) (t : Times)
    → IsValid bm
    → IsLive bm.d i
    → (inode_at bm.d i).blocks ndirect < block_num
    → maxfile < pointers bm.d i + free_count bm
    → ((size ≤ maxfile * block_size)
        × ((bm' : BlockManager) × (write_file bm i buf size t ≡ ret bm')))
      ⊎ ((maxfile * block_size < size) × (write_file bm i buf size t ≡ undefined))
unfolding write_file
write_file-limit bm i buf size t v live h room =
    let start = get_inode_at bm i v.ready live.0 in
    let few : pointers bm.d i ≤ maxfile = omega (arith, v.few i live) in
    elim (Bool-cases (ltb (maxfile * block_size) size)) [
      | inl big ↦ inr (
        ground arith,
        rw start (
            rw
              (fit_blocks_beyond (pointers bm.d i) (block_count size) bm (inode_at bm.d i) v.ready
                few (ground arith) room)
              refl),
      )
      | inr fits ↦
          let short : block_count size ≤ maxfile = ground arith in
          let (r, run, e) =
            fit_blocks_within (pointers bm.d i) (block_count size) bm (inode_at bm.d i) v.ready h
              few short (omega arith) in
          let (bm₂, runs) =
            write_content_within (block_count size) r.0 r.1 buf size (omega arith) short in
          inl (
            ground arith,
            (
              put_inode bm₂ i (record r.1 {
                size = u32 size;
                atime = u32 t.a;
                mtime = u32 t.m;
                ctime = u32 t.c;
              }),
              rw start (rw run (rw runs refl)),
            ),
          )
    ]

-- ===== src/Inodes/Format.antt =====
-- The constructors `block_manager::block_manager` and `inode_manager::inode_manager` of
-- inode_manager.cc, and what they make of the field `sb.nblocks` that is read before it is set.
use naive_file_system.Prelude.{
  ℕ, ◌+◌, ◌-◌, ◌/◌, ◌^◌, ◌<◌, ◌≡◌, ◌≢◌, refl, ◌∙◌, arith, some, none, [],
}
use naive_file_system.Outcome.{Returns}
use naive_file_system.Disk.{new_disk, block_num}
use naive_file_system.Blocks.{inode_num, iblock, new_block_manager, alloc_block}
use naive_file_system.Blocks.Alloc.{taken, alloc_block-next}
use naive_file_system.Inodes.{Inode, Times, ndirect, t_dir, u32, load_inode, get_u16}
use naive_file_system.Inodes.Manager.{new_inode_manager, inode_block}
use naive_file_system.Inodes.Table.{IsInum, inode_at, put_inode-eq-put_at, put_at}
use naive_file_system.Inodes.Valid.{file_at_free, file_at_empty, IsValid, file_at}
use naive_file_system.Inodes.Commit.{Reaches, Reaches-Commits}
use naive_file_system.Inodes.Lifetime.{IsManaged}

blank : (i : ℕ) → (inode_at new_disk i).type ≡ 0
unfolding inode_at load_inode get_u16 new_disk
blank i = refl

file_at_blank : (i : ℕ) → file_at new_disk i ≡ none
file_at_blank i = file_at_free new_disk i (blank i)

-- The cursor stands where it should just if the unset field held the number of blocks, but for
-- its low bits.
abbrev pub IsHarmless : ℕ → Type 0
IsHarmless unset = unset / 4096 ≡ 8

formatted-IsValid : (unset : ℕ) → IsHarmless unset → IsValid (new_block_manager unset)
unfolding new_block_manager
formatted-IsValid unset e = record {
  ready = record { formatted = refl; cursor = omega arith };
  few = λ i live. absurd (live.1 (blank i));
  in_data = λ i n live lt. absurd (live.1 (blank i));
  marked = λ i n live lt. absurd (live.1 (blank i));
  distinct = λ i n j p live. absurd (live.1 (blank i));
}

abbrev root : (ℕ → ℕ) → Times → Inode
root stack t = record {
  type = t_dir;
  size = 0;
  atime = u32 t.a;
  mtime = u32 t.m;
  ctime = u32 t.c;
  blocks = stack;
}

root-Reaches :
    (unset : ℕ) (stack : ℕ → ℕ) (t : Times)
    → IsHarmless unset
    → ((i : ℕ) → stack i < 2 ^ 32)
    → ((i : ℕ) → ndirect < i → stack i ≡ 0)
    → Reaches (new_block_manager unset) 1 (new_block_manager unset) (root stack t)
root-Reaches unset stack t e small bound =
    let v = formatted-IsValid unset e in
    record {
      count = 0;
      inum = omega arith;
      holds = record {
        ready = v.ready;
        few = omega arith;
        in_data = λ n lt. absurd (omega arith);
        marked = λ n lt. absurd (omega arith);
        distinct = λ n p lt. absurd (omega arith);
        apart = λ n lt. absurd (omega arith);
        others = λ b o. unfold new_block_manager in absurd (o.live.1 (blank o.j));
        fits = record {
          type = omega arith;
          size = omega arith;
          atime = omega arith;
          mtime = omega arith;
          ctime = omega arith;
          blocks = small;
          bound = bound;
        };
      };
      covers = λ _. refl;
      table = λ j _. refl;
      kept = λ b _. refl;
    }

-- Where the unset field happened to hold a number of blocks with the right high bits, the new file
-- system is sound: it has an empty root directory as file 1, no other file,
-- and no block in use.
pub new_inode_manager-IsManaged :
    (unset : ℕ) (stack : ℕ → ℕ) (t : Times)
    → IsHarmless unset
    → ((i : ℕ) → stack i < 2 ^ 32)
    → ((i : ℕ) → ndirect < i → stack i ≡ 0)
    → let m = new_inode_manager unset stack t in
      IsManaged m
      × (file_at m.bm.d 1 ≡ some (record { kind = t_dir; bytes = [] }))
      × ((j : ℕ) → IsInum j → j ≢ 1 → file_at m.bm.d j ≡ none)
      × ((b : ℕ) → m.bm.using_blocks b ≡ 0)
unfolding new_inode_manager
new_inode_manager-IsManaged unset stack t e small bound =
    let v = formatted-IsValid unset e in
    let c = Reaches-Commits v (root-Reaches unset stack t e small bound) in
    let d' = put_at (new_block_manager unset).d 1 (root stack t) in
    rw (put_inode-eq-put_at (new_block_manager unset) 1 (root stack t) v.ready (omega arith)) (
      record { blocks = c.valid; cursor = omega arith },
      file_at_empty d' 1 (root stack t) c.self (omega arith) refl,
      λ j h ne. c.files j h ne ∙ (unfold new_block_manager in file_at_blank j),
      λ b. unfold new_block_manager in refl,
    )

-- Where the unset field held less, the first block that is handed out for data is the block of an
-- inode.
pub early_cursor_hits_inode :
    (unset : ℕ)
    → unset < block_num
    → Returns
        (alloc_block (new_block_manager unset))
        λ r. (i : ℕ) × IsInum i × (r.0 ≡ inode_block r.1 i)
unfolding new_block_manager
early_cursor_hits_inode unset h =
    let bm = new_block_manager unset in
    (
      (bm.next_block, taken (iblock inode_num bm.sb.nblocks + 1) bm.next_block bm),
      alloc_block-next bm (omega arith) refl,
      (bm.next_block - 11, omega arith, omega arith),
    )

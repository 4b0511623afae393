-- ===== src/Inodes/Valid.antt =====
-- When the disk and the block map of inode_manager.cc are sound, and the abstract view of the disk
-- as files.
use naive_file_system.Prelude.{
  ℕ, ◌+◌, ◌≤◌, ◌<◌, ◌≡◌, ◌≢◌, Option, none, some, List, ◌==◌, if◌then◌else◌, subst, [], ==_ne, take,
}
use naive_file_system.Disk.{Disk}
use naive_file_system.Blocks.{BlockManager}
use naive_file_system.Blocks.Alloc.{IsData, IsReady}
use naive_file_system.Inodes.{Inode, ndirect}
use naive_file_system.Inodes.Codec.{load_inode-Fits}
use naive_file_system.Inodes.Manager.{block_count}
use naive_file_system.Inodes.Table.{IsInum, inode_at}
use naive_file_system.Inodes.Content.{content}
use naive_file_system.Inodes.Holding.{Holds}

abbrev pub IsLive : Disk → ℕ → Type 0
IsLive d i = IsInum i × ((inode_at d i).type ≢ 0)

-- The number of blocks of inode `i`, and the number of its block `n`.
abbrev pub pointers : Disk → ℕ → ℕ
pointers d i = block_count (inode_at d i).size

abbrev pub pointer : Disk → ℕ → ℕ → ℕ
pointer d i n = (inode_at d i).blocks n

-- The cursor stands in the data blocks; every file is small enough to need no indirect block; its
-- blocks are data blocks that are marked as used, and no two pointers of all files are the same.
pub record IsValid (bm : BlockManager) : Type 0 where
  pub ready : IsReady bm
  pub few : (i : ℕ) → IsLive bm.d i → pointers bm.d i ≤ ndirect
  pub in_data : (i n : ℕ) → IsLive bm.d i → n < pointers bm.d i → IsData (pointer bm.d i n)
  pub marked :
      (i n : ℕ) → IsLive bm.d i → n < pointers bm.d i → bm.using_blocks (pointer bm.d i n) ≡ 1
  pub distinct :
      (i n j p : ℕ)
      → IsLive bm.d i
      → n < pointers bm.d i
      → IsLive bm.d j
      → p < pointers bm.d j
      → pointer bm.d i n ≡ pointer bm.d j p
      → (i ≡ j) × (n ≡ p)

-- `b` is a block of a file other than `i`.
pub record Others (d : Disk) (i b : ℕ) : Type 0 where
  pub j : ℕ
  pub n : ℕ
  pub other : j ≢ i
  pub live : IsLive d j
  pub within : n < pointers d j
  pub is : pointer d j n ≡ b

pub record File : Type 0 where
  pub kind : ℕ
  pub bytes : List ℕ

-- The abstract view of the disk: which file each inode number names.
unfoldable pub file_of : Disk → Inode → Option File
file_of d ino =
    if ino.type == 0 then none else some (record { kind = ino.type; bytes = content d ino })

unfoldable pub file_at : Disk → ℕ → Option File
unfolding file_of
file_at d i = file_of d (inode_at d i)

pub file_at_free : (d : Disk) (i : ℕ) → (inode_at d i).type ≡ 0 → file_at d i ≡ none
unfolding file_at
file_at_free d i free = rw free

pub file_at_empty :
    (d : Disk) (i : ℕ) (ino : Inode)
    → inode_at d i ≡ ino
    → ino.type ≢ 0
    → ino.size ≡ 0
    → file_at d i ≡ some (record { kind = ino.type; bytes = [] })
unfolding file_at content take
file_at_empty d i ino e live size = rw e (rw (==_ne ino.type 0 live) (rw size))

pub IsValid-Holds :
    {bm : BlockManager} (i : ℕ)
    → IsValid bm
    → IsLive bm.d i
    → Holds (Others bm.d i) bm (inode_at bm.d i) (pointers bm.d i)
IsValid-Holds {bm} i v live = record {
  ready = v.ready;
  few = v.few i live;
  in_data = λ n lt. v.in_data i n live lt;
  marked = λ n lt. v.marked i n live lt;
  distinct = λ n p a b e. (v.distinct i n i p live a live b e).1;
  apart = λ n lt o. o.other (v.distinct o.j o.n i n o.live o.within live lt o.is).0;
  others = λ b o. subst (λ c. bm.using_blocks c ≡ 1) o.is (v.marked o.j o.n o.live o.within);
  fits = unfold inode_at in load_inode-Fits (bm.d.blocks (11 + i));
}

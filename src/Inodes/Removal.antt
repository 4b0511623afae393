-- ===== src/Inodes/Removal.antt =====
-- `remove_file` of inode_manager.cc: files end for good, and the other files are kept.
use naive_file_system.Prelude.{ℕ, ◌<◌, ◌≡◌, ◌≢◌, refl, ap, ◌∙◌, arith, none, ==_ne, if_false}
use naive_file_system.Outcome.{ret, exits, Returns}
use naive_file_system.Disk.{Disk}
use naive_file_system.Blocks.{BlockManager}
use naive_file_system.Inodes.{Inode}
use naive_file_system.Inodes.Manager.{free_inode}
use naive_file_system.Inodes.Files.{remove_file}
use naive_file_system.Inodes.Table.{IsInum, inode_at, get_inode_at, put_inode-eq-put_at, put_at}
use naive_file_system.Inodes.Holding.{Holds, Holds-le, free_blocks-Holds}
use naive_file_system.Inodes.Valid.{
  IsLive, pointers, pointer, IsValid, Others, file_at, file_at_free, IsValid-Holds,
}
use naive_file_system.Inodes.Commit.{Reaches, Reaches-Commits}

-- What `remove_file` leaves behind: the file is gone, and its blocks are free.
pub record Removes (bm : BlockManager) (i : ℕ) (bm' : BlockManager) : Type 0 where
  pub valid : IsValid bm'
  pub gone : file_at bm'.d i ≡ none
  pub others : (j : ℕ) → IsInum j → j ≢ i → file_at bm'.d j ≡ file_at bm.d j
  pub freed : (n : ℕ) → n < pointers bm.d i → bm'.using_blocks (pointer bm.d i n) ≡ 0

abbrev cleared : Inode → Inode
cleared ino = record ino { type = 0 }

cleared-Reaches :
    (bm bm' : BlockManager) (i : ℕ)
    → IsInum i
    → bm'.d ≡ bm.d
    → Holds (Others bm.d i) bm' (inode_at bm.d i) 0
    → Reaches bm i bm' (cleared (inode_at bm.d i))
cleared-Reaches bm bm' i h disk held = record {
  count = 0;
  inum = h;
  holds = record {
    ready = held.ready;
    few = omega arith;
    in_data = λ n lt. absurd (omega arith);
    marked = λ n lt. absurd (omega arith);
    distinct = λ n p lt. absurd (omega arith);
    apart = λ n lt. absurd (omega arith);
    others = held.others;
    fits = record {
      type = omega arith;
      size = held.fits.size;
      atime = held.fits.atime;
      mtime = held.fits.mtime;
      ctime = held.fits.ctime;
      blocks = held.fits.blocks;
      bound = held.fits.bound;
    };
  };
  covers = λ live. absurd (live refl);
  table = λ j _. ap (λ d. inode_at d j) disk;
  kept = λ b _. ap (λ (d : Disk). d.blocks b) disk;
}

-- `remove_file` returns for every live file of a sound disk: that file is gone, its blocks are free,
-- and all other files and the soundness of the disk are kept.
pub remove_file-Removes :
    (bm : BlockManager) (i : ℕ)
    → IsValid bm
    → IsLive bm.d i
    → Returns (remove_file bm i) (Removes bm i)
unfolding remove_file free_inode
remove_file-Removes bm i v live =
    let h = IsValid-Holds i v live in
    let ino = inode_at bm.d i in
    let (bm', run, (held, f)) =
      free_blocks-Holds (pointers bm.d i) 0 (pointers bm.d i) 0 bm ino (omega arith) (omega arith)
        h.few h.distinct h.apart (Holds-le 0 (omega arith) h) in
    let reaches = cleared-Reaches bm bm' i live.0 f.disk held in
    let c = Reaches-Commits v reaches in
    let same : inode_at bm'.d i ≡ ino = ap (λ d. inode_at d i) f.disk in
    (
      record bm' { d = put_at bm'.d i (cleared ino) },
      rw (get_inode_at bm i v.ready live.0) (
          rw run (
            rw (get_inode_at bm' i held.ready live.0) (
              rw same (
                if_false exits (==_ne ino.type 0 live.1)
                ∙ ap ret (put_inode-eq-put_at bm' i (cleared ino) held.ready live.0))))),
      record {
        valid = c.valid;
        gone = file_at_free (put_at bm'.d i (cleared ino)) i (ap (λ (x : Inode). x.type) c.self);
        others = c.files;
        freed = λ n lt. f.freed n (omega arith) lt;
      },
    )

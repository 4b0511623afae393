-- ===== src/Inodes/Read.antt =====
-- `read_file` of inode_manager.cc: it delivers the bytes of the file, and changes no file.
use naive_file_system.Prelude.{
  ℕ, ◌*◌, ◌≡◌, refl, sym, ap, ◌∙◌, arith, none, some, [], ◌==◌, if◌then◌else◌, subst, Bool-cases,
  inl, inr, ==_eq, take, le→ltb, if_false,
}
use naive_file_system.Outcome.{ret, exits, Returns}
use naive_file_system.Disk.{Disk, block_size}
use naive_file_system.Blocks.{BlockManager}
use naive_file_system.Inodes.{Inode, Times, maxfile, u32}
use naive_file_system.Inodes.Files.{FileRead, fetched, read_file, read_content}
use naive_file_system.Inodes.Table.{
  IsInum, inode_at, get_inode_at, put_inode-eq-put_at, put_at, put_at_data,
}
use naive_file_system.Inodes.Content.{content, content_congr, blocks_from, read_blocks-blocks_from}
use naive_file_system.Inodes.Valid.{
  IsLive, pointers, pointer, IsValid, file_of, file_at, IsValid-Holds,
}
use naive_file_system.Inodes.Commit.{Reaches, Commits, Reaches-Commits}

-- What reading file `i` delivers and leaves behind.
pub record Reads (bm : BlockManager) (i : ℕ) (r : FileRead × BlockManager) : Type 0 where
  pub size : r.0.size ≡ (inode_at bm.d i).size
  pub bytes : fetched r.0 ≡ ret (content bm.d (inode_at bm.d i))
  pub valid : IsValid r.1
  pub files : (j : ℕ) → IsInum j → file_at r.1.d j ≡ file_at bm.d j
  pub blocks : r.1.using_blocks ≡ bm.using_blocks

abbrev touched : Inode → Times → Inode
touched ino t = record ino { atime = u32 t.a }

touched-Reaches :
    (bm : BlockManager) (i : ℕ) (t : Times)
    → IsValid bm
    → IsLive bm.d i
    → Reaches bm i bm (touched (inode_at bm.d i) t)
touched-Reaches bm i t v live =
    let h = IsValid-Holds i v live in
    record {
      count = pointers bm.d i;
      inum = live.0;
      holds = record {
        ready = h.ready;
        few = h.few;
        in_data = h.in_data;
        marked = h.marked;
        distinct = h.distinct;
        apart = h.apart;
        others = h.others;
        fits = record {
          type = h.fits.type;
          size = h.fits.size;
          atime = omega arith;
          mtime = h.fits.mtime;
          ctime = h.fits.ctime;
          blocks = h.fits.blocks;
          bound = h.fits.bound;
        };
      };
      covers = λ _. refl;
      table = λ j _. refl;
      kept = λ b _. refl;
    }

module _ (bm : BlockManager) (i : ℕ) (t : Times) (v : IsValid bm) (live : IsLive bm.d i) where
  abbrev d' : Disk
  d' = put_at bm.d i (touched (inode_at bm.d i) t)

  c : Commits bm i (touched (inode_at bm.d i) t) (record bm { d = d' })
  c = Reaches-Commits v (touched-Reaches bm i t v live)

  file_self : file_at d' i ≡ file_at bm.d i
  unfolding file_at
  file_self =
      let same = content_congr bm.d d' (inode_at bm.d i) (touched (inode_at bm.d i) t) refl (λ n lt.
        put_at_data bm.d i (pointer bm.d i n) (touched (inode_at bm.d i) t) live.0
          (v.in_data i n live lt).0) in
      ap (file_of d') c.self
      ∙ ap
          (λ s.
            if (inode_at bm.d i).type == 0
            then none
            else some (record { kind = (inode_at bm.d i).type; bytes = s }))
          same

  files : (j : ℕ) → IsInum j → file_at d' j ≡ file_at bm.d j
  files j h = elim (Bool-cases (j == i)) [
    | inl e ↦ subst (λ k. file_at d' k ≡ file_at bm.d k) (sym (==_eq j i e)) file_self
    | inr ne ↦ c.files j h (ground arith)
  ]

  content_empty : (inode_at bm.d i).size ≡ 0 → [] ≡ content bm.d (inode_at bm.d i)
  unfolding content take
  content_empty e = rw e

read_content-eq :
    (bm : BlockManager) (i : ℕ) (t : Times)
    → IsValid bm
    → IsLive bm.d i
    → let ino = inode_at bm.d i in
      read_content bm i t ino
      ≡ ret (
        record { buf = some (blocks_from (pointers bm.d i) 0 bm.d ino); size = ino.size },
        record bm { d = put_at bm.d i (touched ino t) },
      )
read_content-eq bm i t v live =
    let ino = inode_at bm.d i in
    let few = v.few i live in
    rw
      (read_blocks-blocks_from (pointers bm.d i) 0 bm ino [] (omega arith)
        (λ n lt. (v.in_data i n live (omega arith)).1))
      (rw (put_inode-eq-put_at bm i (touched ino t) v.ready live.0))

-- `read_file` returns for every live file of a sound disk, with the bytes of the file; it changes
-- no file and keeps the disk sound.
pub read_file-Reads :
    (bm : BlockManager) (i : ℕ) (t : Times)
    → IsValid bm
    → IsLive bm.d i
    → Returns (read_file bm i t) (Reads bm i)
unfolding read_file
read_file-Reads bm i t v live = elim (Bool-cases ((inode_at bm.d i).size == 0)) [
  | inl empty ↦
      let e = ==_eq (inode_at bm.d i).size 0 empty in
      (
        (record { buf = none; size = 0 }, bm),
        rw (get_inode_at bm i v.ready live.0) (rw empty),
        record {
          size = sym e;
          bytes = ap ret (content_empty bm i t v live e);
          valid = v;
          files = λ j _. refl;
          blocks = refl;
        },
      )
  | inr filled ↦
      let ino = inode_at bm.d i in
      let small = v.few i live in
      (
        (
          record { buf = some (blocks_from (pointers bm.d i) 0 bm.d ino); size = ino.size },
          record bm { d = put_at bm.d i (touched ino t) },
        ),
        rw (get_inode_at bm i v.ready live.0) (
            if_false (ret (record { buf = none; size = 0 }, bm)) filled
            ∙ if_false exits (le→ltb (maxfile * block_size) ino.size (ground arith))
            ∙ read_content-eq bm i t v live),
        record {
          size = refl;
          bytes = unfold content in if_false (ret []) filled;
          valid = (c bm i t v live).valid;
          files = files bm i t v live;
          blocks = refl;
        },
      )
]

-- ===== src/Inodes/Write.antt =====
-- `write_file` of inode_manager.cc: it replaces the bytes of one file and changes no other.
use naive_file_system.Prelude.{
  ℕ, ◌+◌, ◌-◌, ◌*◌, ◌≤◌, ◌<◌, ◌≡◌, ◌≢◌, refl, sym, ap, ◌∙◌, arith, some, List, subst, Bool-cases,
  inl, inr, ==_ne, ltb, length,
}
use naive_file_system.Outcome.{Returns}
use naive_file_system.Disk.{Disk, Block, block_size}
use naive_file_system.Blocks.{BlockManager}
use naive_file_system.Blocks.Free.{free_count}
use naive_file_system.Inodes.{Inode, Times, ndirect, u32, load_inode}
use naive_file_system.Inodes.Manager.{block_count}
use naive_file_system.Inodes.Files.{fit_blocks, write_file}
use naive_file_system.Inodes.Table.{
  IsInum, inode_at, get_inode_at, put_inode-eq-put_at, put_at, put_at_data,
}
use naive_file_system.Inodes.Content.{content-eq, HoldsBytes}
use naive_file_system.Inodes.Writing.{Places, Written, write_content-Written}
use naive_file_system.Inodes.Holding.{Holds, free_blocks-Holds, alloc_blocks-Holds, Holds-le}
use naive_file_system.Inodes.Valid.{
  IsLive, pointers, IsValid, Others, file_of, file_at, IsValid-Holds,
}
use naive_file_system.Inodes.Commit.{Reaches, Reaches-Commits}

-- The first step ends with as many blocks as the new size needs.
fit_blocks-Holds :
    {O : ℕ → Type 0} (before after : ℕ) (bm : BlockManager) (ino : Inode)
    → Holds O bm ino before
    → after ≤ ndirect
    → after ≤ before + free_count bm
    → Returns
        (fit_blocks before after bm ino)
        λ r. Holds O r.0 r.1 after × (r.0.d ≡ bm.d) × (r.1.type ≡ ino.type)
unfolding fit_blocks
fit_blocks-Holds {O} before after bm ino h few room = elim (Bool-cases (ltb after before)) [
  | inl less ↦
      let (bm', run, (h', f)) =
        free_blocks-Holds (before - after) after before after bm ino (ground arith) (omega arith)
          h.few h.distinct h.apart (Holds-le after (ground arith) h) in
      ((bm', ino), rw less (rw run), (h', f.disk, refl))
  | inr not_less ↦ elim (Bool-cases (ltb before after)) [
    | inl more ↦
        let (r, run, p) =
          alloc_blocks-Holds (after - before) before after bm ino (ground arith) few (ground arith)
            h in
        (r, rw not_less (rw more run), p)
    | inr same ↦
        let e : before ≡ after = ground arith in
        ((bm, ino), rw not_less (rw same), (subst (Holds O bm ino) e h, refl, refl))
  ]
]

Holds-Places :
    {O : ℕ → Type 0} {bm : BlockManager} {ino : Inode} {k : ℕ} → Holds O bm ino k → Places ino k
Holds-Places h = record { few = h.few; legal = λ n lt. (h.in_data n lt).1; distinct = h.distinct }

-- The inode that `write_file` puts back.
abbrev stamped : Inode → ℕ → Times → Inode
stamped ino size t = record ino {
  size = u32 size;
  atime = u32 t.a;
  mtime = u32 t.m;
  ctime = u32 t.c;
}

-- What a write of `buf` into file `i` leaves behind.
pub record Writes (bm : BlockManager) (i : ℕ) (buf : List ℕ) (bm' : BlockManager) : Type 0 where
  pub valid : IsValid bm'
  pub file : file_at bm'.d i ≡ some (record { kind = (inode_at bm.d i).type; bytes = buf })
  pub others : (j : ℕ) → IsInum j → j ≢ i → file_at bm'.d j ≡ file_at bm.d j

Holds-stamped :
    {O : ℕ → Type 0} {bm : BlockManager} {ino : Inode} {k : ℕ} (d : Disk) (size : ℕ) (t : Times)
    → Holds O bm ino k
    → Holds O (record bm { d = d }) (stamped ino size t) k
Holds-stamped d size t h = record {
  ready = record { formatted = h.ready.formatted; cursor = h.ready.cursor };
  few = h.few;
  in_data = h.in_data;
  marked = h.marked;
  distinct = h.distinct;
  apart = h.apart;
  others = h.others;
  fits = record {
    type = h.fits.type;
    size = omega arith;
    atime = omega arith;
    mtime = omega arith;
    ctime = omega arith;
    blocks = h.fits.blocks;
    bound = h.fits.bound;
  };
}

-- After the two steps only the blocks of the file itself have changed.
Written-Reaches :
    {bm bm₁ bm₂ : BlockManager} {ino : Inode} (i : ℕ) (buf : List ℕ) (t : Times)
    → IsInum i
    → length buf ≤ block_size * ndirect
    → Holds (Others bm.d i) bm₁ ino (block_count (length buf))
    → bm₁.d ≡ bm.d
    → bm₂ ≡ record bm₁ { d = bm₂.d }
    → Written bm₁.d ino buf 0 (block_count (length buf)) bm₂.d
    → Reaches bm i bm₂ (stamped ino (length buf) t)
Written-Reaches {bm} {bm₁} {bm₂} {ino} i buf t h short held disk same w = record {
  count = block_count (length buf);
  inum = h;
  holds =
      subst (λ b. Holds (Others bm.d i) b (stamped ino (length buf) t) (block_count (length buf)))
        (sym same) (Holds-stamped bm₂.d (length buf) t held);
  covers = λ live. ap block_count (omega arith);
  table = λ j hj.
      unfold inode_at in
      ap load_inode (
        w.others (11 + j) (λ n a b e. absurd (omega (arith, (held.in_data n b).0)))
        ∙ ap (λ (d : Disk). d.blocks (11 + j)) disk);
  kept = λ b o.
      w.others b (λ n a c e. held.apart n c (subst (Others bm.d i) (sym e) o))
      ∙ ap (λ (d : Disk). d.blocks b) disk;
}

-- The file that an inode describes whose blocks hold `buf`.
file_of_bytes :
    (d : Disk) (ino : Inode) (buf : List ℕ)
    → ino.type ≢ 0
    → ino.size ≡ length buf
    → ((n : ℕ) → n < block_count ino.size → HoldsBytes d ino buf n)
    → file_of d ino ≡ some (record { kind = ino.type; bytes = buf })
unfolding file_of
file_of_bytes d ino buf live size bytes =
    rw (==_ne ino.type 0 live) (rw (content-eq d ino buf size bytes))

module _ {bm bm₂ : BlockManager} {ino : Inode} (d₁ : Disk) (i : ℕ) (buf : List ℕ) (t : Times)
    (v : IsValid bm) (live : IsLive bm.d i) (short : length buf ≤ block_size * ndirect)
    (kind : ino.type ≡ (inode_at bm.d i).type) (r : Reaches bm i bm₂ (stamped ino (length buf) t))
    (w : Written d₁ ino buf 0 (block_count (length buf)) bm₂.d) where
  abbrev ino' : Inode
  ino' = stamped ino (length buf) t

  bytes : (n : ℕ) → n < block_count (length buf) → HoldsBytes (put_at bm₂.d i ino') ino' buf n
  bytes n lt k l =
      let in_data = r.holds.in_data n (rw (sym count) lt) in
      ap (λ (b : Block). b k) (put_at_data bm₂.d i (ino.blocks n) ino' live.0 in_data.0)
      ∙ w.bytes n (omega arith) lt k l
    where
      count : block_count (length buf) ≡ r.count
      count = ap block_count (omega arith) ∙ r.covers (λ e. live.1 (sym kind ∙ e))

  Reaches-Writes : Writes bm i buf (record bm₂ { d = put_at bm₂.d i ino' })
  unfolding file_at
  Reaches-Writes =
      let c = Reaches-Commits v r in
      let size : ino'.size ≡ length buf = omega arith in
      record {
        valid = c.valid;
        file =
            ap (file_of (put_at bm₂.d i ino')) c.self
            ∙ file_of_bytes (put_at bm₂.d i ino') ino' buf (λ e. live.1 (sym kind ∙ e)) size
                (λ n lt. bytes n (subst (λ s. n < block_count s) size lt))
            ∙ ap (λ k. some (record { kind = k; bytes = buf })) kind;
        others = c.files;
      }

-- For a live file of a sound disk, data of at most 100 blocks, and enough blocks that are free or
-- the file's own, `write_file` returns, also where the file grows, shrinks or is emptied: the file
-- then holds `buf`, and all other files and the soundness of the disk are kept.
pub write_file-Writes :
    (bm : BlockManager) (i : ℕ) (buf : List ℕ) (t : Times)
    → IsValid bm
    → IsLive bm.d i
    → length buf ≤ block_size * ndirect
    → block_count (length buf) ≤ pointers bm.d i + free_count bm
    → Returns (write_file bm i buf (length buf) t) (Writes bm i buf)
unfolding write_file
write_file-Writes bm i buf t v live short room =
    let (r, run₁, (held, disk, kind)) =
      fit_blocks-Holds (pointers bm.d i) (block_count (length buf)) bm (inode_at bm.d i)
        (IsValid-Holds i v live) (ground arith) room in
    let (bm₂, run₂, (same, w)) =
      write_content-Written (block_count (length buf)) r.0 r.1 buf refl (Holds-Places held) in
    let reaches = Written-Reaches i buf t live.0 short held disk same w in
    (
      record bm₂ { d = put_at bm₂.d i (stamped r.1 (length buf) t) },
      rw (get_inode_at bm i v.ready live.0) (
          rw run₁ (
            rw run₂ (
              rw (
                put_inode-eq-put_at bm₂ i (stamped r.1 (length buf) t) reaches.holds.ready
                  live.0)))),
      Reaches-Writes r.0.d i buf t v live short kind reaches w,
    )

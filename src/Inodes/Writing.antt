-- ===== src/Inodes/Writing.antt =====
-- `write_content`, the second step of `write_file` in inode_manager.cc: every byte of the buffer
-- reaches its place in the blocks of the file, and no other block changes.
use naive_file_system.Prelude.{
  ℕ, zero, suc, ◌+◌, ◌-◌, ◌*◌, ◌≤◌, ◌<◌, ◌≡◌, ◌≢◌, refl, sym, ap, ◌∙◌, arith, ltb, ◌==◌, List,
  length, take, drop, replicate, get_or, length-take, get_or-append, get_or-take, get_or-drop,
  get_or-replicate, get_or_beyond, Bool-cases, inl, inr,
}
use naive_file_system.Outcome.{◌>>=◌, Returns}
use naive_file_system.Disk.{Disk, Block, block_size, block_num, write_block_self, write_block_other}
use naive_file_system.Blocks.{BlockManager, store_block}
use naive_file_system.Inodes.{Inode, ndirect}
use naive_file_system.Inodes.Manager.{write_nth_block, to_block, block_count}
use naive_file_system.Inodes.Files.{write_blocks, write_content, slice, resize}
use naive_file_system.Inodes.Holding.{get_nth_block_direct}
use naive_file_system.Inodes.Content.{HoldsBytes}

-- The pointers of `ino` before `end` are blocks of the disk, no two the same.
pub record Places (ino : Inode) (end : ℕ) : Type 0 where
  pub few : end ≤ ndirect
  pub legal : (n : ℕ) → n < end → ino.blocks n < block_num
  pub distinct : (n p : ℕ) → n < end → p < end → ino.blocks n ≡ ino.blocks p → n ≡ p

-- The pointers from `start` to before `end` have been written.
pub record Written (d : Disk) (ino : Inode) (buf : List ℕ) (start end : ℕ) (d' : Disk)
    : Type 0 where
  pub bytes : (n : ℕ) → start ≤ n → n < end → HoldsBytes d' ino buf n
  pub others :
      (b : ℕ) → ((n : ℕ) → start ≤ n → n < end → ino.blocks n ≢ b) → d'.blocks b ≡ d.blocks b

get_or-slice :
    (buf : List ℕ) (n m k : ℕ)
    → k < m
    → get_or (slice buf n m) k 0 ≡ get_or buf (block_size * n + k) 0
get_or-slice buf n m k lt =
    get_or-take 0 m k (drop (block_size * n) buf)
    ∙ ground (arith, get_or-drop 0 (block_size * n) k (block_size * n + k) buf refl)

get_or-resize : (n k : ℕ) (s : List ℕ) → k < n → get_or (resize n s) k 0 ≡ get_or s k 0
unfolding resize
get_or-resize n k s lt =
    get_or-append 0 (take n s) (replicate (n - length s) 0) k
    ∙ ground (
      arith,
      get_or-take 0 n k s,
      length-take n s,
      get_or-replicate {A = ℕ} 0 (n - length s) (k - length (take n s)),
      get_or_beyond 0 s k,
    )

-- One block.
write_nth_block-Written :
    (bm : BlockManager) (ino : Inode) (n stop end : ℕ) (buf s : List ℕ)
    → stop ≡ n + 1
    → Places ino end
    → n < end
    → ((k : ℕ) → k < block_size → get_or s k 0 ≡ get_or buf (block_size * n + k) 0)
    → Returns
        (write_nth_block bm ino n s)
        λ bm'. (bm' ≡ record bm { d = bm'.d }) × Written bm.d ino buf n stop bm'.d
unfolding write_nth_block store_block to_block
write_nth_block-Written bm ino n stop end buf s stops h lt same = (
  store_block bm (ino.blocks n) (to_block s),
  rw (get_nth_block_direct bm ino n (omega (arith, h.few))),
  (
    refl,
    record {
      bytes = λ p lo hi.
          let e : p ≡ n = omega arith in
          rw e (λ k l.
            write_block_self bm.d (ino.blocks n) k (to_block s) (h.legal n lt) l ∙ same k l);
      others = λ b far.
          write_block_other bm.d (ino.blocks n) b (to_block s)
            (λ e. far n (omega arith) (omega arith) (sym e));
    },
  ),
)

-- A run of writes after another.
Written-trans :
    (d d₁ d₂ : Disk) (ino : Inode) (buf : List ℕ) (start mid end top : ℕ)
    → Places ino top
    → end ≤ top
    → start ≤ mid
    → mid ≤ end
    → Written d ino buf start mid d₁
    → Written d₁ ino buf mid end d₂
    → Written d ino buf start end d₂
Written-trans d d₁ d₂ ino buf start mid end top h in_top lo hi w₁ w₂ = record {
  bytes = λ n a b. elim (Bool-cases (ltb n mid)) [
    | inl early ↦ λ k l.
        let apart : (p : ℕ) → mid ≤ p → p < end → ino.blocks p ≢ ino.blocks n =
          λ p c e same. absurd (ground (arith, h.distinct p n (omega arith) (omega arith) same)) in
        ap (λ (b : Block). b k) (w₂.others (ino.blocks n) apart) ∙ w₁.bytes n a (ground arith) k l
    | inr late ↦ w₂.bytes n (ground arith) b
  ];
  others = λ b far.
      w₂.others b (λ n c e. far n (omega arith) e) ∙ w₁.others b (λ n c e. far n c (omega arith));
}

write_blocks-Written :
    (rounds start end top : ℕ) (bm : BlockManager) (ino : Inode) (buf : List ℕ)
    → start + rounds ≡ end
    → end ≤ top
    → Places ino top
    → Returns
        (write_blocks rounds start bm ino buf)
        λ bm'. (bm' ≡ record bm { d = bm'.d }) × Written bm.d ino buf start end bm'.d
unfolding write_blocks
write_blocks-Written zero start end top bm ino buf e le h =
    (bm, refl, (refl, record { bytes = λ n a b. absurd (omega arith); others = λ b far. refl }))
write_blocks-Written (suc rounds) start end top bm ino buf e le h =
    let (bm₁, run₁, (same₁, w₁)) =
      write_nth_block-Written bm ino start (start + 1) top buf (slice buf start block_size) refl h
        (omega arith) (λ k l. get_or-slice buf start block_size k l) in
    let (bm₂, run₂, (same₂, w₂)) =
      write_blocks-Written rounds (start + 1) end top bm₁ ino buf (omega arith) le h in
    (
      bm₂,
      rw run₁ run₂,
      (
        same₂ ∙ ap (λ (b : BlockManager). record b { d = bm₂.d }) same₁,
        Written-trans bm.d bm₁.d bm₂.d ino buf start (start + 1) end top h le (omega arith)
            (omega arith) w₁ w₂,
      ),
    )

-- The last piece ends with the buffer, so that the zeros behind it are those of `get_or`.
get_or-slice_last :
    (buf : List ℕ) (last tail k : ℕ)
    → length buf ≤ block_size * last + tail
    → get_or (slice buf last tail) k 0 ≡ get_or buf (block_size * last + k) 0
get_or-slice_last buf last tail k short = elim (Bool-cases (ltb k tail)) [
  | inl here ↦ get_or-slice buf last tail k (ground arith)
  | inr behind ↦
      get_or-take 0 tail k (drop (block_size * last) buf)
      ∙ ground (arith, get_or_beyond 0 buf (block_size * last + k))
]

-- The second step when there is something to write.
write_pieces :
    (last after tail : ℕ) (bm : BlockManager) (ino : Inode) (buf : List ℕ)
    → after ≡ last + 1
    → length buf ≤ block_size * last + tail
    → Places ino after
    → Returns
        (write_blocks last 0 bm ino buf >>= λ bm'.
          write_nth_block bm' ino last (resize block_size (slice buf last tail)))
        λ bm'. (bm' ≡ record bm { d = bm'.d }) × Written bm.d ino buf 0 after bm'.d
write_pieces last after tail bm ino buf e short h =
    let (bm₁, run₁, (same₁, w₁)) =
      write_blocks-Written last 0 last after bm ino buf (omega arith) (omega arith) h in
    let (bm₂, run₂, (same₂, w₂)) =
      write_nth_block-Written bm₁ ino last after after buf (resize block_size (slice buf last tail))
        e h (omega arith)
        (λ k l.
          get_or-resize block_size k (slice buf last tail) l
          ∙ get_or-slice_last buf last tail k short) in
    (
      bm₂,
      rw run₁ run₂,
      (
        same₂ ∙ ap (λ (b : BlockManager). record b { d = bm₂.d }) same₁,
        Written-trans bm.d bm₁.d bm₂.d ino buf 0 last after after h (omega arith) (omega arith)
            (omega arith) w₁ w₂,
      ),
    )

-- All bytes of the buffer are written, and zeros up to the end of the last block.
pub write_content-Written :
    (after : ℕ) (bm : BlockManager) (ino : Inode) (buf : List ℕ)
    → after ≡ block_count (length buf)
    → Places ino after
    → Returns
        (write_content after bm ino buf (length buf))
        λ bm'. (bm' ≡ record bm { d = bm'.d }) × Written bm.d ino buf 0 after bm'.d
unfolding write_content
write_content-Written after bm ino buf e h = elim (Bool-cases (after == 0)) [
  | inl empty ↦ (
    bm,
    rw empty,
    (refl, record { bytes = λ n a b. absurd (ground arith); others = λ b far. refl }),
  )
  | inr filled ↦
      let (bm', run, w) =
        write_pieces (after - 1) after (block_size - (after * block_size - length buf)) bm ino buf
          (ground arith) (ground arith) h in
      (bm', rw filled run, w)
]

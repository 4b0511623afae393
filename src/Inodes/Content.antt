-- ===== src/Inodes/Content.antt =====
-- What the blocks of a file hold, and `read_blocks` and `write_blocks` of `read_file` and
-- `write_file` in inode_manager.cc.
use native.Mathlib.Numerals.{add-one}
use naive_file_system.Prelude.{
  ℕ, zero, suc, ◌+◌, ◌-◌, ◌*◌, ◌≤◌, ◌<◌, ◌≡◌, refl, ap, ◌∙◌, arith, ltb, List, [], ◌++◌, length,
  take, get_or, length-take, length-append, get_or-append, get_or-take, list_ext, Bool-cases, inl,
  inr,
}
use mathlib.Core.List.{append-nil, append_assoc}
use naive_file_system.Outcome.{ret}
use naive_file_system.Disk.{Disk, Block, block_size, block_num}
use naive_file_system.Blocks.{BlockManager}
use naive_file_system.Inodes.{Inode, ndirect}
use naive_file_system.Inodes.Manager.{read_nth_block, to_list, block_count}
use naive_file_system.Inodes.Files.{read_blocks}
use naive_file_system.Inodes.Table.{load_block_legal}
use naive_file_system.Inodes.Holding.{get_nth_block_direct}

-- The bytes of the blocks from pointer `nth` on, one after another.
unfoldable pub blocks_from : ℕ → ℕ → Disk → Inode → List ℕ
blocks_from zero nth d ino = []
blocks_from (suc n) nth d ino =
    to_list block_size (d.blocks (ino.blocks nth)) ++ blocks_from n (nth + 1) d ino

read_nth_block_direct :
    (bm : BlockManager) (ino : Inode) (n : ℕ)
    → n < ndirect
    → ino.blocks n < block_num
    → read_nth_block bm ino n ≡ ret (to_list block_size (bm.d.blocks (ino.blocks n)))
unfolding read_nth_block
read_nth_block_direct bm ino n few lt =
    rw (get_nth_block_direct bm ino n few) (rw (load_block_legal bm (ino.blocks n) lt))

-- The loop of `read_file` collects the blocks in order.
pub read_blocks-blocks_from :
    (rounds nth : ℕ) (bm : BlockManager) (ino : Inode) (rv : List ℕ)
    → nth + rounds ≤ ndirect
    → ((n : ℕ) → n < nth + rounds → ino.blocks n < block_num)
    → read_blocks rounds nth bm ino rv ≡ ret (rv ++ blocks_from rounds nth bm.d ino)
unfolding read_blocks blocks_from
read_blocks-blocks_from zero nth bm ino rv few legal = rw append-nil
read_blocks-blocks_from (suc rounds) nth bm ino rv few legal =
    rw (read_nth_block_direct bm ino nth (omega arith) (legal nth (omega arith))) (
      rw
        (read_blocks-blocks_from rounds (nth + 1) bm ino _ (omega arith)
          (λ n lt. legal n (omega arith)))
        (rw append_assoc))

get_or-to_list : (n k : ℕ) (b : Block) → k < n → get_or (to_list n b) k 0 ≡ b k
unfolding to_list get_or
get_or-to_list zero k b h = absurd (omega arith)
get_or-to_list (suc n) zero b h = refl
get_or-to_list (suc n) (suc k) b h =
    get_or-to_list n k (λ i. b (i + 1)) (omega arith) ∙ ap b (add-one k)

length-to_list : (n : ℕ) (b : Block) → length (to_list n b) ≡ n
unfolding to_list
length-to_list zero b = refl
length-to_list (suc n) b = ap suc (length-to_list n (λ k. b (k + 1)))

pub length-blocks_from :
    (n nth : ℕ) (d : Disk) (ino : Inode) → length (blocks_from n nth d ino) ≡ block_size * n
unfolding blocks_from
length-blocks_from zero nth d ino = refl
length-blocks_from (suc n) nth d ino = omega (
  arith,
  length-append (to_list block_size (d.blocks (ino.blocks nth))) (blocks_from n (nth + 1) d ino),
  length-to_list block_size (d.blocks (ino.blocks nth)),
  length-blocks_from n (nth + 1) d ino,
)

-- The block of pointer `n` holds the bytes of `buf` at its place, and zeros behind the end.
abbrev pub HoldsBytes : Disk → Inode → List ℕ → ℕ → Type 0
HoldsBytes d ino buf n =
    (k : ℕ) → k < block_size → d.blocks (ino.blocks n) k ≡ get_or buf (block_size * n + k) 0

get_or-blocks_from :
    (n nth i : ℕ) (d : Disk) (ino : Inode) (buf : List ℕ)
    → ((p : ℕ) → p < nth + n → HoldsBytes d ino buf p)
    → i < block_size * n
    → get_or (blocks_from n nth d ino) i 0 ≡ get_or buf (block_size * nth + i) 0
unfolding blocks_from
get_or-blocks_from zero nth i d ino buf h lt = absurd (omega arith)
get_or-blocks_from (suc n) nth i d ino buf h lt =
    let first = to_list block_size (d.blocks (ino.blocks nth)) in
    let len : length first ≡ block_size = length-to_list block_size (d.blocks (ino.blocks nth)) in
    get_or-append 0 first (blocks_from n (nth + 1) d ino) i
    ∙ (elim (Bool-cases (ltb i block_size)) [
      | inl here ↦ ground (
        arith,
        get_or-to_list block_size i (d.blocks (ino.blocks nth)) (ground arith),
        h nth (omega arith) i (ground arith),
      )
      | inr later ↦
          let rest =
            get_or-blocks_from n (nth + 1) (i - block_size) d ino buf (λ p l. h p (omega arith))
              (ground arith) in
          let place : block_size * (nth + 1) + (i - block_size) ≡ block_size * nth + i =
            ground arith in
          ground arith
    ])

-- The bytes of a file, as far as its size says.
unfoldable pub content : Disk → Inode → List ℕ
unfolding blocks_from
content d ino = take ino.size (blocks_from (block_count ino.size) 0 d ino)

pub content-eq :
    (d : Disk) (ino : Inode) (buf : List ℕ)
    → ino.size ≡ length buf
    → ((n : ℕ) → n < block_count ino.size → HoldsBytes d ino buf n)
    → content d ino ≡ buf
unfolding content
content-eq d ino buf e h =
    let whole = blocks_from (block_count ino.size) 0 d ino in
    let len : length whole ≡ block_size * block_count ino.size =
      length-blocks_from (block_count ino.size) 0 d ino in
    let enough : ino.size ≤ block_size * block_count ino.size = ground arith in
    let short : length (take ino.size whole) ≡ ino.size =
      omega (arith, length-take ino.size whole) in
    list_ext 0 (take ino.size whole) buf (short ∙ e) (λ k lt.
      let byte =
        get_or-blocks_from (block_count ino.size) 0 k d ino buf (λ p l. h p (omega arith))
          (omega arith) in
      get_or-take 0 ino.size k whole ∙ ground arith)

-- Where the blocks of a file hold the same, its content is the same.
blocks_from_congr :
    (n nth : ℕ) (d d' : Disk) (ino ino' : Inode)
    → ((p : ℕ) → p < nth + n → d'.blocks (ino'.blocks p) ≡ d.blocks (ino.blocks p))
    → blocks_from n nth d' ino' ≡ blocks_from n nth d ino
unfolding blocks_from
blocks_from_congr zero nth d d' ino ino' h = refl
blocks_from_congr (suc n) nth d d' ino ino' h =
    rw (h nth (omega arith))
      (rw (blocks_from_congr n (nth + 1) d d' ino ino' (λ p l. h p (omega arith))))

pub content_congr :
    (d d' : Disk) (ino ino' : Inode)
    → ino'.size ≡ ino.size
    → ((n : ℕ) → n < block_count ino.size → d'.blocks (ino'.blocks n) ≡ d.blocks (ino.blocks n))
    → content d' ino' ≡ content d ino
unfolding content
content_congr d d' ino ino' size h =
    ap (λ s. take s (blocks_from (block_count s) 0 d' ino')) size
    ∙ ap (take ino.size)
        (blocks_from_congr (block_count ino.size) 0 d d' ino ino' (λ p l. h p (omega arith)))

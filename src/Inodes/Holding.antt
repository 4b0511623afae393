-- ===== src/Inodes/Holding.antt =====
-- The blocks that one file holds while `write_file` or `remove_file` of inode_manager.cc runs,
-- apart from the blocks of the other files.
use naive_file_system.Prelude.{
  ℕ, zero, suc, ◌+◌, ◌≤◌, ◌<◌, ◌≡◌, ◌≢◌, refl, ◌∙◌, arith, Bool-cases, inl, inr, ==_eq, ◌==◌, false,
  [], subst,
}
use naive_file_system.Outcome.{ret, Returns}
use naive_file_system.Blocks.{BlockManager, set_using, free_block}
use naive_file_system.Blocks.Alloc.{data_start, IsData, taken, IsReady, taken-IsReady}
use naive_file_system.Blocks.Free.{free_count, alloc_block-returns}
use naive_file_system.Inodes.{Inode, ndirect}
use naive_file_system.Inodes.Codec.{Fits}
use naive_file_system.Inodes.Manager.{
  get_nth_block, free_nth_block, alloc_nth_block, set_nth_block, set_pointer,
}
use naive_file_system.Inodes.Files.{free_blocks, alloc_blocks}

-- The first `k` pointers of `ino` are its own data blocks, marked as used; `O` are the blocks of
-- the other files.
pub record Holds (O : ℕ → Type 0) (bm : BlockManager) (ino : Inode) (k : ℕ) : Type 0 where
  pub ready : IsReady bm
  pub few : k ≤ ndirect
  pub in_data : (n : ℕ) → n < k → IsData (ino.blocks n)
  pub marked : (n : ℕ) → n < k → bm.using_blocks (ino.blocks n) ≡ 1
  pub distinct : (n p : ℕ) → n < k → p < k → ino.blocks n ≡ ino.blocks p → n ≡ p
  pub apart : (n : ℕ) → n < k → ¬ O (ino.blocks n)
  pub others : (b : ℕ) → O b → bm.using_blocks b ≡ 1
  pub fits : Fits ino

pub get_nth_block_direct :
    (bm : BlockManager) (ino : Inode) (n : ℕ)
    → n < ndirect
    → get_nth_block bm ino n ≡ ret (ino.blocks n)
unfolding get_nth_block
get_nth_block_direct bm ino n h = ground arith

-- What freeing the pointers of `ino` from `start` to before `end` does: it unmarks exactly these.
pub record Freed (bm : BlockManager) (ino : Inode) (start end : ℕ) (bm' : BlockManager)
    : Type 0 where
  pub disk : bm'.d ≡ bm.d
  pub freed : (n : ℕ) → start ≤ n → n < end → bm'.using_blocks (ino.blocks n) ≡ 0
  pub kept :
      (b : ℕ)
      → ((n : ℕ) → start ≤ n → n < end → ino.blocks n ≢ b)
      → bm'.using_blocks b ≡ bm.using_blocks b

Freed-step :
    (bm : BlockManager) (ino : Inode) (start end : ℕ) (bm' : BlockManager)
    → start < end
    → ((n : ℕ) → start < n → n < end → ino.blocks n ≢ ino.blocks start)
    → Freed (free_block bm (ino.blocks start)) ino (start + 1) end bm'
    → Freed bm ino start end bm'
unfolding free_block set_using
Freed-step bm ino start end bm' lt ne f = record {
  disk = f.disk;
  freed = λ n lo hi. elim (Bool-cases (n == start)) [
    | inl e ↦
        let e' : n ≡ start = ==_eq n start e in
        rw e' (f.kept (ino.blocks start) (λ p a b. ne p (omega arith) b) ∙ ground arith)
    | inr e ↦ f.freed n (ground arith) hi
  ];
  kept = λ b far. f.kept b (λ n lo hi. far n (omega arith) hi) ∙ ground (arith, far start);
}

module _ {O : ℕ → Type 0} where
  pub Holds-le :
      {bm : BlockManager} {ino : Inode} {k : ℕ} (j : ℕ)
      → j ≤ k
      → Holds O bm ino k
      → Holds O bm ino j
  Holds-le j le h = record {
    ready = h.ready;
    few = omega arith;
    in_data = λ n lt. h.in_data n (omega arith);
    marked = λ n lt. h.marked n (omega arith);
    distinct = λ n p a b e. h.distinct n p (omega arith) (omega arith) e;
    apart = λ n lt. h.apart n (omega arith);
    others = h.others;
    fits = h.fits;
  }

  -- A pointer behind the first `k`, which is none of them and belongs to no other file, is freed.
  Holds-free_block :
      (bm : BlockManager) (ino : Inode) (k b : ℕ)
      → Holds O bm ino k
      → ((n : ℕ) → n < k → ino.blocks n ≢ b)
      → ¬ O b
      → Holds O (free_block bm b) ino k
  unfolding free_block set_using
  Holds-free_block bm ino k b h ne no_other = record {
    ready = record { formatted = h.ready.formatted; cursor = h.ready.cursor };
    few = h.few;
    in_data = h.in_data;
    marked = λ n lt. ground (arith, h.marked n lt, ne n lt);
    distinct = h.distinct;
    apart = h.apart;
    others = λ c o. ground (arith, h.others c o, λ (e : c ≡ b). no_other (subst O e o));
    fits = h.fits;
  }

  pub free_blocks-Holds :
      (rounds start end k : ℕ) (bm : BlockManager) (ino : Inode)
      → start + rounds ≡ end
      → k ≤ start
      → end ≤ ndirect
      → ((n p : ℕ) → n < end → p < end → ino.blocks n ≡ ino.blocks p → n ≡ p)
      → ((n : ℕ) → n < end → ¬ O (ino.blocks n))
      → Holds O bm ino k
      → Returns
          (free_blocks rounds start bm ino)
          λ bm'. Holds O bm' ino k × Freed bm ino start end bm'
  unfolding free_blocks
  free_blocks-Holds zero start end k bm ino e le few distinct apart h = (
    bm,
    refl,
    (h, record { disk = refl; freed = λ n a b. absurd (omega arith); kept = λ b ne. refl }),
  )
  free_blocks-Holds (suc rounds) start end k bm ino e le few distinct apart h =
      let b = ino.blocks start in
      let step : free_nth_block bm ino start ≡ ret (free_block bm b) =
        unfold free_nth_block in rw (get_nth_block_direct bm ino start (omega arith)) in
      let h₁ =
        Holds-free_block bm ino k b h
          (λ n lt same. absurd (omega (arith, distinct n start (omega arith) (omega arith) same)))
          (apart start (omega arith)) in
      let (bm', run, (h₂, f)) =
        free_blocks-Holds rounds (start + 1) end k (free_block bm b) ino (omega arith) (omega arith)
          few distinct apart h₁ in
      (
        bm',
        rw step run,
        (
          h₂,
          Freed-step bm ino start end bm' (omega arith)
              (λ n lo hi same. absurd (omega (arith, distinct n start hi (omega arith) same))) f,
        ),
      )

  -- A new block becomes pointer `k`.
  pub Holds-taken :
      (bm : BlockManager) (ino : Inode) (k b : ℕ)
      → Holds O bm ino k
      → k < ndirect
      → IsData b
      → bm.using_blocks b ≡ 0
      → Holds O (taken data_start b bm) (set_pointer ino k b) (k + 1)
  unfolding set_using
  Holds-taken bm ino k b h lt range free = record {
    ready = taken-IsReady bm b h.ready range;
    few = omega arith;
    in_data = λ n l. ground (arith, h.in_data n);
    marked = λ n l. ground (arith, h.marked n);
    distinct = λ n p l m e. ground (arith, h.distinct n p, h.marked n, h.marked p);
    apart = λ n l o. ground (arith, h.apart n, h.others b);
    others = λ c o. ground (arith, h.others c o);
    fits = record {
      type = h.fits.type;
      size = h.fits.size;
      atime = h.fits.atime;
      mtime = h.fits.mtime;
      ctime = h.fits.ctime;
      blocks = λ i. ground (arith, h.fits.blocks i);
      bound = λ i l. ground (arith, h.fits.bound i l);
    };
  }

  -- With as many free data blocks as rounds `alloc_blocks` returns, with one new pointer a round.
  pub alloc_blocks-Holds :
      (rounds k end : ℕ) (bm : BlockManager) (ino : Inode)
      → k + rounds ≡ end
      → end ≤ ndirect
      → rounds ≤ free_count bm
      → Holds O bm ino k
      → Returns
          (alloc_blocks rounds k bm ino)
          λ r. Holds O r.0 r.1 end × (r.0.d ≡ bm.d) × (r.1.type ≡ ino.type)
  unfolding alloc_blocks
  alloc_blocks-Holds zero k end bm ino e few room h =
      let e' : k ≡ end = omega arith in ((bm, ino), refl, (subst (Holds O bm ino) e' h, refl, refl))
  alloc_blocks-Holds (suc rounds) k end bm ino e few room h =
      let (b, range, free, run, count) = alloc_block-returns bm h.ready (omega arith) in
      let step : alloc_nth_block bm ino k [] false
          ≡ ret (taken data_start b bm, set_pointer ino k b) =
        unfold alloc_nth_block set_nth_block in rw run (ground arith) in
      let (r, runs, (h', disk, type)) =
        alloc_blocks-Holds rounds (k + 1) end (taken data_start b bm) (set_pointer ino k b)
          (omega arith) few (omega arith) (Holds-taken bm ino k b h (omega arith) range free) in
      (r, rw step runs, (h', disk, type))

-- ===== src/YfsClient/Reading.antt =====
-- The loop `while (i < size)` of `find`, `readdir` and `unlink` in yfs_client.cc, as a relation, and
-- the characters of `encode`.
use naive_file_system.Prelude.{
  ℕ, zero, suc, ◌+◌, ◌≤◌, ◌≡◌, refl, arith, true, false, List, [], ◌∷◌, length, ltb, Bool-cases,
  inl, inr, subst, sym, some, if_true, if_false,
}
use naive_file_system.YfsClient.Text.{Stream, extract, scan, entries, high, low, encode}
use naive_file_system.YfsClient.Codec.{IsBytes}

-- A run of the loop that comes to its end, from an index, two words and a stream, with the pairs it
-- reads.
pub data Runs (size : ℕ) : ℕ → List ℕ → List ℕ → Stream → List (List ℕ × List ℕ) → Type 0 where
  ends : {i : ℕ} {f n : List ℕ} {ss : Stream} → ltb i size ≡ false → Runs size i f n ss []
  turns :
      {i : ℕ} {f n g m : List ℕ} {ss ss' ss'' : Stream} {es : List (List ℕ × List ℕ)}
      → ltb i size ≡ true
      → extract f ss ≡ (g, ss')
      → extract n ss' ≡ (m, ss'')
      → Runs size (i + length g + length m + 2) g m ss'' es
      → Runs size i f n ss ((g, m) ∷ es)

scan-Runs :
    (fuel i size : ℕ) (f n : List ℕ) (ss : Stream)
    → size ≤ i + fuel
    → Runs size i f n ss (scan fuel i size f n ss)
unfolding scan
scan-Runs zero i size f n ss h = ends (ground arith)
scan-Runs (suc fuel) i size f n ss h = elim (Bool-cases (ltb i size)) [
  | inl t ↦ subst (Runs size i f n ss) (sym (if_true [] t)) (
      turns t refl refl (
        scan-Runs fuel (i + length (extract f ss).0 + length (extract n (extract f ss).1).0 + 2)
          size (extract f ss).0 (extract n (extract f ss).1).0 (extract n (extract f ss).1).1
          (omega arith)))
  | inr e ↦ subst (Runs size i f n ss) (sym (if_false _ e)) (ends e)
]

-- For every string of bytes, well formed or not, the loop over a directory's bytes comes to its
-- end, and has then read the pairs that `entries` gives.
pub entries-Runs : (buf : List ℕ) → Runs (length buf) 0 [] [] (some buf) (entries buf)
unfolding entries
entries-Runs buf = scan-Runs (length buf) 0 (length buf) [] [] (some buf) (omega arith)

-- Between two numbers, with these included.
abbrev pub AllWithin : ℕ → ℕ → List ℕ → Type 0
AllWithin a b [] = Unit
AllWithin a b (c ∷ s) = (a ≤ c) × (c ≤ b) × AllWithin a b s

-- For every string of bytes, each character of `encode` lies between 82 and 112, so that none of them
-- is white space or 0.
pub encode-AllWithin : (s : List ℕ) → IsBytes s → AllWithin 82 112 (encode s)
unfolding encode
encode-AllWithin [] h = tt
encode-AllWithin (c ∷ s) h = (
  unfold high in ground (arith, h.0),
  unfold high in ground (arith, h.0),
  (unfold low in ground (arith, h.0), unfold low in ground (arith, h.0), encode-AllWithin s h.1),
)

-- ===== src/YfsClient/Words.antt =====
-- The loop of yfs_client.cc over a directory's bytes reads its pairs of words back.
use naive_file_system.Prelude.{
  ℕ, zero, suc, ◌+◌, ◌≤◌, ◌≡◌, ◌≢◌, refl, ap, ◌∙◌, arith, false, List, [], ◌∷◌, ◌++◌, length,
  length-append, if_true, if_false, some, lt→ltb, le→ltb,
}
use naive_file_system.YfsClient.Text.{
  is_space, skip_space, word, after_word, extract, extract_text, scan, entries,
}

abbrev pub NoSpace : List ℕ → Type 0
NoSpace [] = Unit
NoSpace (c ∷ s) = (is_space c ≡ false) × NoSpace s

abbrev pub IsWord : List ℕ → Type 0
IsWord w = NoSpace w × (w ≢ [])

-- A directory's bytes: each word is followed by a space.
abbrev pub text : List (List ℕ × List ℕ) → List ℕ
text [] = []
text (e ∷ es) = e.0 ++ 32 ∷ (e.1 ++ 32 ∷ text es)

abbrev pub AllWords : List (List ℕ × List ℕ) → Type 0
AllWords [] = Unit
AllWords (e ∷ es) = IsWord e.0 × IsWord e.1 × AllWords es

word-append : (w r : List ℕ) → NoSpace w → word (w ++ 32 ∷ r) ≡ w
unfolding word
word-append [] r h = refl
word-append (c ∷ w) r h = if_false [] h.0 ∙ ap (λ x. c ∷ x) (word-append w r h.1)

after_word-append : (w r : List ℕ) → NoSpace w → after_word (w ++ 32 ∷ r) ≡ 32 ∷ r
unfolding after_word
after_word-append [] r h = refl
after_word-append (c ∷ w) r h = if_false _ h.0 ∙ after_word-append w r h.1

skip_space-word : (w r : List ℕ) → IsWord w → skip_space (w ++ r) ≡ w ++ r
unfolding skip_space
skip_space-word [] r h = absurd (h.1 refl)
skip_space-word (c ∷ w) r h = if_false _ h.0.0

extract-word :
    (old s w r : List ℕ)
    → IsWord w
    → skip_space s ≡ w ++ 32 ∷ r
    → extract old (some s) ≡ (w, some (32 ∷ r))
unfolding extract
extract-word old s [] r h e = absurd (h.1 refl)
extract-word old s (c ∷ w) r h e =
    ap (extract_text old) e
    ∙ (λ i. (word-append (c ∷ w) r h.0 i, some (after_word-append (c ∷ w) r h.0 i)))

skip_space-text : (es : List (List ℕ × List ℕ)) → AllWords es → skip_space (32 ∷ text es) ≡ text es
unfolding skip_space
skip_space-text [] h = refl
skip_space-text (e ∷ es) h = skip_space-word e.0 (32 ∷ (e.1 ++ 32 ∷ text es)) h.0

skip_space-cons : (s : List ℕ) → skip_space (32 ∷ s) ≡ skip_space s
unfolding skip_space
skip_space-cons s = refl

length-text :
    (e : List ℕ × List ℕ) (es : List (List ℕ × List ℕ))
    → length (text (e ∷ es)) ≡ length e.0 + length e.1 + 2 + length (text es)
length-text e es =
    omega (arith, length-append e.0 (32 ∷ (e.1 ++ 32 ∷ text es)), length-append e.1 (32 ∷ text es))

scan-text :
    (fuel i size : ℕ) (f n s : List ℕ) (es : List (List ℕ × List ℕ))
    → AllWords es
    → skip_space s ≡ text es
    → i + length (text es) ≡ size
    → length (text es) ≤ fuel
    → scan fuel i size f n (some s) ≡ es
unfolding scan
scan-text zero i size f n s [] h e l m = refl
scan-text zero i size f n s (p ∷ es) h e l m = absurd (omega (arith, length-text p es))
scan-text (suc fuel) i size f n s [] h e l m = if_false _ (le→ltb i size (omega arith))
scan-text (suc fuel) i size f n s (p ∷ es) h e l m =
    if_true [] (lt→ltb i size (omega (arith, length-text p es)))
    ∙ rw (extract-word f s p.0 (p.1 ++ 32 ∷ text es) h.0 e) (
        rw
          (extract-word n (32 ∷ (p.1 ++ 32 ∷ text es)) p.1 (text es) h.1
            (skip_space-cons (p.1 ++ 32 ∷ text es) ∙ skip_space-word p.1 (32 ∷ text es) h.1))
          (ap (λ x. p ∷ x)
            (scan-text fuel (i + length p.0 + length p.1 + 2) size p.0 p.1 (32 ∷ text es) es h.2
              (skip_space-text es h.2) (omega (arith, length-text p es))
              (omega (arith, length-text p es)))))

-- The loop reads just the pairs of words that make up a directory's bytes.
pub entries-text : (es : List (List ℕ × List ℕ)) → AllWords es → entries (text es) ≡ es
unfolding entries
entries-text es h =
    scan-text (length (text es)) 0 (length (text es)) [] [] (text es) es h (starts es h)
      (omega arith) (omega arith)
  where
    starts : (es : List (List ℕ × List ℕ)) → AllWords es → skip_space (text es) ≡ text es
    starts [] h = unfold skip_space in refl
    starts (e ∷ es) h = skip_space-word e.0 (32 ∷ (e.1 ++ 32 ∷ text es)) h.0

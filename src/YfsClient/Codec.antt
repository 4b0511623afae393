-- ===== src/YfsClient/Codec.antt =====
-- The encodings of yfs_client.cc are undone by their readers: names and inode numbers.
use naive_file_system.Prelude.{
  ℕ, zero, suc, ◌+◌, ◌-◌, ◌/◌, ◌%◌, ◌^◌, ◌≤◌, ◌<◌, ◌≡◌, ◌≢◌, refl, ap, ◌∙◌, arith, List, [], ◌∷◌,
  if_true,
}
use naive_file_system.YfsClient.Text.{
  high, low, encode, joined, uncode, digits, filename, number, skip_space, saturated, signed, n2i,
}

abbrev pub IsBytes : List ℕ → Type 0
IsBytes [] = Unit
IsBytes (c ∷ s) = (c < 256) × IsBytes s

joined-high : (c : ℕ) → c < 256 → joined (high c) (low c) ≡ c
unfolding joined high low
joined-high c h = ground arith

-- `uncode` undoes `encode` on every string of bytes.
pub uncode-encode : (s : List ℕ) → IsBytes s → uncode (encode s) ≡ s
unfolding uncode encode
uncode-encode [] h = refl
uncode-encode (c ∷ s) h =
    let head : joined (high c) (low c) ≡ c = joined-high c h.0 in
    let rest : uncode (encode s) ≡ s = uncode-encode s h.1 in λ i. head i ∷ rest i

-- Digits alone stand in a text.
abbrev pub IsDigits : List ℕ → Type 0
IsDigits [] = Unit
IsDigits (c ∷ s) = (48 ≤ c) × (c ≤ 57) × IsDigits s

number-digits :
    (fuel n : ℕ) (rest : List ℕ) → n < fuel → number 0 (digits fuel n rest) ≡ number n rest
unfolding digits number
number-digits zero n rest h = absurd (omega arith)
number-digits (suc fuel) n rest h =
    ground (arith, number-digits fuel (n / 10) ((48 + n % 10) ∷ rest))

pub digits-IsDigits : (fuel n : ℕ) (rest : List ℕ) → IsDigits rest → IsDigits (digits fuel n rest)
unfolding digits
digits-IsDigits zero n rest h = h
digits-IsDigits (suc fuel) n rest h =
    ground (arith, digits-IsDigits fuel (n / 10) ((48 + n % 10) ∷ rest))

digits_ne : (fuel n : ℕ) (rest : List ℕ) → rest ≢ [] → digits fuel n rest ≢ []
unfolding digits
digits_ne zero n rest h = h
digits_ne (suc fuel) n rest h = ground (arith, digits_ne fuel (n / 10) ((48 + n % 10) ∷ rest))

pub filename_ne : (n : ℕ) → filename n ≢ []
unfolding filename digits
filename_ne n = ground (arith, digits_ne n (n / 10) ((48 + n % 10) ∷ []))

number-filename : (n : ℕ) → number 0 (filename n) ≡ n
unfolding filename number
number-filename n = number-digits (suc n) n [] (omega arith)

n2i-digits : (s : List ℕ) → IsDigits s → s ≢ [] → n2i s ≡ saturated (number 0 s)
unfolding n2i signed skip_space
n2i-digits [] h ne = absurd (ne refl)
n2i-digits (c ∷ s) h ne = ground arith

-- `n2i` reads back the number that `filename` printed, for every `unsigned long long`.
pub n2i-filename : (n : ℕ) → n < 2 ^ 64 → n2i (filename n) ≡ n
n2i-filename n h =
    n2i-digits (filename n) (unfold filename in digits-IsDigits (suc n) n [] tt) (filename_ne n)
    ∙ ap saturated (number-filename n)
    ∙ if_true (2 ^ 64 - 1) (ground arith)

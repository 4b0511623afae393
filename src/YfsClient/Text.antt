-- ===== src/YfsClient/Text.antt =====
-- The texts of a directory: `encode`, `uncode`, `filename` and `n2i` of yfs_client.cc, and the
-- reading of a directory's entries from a `std::stringstream`. A `char` is a byte from 0 to 255;
-- it is signed, so that from 128 on it stands for the byte less 256.
use naive_file_system.Prelude.{
  ℕ, zero, suc, ◌+◌, ◌-◌, ◌*◌, ◌/◌, ◌%◌, ◌^◌, Bool, ◌||◌, ◌&&◌, Option, none, some, List, [], ◌∷◌,
  length, ltb, leb, ◌==◌, if◌then◌else◌,
}

-- The two characters of `encode`: `'a'+code[i]/16` and `'a'+code[i]%16`, which round to 0.
unfoldable pub high : ℕ → ℕ
high c = if ltb c 128 then 97 + c / 16 else 97 - (256 - c) / 16

unfoldable pub low : ℕ → ℕ
low c = if ltb c 128 then 97 + c % 16 else 97 - (256 - c) % 16

unfoldable pub encode : List ℕ → List ℕ
encode [] = []
encode (c ∷ code) = high c ∷ low c ∷ encode code

-- `(code[i]-'a')*16+code[i+1]-'a'` as a `char`.
unfoldable pub joined : ℕ → ℕ → ℕ
joined a b = ((a + 256 - 97) * 16 + (b + 256 - 97)) % 256

-- The character after the last one is 0.
unfoldable pub uncode : List ℕ → List ℕ
uncode [] = []
uncode (a ∷ []) = joined a 0 ∷ []
uncode (a ∷ b ∷ code) = joined a b ∷ uncode code

-- `ost << inum` prints in decimal; the fuel `n` itself is enough.
unfoldable pub digits : ℕ → ℕ → List ℕ → List ℕ
digits zero n rest = rest
digits (suc fuel) n rest =
    let more = digits fuel (n / 10) ((48 + n % 10) ∷ rest) in
    if ltb n 10 then (48 + n) ∷ rest else more

unfoldable pub filename : ℕ → List ℕ
filename n = digits (suc n) n []

abbrev pub is_digit : ℕ → Bool
is_digit c = leb 48 c && leb c 57

-- `ist >> finum`: the digits at the front, as a number.
unfoldable pub number : ℕ → List ℕ → ℕ
number n [] = n
number n (c ∷ s) = if is_digit c then number (10 * n + (c - 48)) s else n

-- White space of the C locale.
abbrev pub is_space : ℕ → Bool
is_space c = c == 32 || (leb 9 c && leb c 13)

unfoldable pub skip_space : List ℕ → List ℕ
skip_space [] = []
skip_space (c ∷ s) = if is_space c then skip_space s else c ∷ s

-- What a number that is read becomes in an `unsigned long long`: too large a number is the
-- greatest one.
abbrev pub saturated : ℕ → ℕ
saturated n = if ltb n (2 ^ 64) then n else 2 ^ 64 - 1

abbrev pub negated : ℕ → ℕ
negated n = if ltb n (2 ^ 64) then (2 ^ 64 - n) % 2 ^ 64 else 2 ^ 64 - 1

-- A sign may stand before the digits, of an unsigned number too.
unfoldable pub signed : List ℕ → ℕ
signed [] = 0
signed (c ∷ s) =
    if c == 45
    then negated (number 0 s)
    else if c == 43
    then saturated (number 0 s)
    else saturated (number 0 (c ∷ s))

-- For a text without a character but spaces, where the code leaves the number unset, this is 0;
-- only a malformed directory has such a text.
unfoldable pub n2i : List ℕ → ℕ
n2i s = signed (skip_space s)

-- The word at the front of the text, and the text after it.
unfoldable pub word : List ℕ → List ℕ
word [] = []
word (c ∷ s) = if is_space c then [] else c ∷ word s

unfoldable pub after_word : List ℕ → List ℕ
after_word [] = []
after_word (c ∷ s) = if is_space c then c ∷ s else after_word s

-- `ss >> string`. A stream that failed is `none`; it leaves the string as it was.
abbrev pub Stream : Type 0
Stream = Option (List ℕ)

abbrev pub extract_text : List ℕ → List ℕ → List ℕ × Stream
extract_text old [] = (old, none)
extract_text old (c ∷ s) = (word (c ∷ s), some (after_word (c ∷ s)))

unfoldable pub extract : List ℕ → Stream → List ℕ × Stream
unfolding skip_space word after_word
extract old none = (old, none)
extract old (some s) = extract_text old (skip_space s)

-- The loop over a directory's bytes in `find`, `readdir` and `unlink`: the pairs of words that it
-- reads, while the index is below `size`. The index grows by 2 at least, so that `size` is enough
-- fuel.
unfoldable pub scan : ℕ → ℕ → ℕ → List ℕ → List ℕ → Stream → List (List ℕ × List ℕ)
unfolding extract
scan zero i size f n ss = []
scan (suc fuel) i size f n ss =
    let g = extract f ss in
    let m = extract n g.1 in
    let more = scan fuel (i + length g.0 + length m.0 + 2) size g.0 m.0 m.1 in
    if ltb i size then (g.0, m.0) ∷ more else []

unfoldable pub entries : List ℕ → List (List ℕ × List ℕ)
unfolding scan
entries buf = scan (length buf) 0 (length buf) [] [] (some buf)

-- ===== src/YfsClient/Bytes.antt =====
-- The parts of a file's bytes that `read` of yfs_client.cc delivers and `write` replaces.
use naive_file_system.Prelude.{
  ℕ, zero, suc, ◌+◌, ◌-◌, ◌%◌, ◌^◌, ◌≤◌, ◌<◌, ◌≡◌, refl, sym, ap, ◌∙◌, arith, Bool, true, false,
  none, some, List, [], ◌∷◌, ◌++◌, length, take, drop, replicate, get_or, length-append,
  length-take, length-drop, length-replicate, get_or-append, get_or-take, get_or-drop,
  get_or-replicate, get_or_beyond, ltb, leb, if◌then◌else◌, if_true, if_false, Bool-cases, inl, inr,
}
use naive_file_system.YfsClient.Values.{replace, resize, read_of, written}

pub take_all : (n : ℕ) (xs : List ℕ) → length xs ≤ n → take n xs ≡ xs
unfolding take
take_all zero [] h = refl
take_all zero (x ∷ xs) h = absurd (omega arith)
take_all (suc n) [] h = refl
take_all (suc n) (x ∷ xs) h = ap (λ y. x ∷ y) (take_all n xs (omega arith))

pub drop_all : (n : ℕ) (xs : List ℕ) → length xs ≤ n → drop n xs ≡ []
unfolding drop
drop_all zero [] h = refl
drop_all zero (x ∷ xs) h = absurd (omega arith)
drop_all (suc n) [] h = refl
drop_all (suc n) (x ∷ xs) h = drop_all n xs (omega arith)

leb-true : (a b : ℕ) → leb a b ≡ true → a ≤ b
leb-true a b h = ground arith

leb-false : (a b : ℕ) → leb a b ≡ false → b < a
leb-false a b h = ground arith

-- Whatever the offset and the size, and though their sum wraps around, the read is of the slice.
pub read_of-slice : (size off : ℕ) (b : List ℕ) → read_of size off b ≡ take size (drop off b)
unfolding read_of
read_of-slice size off b = elim (Bool-cases (leb off (length b))) [
  | inl inside ↦ elim (Bool-cases (leb ((off + size) % 2 ^ 64) (length b))) [
    | inl fits ↦ if_true [] inside ∙ if_true _ fits
    | inr over ↦
        let long : length b < off + size =
          omega (arith, leb-false ((off + size) % 2 ^ 64) (length b) over) in
        if_true [] inside
        ∙ if_false _ over
        ∙ take_all (length b - off) (drop off b) (omega (arith, length-drop off b))
        ∙ sym (take_all size (drop off b) (omega (arith, length-drop off b)))
  ]
  | inr outside ↦
      if_false _ outside
      ∙ sym (take_all size [] (omega arith))
      ∙ ap (take size) (sym (drop_all off b (omega (arith, leb-false off (length b) outside))))
]

-- The bytes after a `write`.
pub record Overwrites (size off : ℕ) (bytes old new : List ℕ) : Type 0 where
  pub inside : (k : ℕ) → k < size → get_or new (off + k) 0 ≡ get_or bytes k 0
  pub before : (k : ℕ) → k < off → get_or new k 0 ≡ get_or old k 0
  pub beyond : (k : ℕ) → off + size ≤ k → get_or new k 0 ≡ get_or old k 0
  pub grown : length old ≤ off + size → length new ≡ off + size
  pub kept : off + size ≤ length old → length new ≡ length old

-- The length of a file after a `write`.
abbrev pub longer_of : ℕ → ℕ → ℕ
longer_of a b = if ltb a b then b else a

pub length-written :
    (size off : ℕ) (bytes old new : List ℕ)
    → Overwrites size off bytes old new
    → length new ≡ longer_of (length old) (off + size)
length-written size off bytes old new w = elim (Bool-cases (ltb (length old) (off + size))) [
  | inl more ↦ ground (arith, w.grown)
  | inr less ↦ ground (arith, w.kept)
]

length-replace :
    (b : List ℕ) (off size : ℕ) (bytes : List ℕ)
    → length bytes ≡ size
    → off + size ≤ length b
    → length (replace b off size bytes) ≡ length b
length-replace b off size bytes e h = omega (
  arith,
  length-append (take off b) (bytes ++ drop (off + size) b),
  length-append bytes (drop (off + size) b),
  length-take off b,
  length-drop (off + size) b,
)

get_or-replace :
    (b : List ℕ) (off size : ℕ) (bytes : List ℕ) (k : ℕ)
    → length bytes ≡ size
    → off + size ≤ length b
    → get_or (replace b off size bytes) k 0 ≡ (
        if ltb k off
        then get_or b k 0
        else if ltb k (off + size)
        then get_or bytes (k - off) 0
        else get_or b k 0)
get_or-replace b off size bytes k e h = ground (
  arith,
  get_or-append 0 (take off b) (bytes ++ drop (off + size) b) k,
  get_or-append 0 bytes (drop (off + size) b) (k - off),
  length-take off b,
  get_or-take 0 off k b,
  get_or-drop 0 (off + size) (k - (off + size)) k b,
)

get_or-resize : (b : List ℕ) (n k : ℕ) → length b ≤ n → get_or (resize b n) k 0 ≡ get_or b k 0
get_or-resize b n k h =
    ap (λ t. get_or (t ++ replicate (n - length b) 0) k 0) (take_all n b h)
    ∙ get_or-append 0 b (replicate (n - length b) 0) k
    ∙ ground (arith, get_or-replicate {A = ℕ} 0 (n - length b) (k - length b), get_or_beyond 0 b k)

length-resize : (b : List ℕ) (n : ℕ) → length b ≤ n → length (resize b n) ≡ n
length-resize b n h = omega (
  arith,
  length-append (take n b) (replicate (n - length b) 0),
  length-take n b,
  length-replicate {A = ℕ} (n - length b) 0,
)

replace-Overwrites :
    (b old : List ℕ) (off size : ℕ) (bytes : List ℕ)
    → length bytes ≡ size
    → off + size ≤ length b
    → ((k : ℕ) → get_or b k 0 ≡ get_or old k 0)
    → (length old ≤ off + size → length b ≡ off + size)
    → (off + size ≤ length old → length b ≡ length old)
    → Overwrites size off bytes old (replace b off size bytes)
replace-Overwrites b old off size bytes e h same grown kept = record {
  inside = λ k lt. ground (arith, get_or-replace b off size bytes (off + k) e h);
  before = λ k lt. ground (arith, get_or-replace b off size bytes k e h, same k);
  beyond = λ k le. ground (arith, get_or-replace b off size bytes k e h, same k);
  grown = λ g. length-replace b off size bytes e h ∙ grown g;
  kept = λ g. length-replace b off size bytes e h ∙ kept g;
}

no_wrap : (size off : ℕ) → off + size < 2 ^ 64 → (size + off) % 2 ^ 64 ≡ off + size
no_wrap size off h = omega arith

le→leb : (a b : ℕ) → a ≤ b → leb a b ≡ true
le→leb a b h = ground arith

-- A `write` of `size` bytes whose end is an unsigned number of 64 bits does not throw.
pub written-Overwrites :
    (size off : ℕ) (bytes old : List ℕ)
    → length bytes ≡ size
    → off + size < 2 ^ 64
    → (new : List ℕ) × (written size off bytes old ≡ some new) × Overwrites size off bytes old new
written-Overwrites size off bytes old e fits = by_test (ltb (length old) (off + size)) refl
  where
    stored :
        (b : List ℕ)
        → (if ltb (length old) (off + size) then resize old (off + size) else old) ≡ b
        → off + size ≤ length b
        → written size off bytes old ≡ some (replace b off size bytes)
    stored b test h =
        unfold written in
        rw (no_wrap size off fits) (rw test (if_true none (le→leb off (length b) (omega arith))))

    by_test :
        (t : Bool)
        → ltb (length old) (off + size) ≡ t
        → (new : List ℕ) × (written size off bytes old ≡ some new)
          × Overwrites size off bytes old new
    by_test true t =
        let short : length old < off + size = ground arith in
        let b = resize old (off + size) in
        let l : length b ≡ off + size = length-resize old (off + size) (omega arith) in
        (
          _,
          stored b (if_true old t) (omega arith),
          replace-Overwrites b old off size bytes e (omega arith)
              (λ k. get_or-resize old (off + size) k (omega arith)) (λ g. l) (λ g. omega arith),
        )
    by_test false t =
        let long : off + size ≤ length old = ground arith in
        (
          _,
          stored old (if_false (resize old (off + size)) t) long,
          replace-Overwrites old old off size bytes e long (λ k. refl) (λ g. omega arith)
              (λ g. refl),
        )

-- ===== src/Prelude/Index.antt =====
-- Lists read by index, with a default value out of range.
use Prim.Native.Nat.{ℕ, zero, suc, ◌+◌, ◌-◌, ◌≤◌, ◌<◌}
use mathlib.Core.Path.{◌≡◌, refl}
use mathlib.Core.List.{List, [], ◌∷◌, ◌++◌}
use native.Mathlib.Omega.{arith}
use naive_file_system.Prelude.Lists.{length, get_or, take, drop, replicate}
use naive_file_system.Prelude.Tests.{ltb, if◌then◌else◌}

module _ {ℓ} {A : Type ℓ} (d : A) where
  pub get_or_beyond : (xs : List A) (k : ℕ) → length xs ≤ k → get_or xs k d ≡ d
  unfolding get_or
  get_or_beyond [] k h = refl
  get_or_beyond (x ∷ xs) zero h = absurd (omega arith)
  get_or_beyond (x ∷ xs) (suc k) h = get_or_beyond xs k (omega arith)

  pub get_or-take :
      (m k : ℕ) (xs : List A) → get_or (take m xs) k d ≡ (if ltb k m then get_or xs k d else d)
  unfolding get_or take
  get_or-take zero k xs = ground arith
  get_or-take (suc m) k [] = ground arith
  get_or-take (suc m) zero (x ∷ xs) = ground arith
  get_or-take (suc m) (suc k) (x ∷ xs) = ground (arith, get_or-take m k xs)

  pub get_or-drop : (j k i : ℕ) (xs : List A) → j + k ≡ i → get_or (drop j xs) k d ≡ get_or xs i d
  unfolding get_or drop
  get_or-drop zero k i xs e = ground arith
  get_or-drop (suc j) k i [] e = refl
  get_or-drop (suc j) k zero (x ∷ xs) e = absurd (omega arith)
  get_or-drop (suc j) k (suc i) (x ∷ xs) e = get_or-drop j k i xs (omega arith)

  pub get_or-replicate : (n k : ℕ) → get_or (replicate n d) k d ≡ d
  unfolding get_or replicate
  get_or-replicate zero k = refl
  get_or-replicate (suc n) zero = refl
  get_or-replicate (suc n) (suc k) = get_or-replicate n k

  pub get_or-append :
      (xs ys : List A) (k : ℕ)
      → get_or (xs ++ ys) k d
        ≡ (if ltb k (length xs) then get_or xs k d else get_or ys (k - length xs) d)
  unfolding get_or
  get_or-append [] ys k = ground arith
  get_or-append (x ∷ xs) ys zero = ground arith
  get_or-append (x ∷ xs) ys (suc k) = ground (arith, get_or-append xs ys k)

  -- Two lists of one length with the same elements are equal.
  pub list_ext :
      (xs ys : List A)
      → length xs ≡ length ys
      → ((k : ℕ) → k < length xs → get_or xs k d ≡ get_or ys k d)
      → xs ≡ ys
  unfolding get_or
  list_ext [] [] e h = refl
  list_ext [] (y ∷ ys) e h = absurd (omega arith)
  list_ext (x ∷ xs) [] e h = absurd (omega arith)
  list_ext (x ∷ xs) (y ∷ ys) e h =
      let rest = list_ext xs ys (omega arith) (λ k lt. h (suc k) (omega arith)) in
      λ i. h 0 (omega arith) i ∷ rest i

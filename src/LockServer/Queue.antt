-- ===== src/LockServer/Queue.antt =====
-- The waiting queue and the set of waiting clients of a lock of lock_server_cache.h: what the
-- operations of the set and of the queue do to membership, and when a lock is valid.
use naive_file_system.Prelude.{
  ℕ, ◌≡◌, ◌≢◌, refl, ◌∙◌, arith, false, List, [], ◌∷◌, ◌++◌, ◌==◌, ◌||◌, if◌then◌else◌,
}
use naive_file_system.LockServer.{free, locked, waiting, Lock, no_client, count, insert, erase}

-- No client stands twice in the queue.
abbrev pub IsUnique : List ℕ → Type 0
IsUnique [] = Unit
IsUnique (x ∷ q) = (count x q ≡ false) × IsUnique q

-- The queue is empty unless clients wait, and the set holds just the clients in the queue.
pub record IsValid (l : Lock) : Type 0 where
  pub queue : l.status ≢ waiting → l.client_q ≡ []
  pub waits : l.status ≡ waiting → l.client_q ≢ []
  pub unheld : l.status ≡ free → l.client_id ≡ no_client
  pub held : l.status ≡ locked → l.client_id ≢ no_client
  pub same : (x : ℕ) → count x l.client_s ≡ count x l.client_q
  pub unique : IsUnique l.client_q
  pub set : IsUnique l.client_s

pub count-append : (x : ℕ) (p q : List ℕ) → count x (p ++ q) ≡ (count x p || count x q)
unfolding count
count-append x [] q = refl
count-append x (y ∷ p) q = ground (arith, count-append x p q)

pub count-insert : (x y : ℕ) (s : List ℕ) → count x (insert y s) ≡ (y == x || count x s)
unfolding count insert
count-insert x y s = ground arith

pub IsUnique-append : (x : ℕ) (q : List ℕ) → IsUnique q → count x q ≡ false → IsUnique (q ++ x ∷ [])
unfolding count
IsUnique-append x [] u no_x = (refl, tt)
IsUnique-append x (y ∷ q) u no_x =
    (count-append y q (x ∷ []) ∙ ground arith, IsUnique-append x q u.1 (ground arith))

pub IsUnique-insert : (x : ℕ) (s : List ℕ) → IsUnique s → IsUnique (insert x s)
unfolding count insert
IsUnique-insert x s u = ground arith

pub count-erase :
    (x y : ℕ) (s : List ℕ)
    → IsUnique s
    → count x (erase y s) ≡ (if y == x then false else count x s)
unfolding count erase
count-erase x y [] u = ground arith
count-erase x y (z ∷ s) u = ground (arith, count-erase x y s u.1)

pub IsUnique-erase : (x : ℕ) (s : List ℕ) → IsUnique s → IsUnique (erase x s)
unfolding count erase
IsUnique-erase x [] u = tt
IsUnique-erase x (y ∷ s) u = ground (arith, count-erase y x s u.1, IsUnique-erase x s u.1)

pub count-cons : (x y : ℕ) (q : List ℕ) → count x (y ∷ q) ≡ (y == x || count x q)
unfolding count
count-cons x y q = refl

pub count-append_one : (x y : ℕ) (q : List ℕ) → count x (q ++ y ∷ []) ≡ (y == x || count x q)
unfolding count
count-append_one x y q = count-append x q (y ∷ []) ∙ ground arith

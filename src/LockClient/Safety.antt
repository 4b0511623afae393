-- ===== src/LockClient/Safety.antt =====
-- At most one thread of a client is at work on the lock, in lock_client_cache.cc: the status of the
-- entry, the flag `retry` and what the server has done agree with where that thread stands.
use naive_file_system.Prelude.{
  ℕ, ◌≡◌, ◌≢◌, refl, sym, ap, ◌∙◌, arith, subst, Bool, true, false, ◌==◌, if_true, if_false,
  ==_refl, ==_eq, ==_ne, Bool-cases, ◌⊎◌, inl, inr,
}
use naive_file_system.LockClient.{
  Status, unheld, free, locked, acquiring, releasing, entry_at, Stands, outside, waiting, calling,
  told, holding, giving, revoking,
}
use naive_file_system.LockClient.Threads.{
  Known, Progress, idle, answering_ok, answering_retry, released, Client, moved,
}

-- A thread that is outside or waits for its turn.
abbrev pub IsPassive : Stands → Type 0
IsPassive outside = Unit
IsPassive waiting = Unit
IsPassive calling = ⊥
IsPassive told = ⊥
IsPassive holding = ⊥
IsPassive giving = ⊥
IsPassive revoking = ⊥

-- What the server has recorded during a call of its `acquire` or `release`.
abbrev pub Calls : Progress → Bool → Known → Type 0
Calls idle r k = (r ≡ false) × (k.refused_one ≡ true → k.heard ≡ true)
Calls answering_ok r k = (r ≡ false) × (k.owned ≡ true) × (k.refused_one ≡ false)
Calls answering_retry r k = (k.refused_one ≡ true) × (r ≡ true → k.heard ≡ true)
Calls released r k = ⊥

abbrev pub Gives : Progress → Bool → Known → Type 0
Gives idle r k = (r ≡ false) × (k.owned ≡ true) × (k.refused_one ≡ false)
Gives answering_ok r k = ⊥
Gives answering_retry r k = ⊥
Gives released r k = (r ≡ false) × (k.owned ≡ false) × (k.refused_one ≡ false)

-- The status while a thread stands at a point, the flag `retry`, and what the server has done.
abbrev pub Works : Stands → Status → Bool → Progress → Known → Type 0
Works outside s r g k = ⊥
Works waiting s r g k = ⊥
Works calling s r g k = (s ≡ acquiring) × Calls g r k
Works told s r g k =
    (s ≡ acquiring) × (g ≡ idle) × (k.refused_one ≡ true) × (r ≡ true → k.heard ≡ true)
Works holding s r g k =
    ((s ≡ locked) ⊎ (s ≡ releasing))
    × (g ≡ idle)
    × (r ≡ false)
    × (k.owned ≡ true)
    × (k.refused_one ≡ false)
Works giving s r g k = ((s ≡ locked) ⊎ (s ≡ releasing)) × Gives g r k
Works revoking s r g k = (s ≡ releasing) × Gives g r k

-- Nobody is at work, or thread `i` is, at the point `p`.
pub data Phase : Type 0 where
  quiet : Phase
  busy : ℕ → Stands → Phase

-- The server has the client as the holder of a free lock that nobody is at work on, and of one that
-- is not held only if a call of `release` failed.
abbrev pub Rests : Status → Known → Type 0
Rests s k = ((s ≡ unheld) ⊎ ((s ≡ free) × (k.owned ≡ true))) × (k.refused_one ≡ false)

abbrev pub Fits : Phase → Status → Bool → (ℕ → Stands) → Progress → Known → Type 0
Fits quiet s r st g k = ((j : ℕ) → IsPassive (st j)) × (r ≡ false) × (g ≡ idle) × Rests s k
Fits (busy i p) s r st g k = (st i ≡ p) × ((j : ℕ) → j ≢ i → IsPassive (st j)) × Works p s r g k

abbrev pub FitsIn : Phase → Client → Type 0
FitsIn ph c = Fits ph (entry_at c.entry).status (entry_at c.entry).retry c.stands c.progress c.known

abbrev pub IsSafe : Client → Type 0
IsSafe c = (ph : Phase) × FitsIn ph c

-- A thread at work is the one of the phase.
pub at_work :
    (ph : Phase) (i : ℕ) (p : Stands) (s : Status) (r : Bool) (st : ℕ → Stands) (g : Progress)
    (k : Known)
    → (IsPassive p → ⊥)
    → st i ≡ p
    → Fits ph s r st g k
    → Fits (busy i p) s r st g k
at_work quiet i p s r st g k n e h = absurd (n (subst IsPassive e (h.0 i)))
at_work (busy m q) i p s r st g k n e h = elim (Bool-cases (i == m)) [
  | inl same ↦
      let k_i : i ≡ m = ==_eq i m same in
      let q_p : q ≡ p = sym h.0 ∙ ap st (sym k_i) ∙ e in
      (e, λ j ne. h.1 j (λ f. ne (f ∙ sym k_i)), subst (λ x. Works x s r g k) q_p h.2)
  | inr other ↦ absurd (n (subst IsPassive e (h.1 i (λ f. ground arith))))
]

pub moved_self : (f : ℕ → Stands) (i : ℕ) (p : Stands) → moved f i p i ≡ p
unfolding moved
moved_self f i p = if_true (f i) (==_refl i)

pub moved_other : (f : ℕ → Stands) (i j : ℕ) (p : Stands) → j ≢ i → moved f i p j ≡ f j
unfolding moved
moved_other f i j p ne = if_false p (==_ne j i ne)

-- Thread `i` starts to work, goes on with it, or stops.
pub starts :
    (i : ℕ) (p : Stands) (s : Status) (r : Bool) (st : ℕ → Stands) (g : Progress) (k : Known)
    → ((j : ℕ) → j ≢ i → IsPassive (st j))
    → Works p s r g k
    → Fits (busy i p) s r (moved st i p) g k
starts i p s r st g k h w =
    (moved_self st i p, λ j ne. subst IsPassive (sym (moved_other st i j p ne)) (h j ne), w)

moved-IsPassive :
    (st : ℕ → Stands) (i j : ℕ) (p : Stands)
    → IsPassive p
    → (j ≢ i → IsPassive (st j))
    → IsPassive (moved st i p j)
moved-IsPassive st i j p h k = elim (Bool-cases (j == i)) [
  | inl same ↦
      subst (λ n. IsPassive (moved st i p n)) (sym (==_eq j i same))
        (subst IsPassive (sym (moved_self st i p)) h)
  | inr other ↦
      let ne : j ≢ i = λ f. ground arith in subst IsPassive (sym (moved_other st i j p ne)) (k ne)
]

pub stops :
    (i : ℕ) (p : Stands) (s : Status) (r : Bool) (st : ℕ → Stands) (k : Known)
    → ((j : ℕ) → j ≢ i → IsPassive (st j))
    → IsPassive p
    → r ≡ false
    → Rests s k
    → Fits quiet s r (moved st i p) idle k
stops i p s r st k h q f e = (λ j. moved-IsPassive st i j p q (h j), f, refl, e)

-- A passive thread stays so, and the rest as it was.
pub stays :
    (ph : Phase) (i : ℕ) (p : Stands) (s : Status) (r : Bool) (st : ℕ → Stands) (g : Progress)
    (k : Known)
    → IsPassive (st i)
    → IsPassive p
    → Fits ph s r st g k
    → Fits ph s r (moved st i p) g k
stays quiet i p s r st g k a q h = (λ j. moved-IsPassive st i j p q (λ _. h.0 j), h.1, h.2, h.3)
stays (busy m w) i p s r st g k a q h = elim (Bool-cases (m == i)) [
  | inl same ↦
      let m_i : m ≡ i = ==_eq m i same in
      absurd (not_both w s r g k (subst IsPassive (ap st (sym m_i) ∙ h.0) a) h.2)
  | inr other ↦ (
    moved_other st i m p (λ f. ground arith) ∙ h.0,
    λ j ne. moved-IsPassive st i j p q (λ _. h.1 j ne),
    h.2,
  )
]
  where
    not_both :
        (w : Stands) (s : Status) (r : Bool) (g : Progress) (k : Known)
        → IsPassive w
        → Works w s r g k
        → ⊥
    not_both outside s r g k a b = b
    not_both waiting s r g k a b = b
    not_both calling s r g k a b = a
    not_both told s r g k a b = a
    not_both holding s r g k a b = a
    not_both giving s r g k a b = a
    not_both revoking s r g k a b = a

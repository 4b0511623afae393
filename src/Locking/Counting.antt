-- ===== src/Locking/Counting.antt =====
-- What the threads of lock_tester.cc have done so far agrees with the count of those that have the
-- lock.
use naive_file_system.Prelude.{
  ==_eq, ℕ, suc, ◌≡◌, ◌≢◌, refl, sym, ap, ◌∙◌, subst, Bool-cases, List, [], ◌∷◌, ◌==◌, if_true,
  if_false, ==_refl, ==_ne, ◌⊎◌, zero, false, inl, inr,
}
use naive_file_system.LockClient.{holding}
use naive_file_system.Locking.{true, Cluster, Move}
use naive_file_system.Locking
use naive_file_system.Locking.Invariant.{IsSafe, at_each}
use naive_file_system.Locking.Exclusion.{one_thread, Reaches-IsSafe}
use naive_file_system.Locking.Tester.{
  Action, acquire, check_in, check_out, release, rounds, Thread, Tester, place, stands_of, passed,
  is_releasing, Counts,
}

-- A thread is away, has come in and is not counted yet, or is counted.
pub data Phase : Type 0 where
  away entered inside : Phase

abbrev pub phase : List Action → Phase
phase [] = away
phase (acquire ∷ rest) = away
phase (check_in ∷ rest) = entered
phase (check_out ∷ rest) = inside
phase (release ∷ rest) = away

abbrev pub phase_after : Action → Phase
phase_after acquire = entered
phase_after check_in = inside
phase_after check_out = away
phase_after release = away

abbrev pub Fits : List Action → Type 0
Fits [] = Unit {0}
Fits (a ∷ rest) = (phase rest ≡ phase_after a) × Fits rest

pub rounds-away : (n : ℕ) → phase (rounds n) ≡ away
rounds-away zero = refl
rounds-away (suc n) = refl

pub rounds-Fits : (n : ℕ) → Fits (rounds n)
rounds-Fits zero = tt
rounds-Fits (suc n) = (refl, (refl, (refl, (rounds-away n, rounds-Fits n))))

-- Whoever is counted is the only one.
abbrev pub Agree : ℕ → (ℕ → Thread) → Type 0
Agree n threads =
    ((n ≡ 0) × ((i : ℕ) → phase (threads i).todo ≢ inside))
    ⊎ ((i : ℕ) × (n ≡ 1) × (phase (threads i).todo ≡ inside))

pub record IsCounting (lid : ℕ) (t : Tester) : Type 0 where
  pub safe : IsSafe t.cluster
  pub fits : (i : ℕ) → Fits (t.threads i).todo
  pub held : (i : ℕ) → phase (t.threads i).todo ≢ away → stands_of t.cluster t.threads i ≡ holding
  pub agree : Agree (t.ct (place lid)) t.threads

releasing-away : (l : List Action) → phase l ≢ away → is_releasing l ≡ false
releasing-away [] ne = refl
releasing-away (acquire ∷ rest) ne = refl
releasing-away (check_in ∷ rest) ne = refl
releasing-away (check_out ∷ rest) ne = refl
releasing-away (release ∷ rest) ne = absurd (ne refl)

pub moves-IsCounting :
    (lid : ℕ) (t : Tester) (h : Cluster)
    → Move t.cluster h
    → ((i : ℕ)
        → is_releasing (t.threads i).todo ≡ false
        → stands_of t.cluster t.threads i ≡ holding
        → stands_of h t.threads i ≡ holding)
    → IsCounting lid t
    → IsCounting lid (record t { cluster = h })
moves-IsCounting lid t h m stay k = record {
  safe = Reaches-IsSafe t.cluster h (Locking.onward Locking.here m) k.safe;
  fits = k.fits;
  held = λ i ne. stay i (releasing-away (t.threads i).todo ne) (k.held i ne);
  agree = k.agree;
}

-- The next calls of a thread that goes on, and of the others.
pub passed_at : (i : ℕ) (rest : List Action) (f : ℕ → Thread) → (passed i rest f i).todo ≡ rest
unfolding passed
passed_at i rest f = if_true (f i).todo (==_refl i)

passed_other :
    (i : ℕ) (rest : List Action) (f : ℕ → Thread) (j : ℕ)
    → j ≢ i
    → (f j).todo ≡ (passed i rest f j).todo
unfolding passed
passed_other i rest f j ne = sym (if_false rest (==_ne j i ne))

-- A thread's call comes back.
module _ (lid : ℕ) (t : Tester) (i : ℕ) (a : Action) (rest : List Action)
    (next : (t.threads i).todo ≡ a ∷ rest) (k : IsCounting lid t) where
  pub fitting : Fits (a ∷ rest)
  fitting = subst Fits next (k.fits i)

  pub at_each_phase :
      (P : ℕ → Phase → Type 0)
      → P i (phase_after a)
      → ((j : ℕ) → j ≢ i → P j (phase (t.threads j).todo))
      → (j : ℕ) → P j (phase (passed i rest t.threads j).todo)
  at_each_phase P p q =
      at_each (λ j. P j (phase (passed i rest t.threads j).todo)) i
        (subst (P i) (sym (ap phase (passed_at i rest t.threads) ∙ fitting.0)) p)
        (λ j ne. subst (P j) (ap phase (passed_other i rest t.threads j ne)) (q j ne))

  -- The thread has the lock if it comes in, and its being counted fits the count.
  pub passed-IsCounting :
      (ct : Counts)
      → (phase_after a ≢ away → stands_of t.cluster t.threads i ≡ holding)
      → Agree (ct (place lid)) (passed i rest t.threads)
      → IsCounting lid (record t { ct = ct; threads = passed i rest t.threads })
  unfolding passed
  passed-IsCounting ct h agree = record {
    safe = k.safe;
    fits =
        at_each (λ j. Fits (passed i rest t.threads j).todo) i
          (subst Fits (sym (passed_at i rest t.threads)) fitting.1)
          (λ j ne. subst Fits (passed_other i rest t.threads j ne) (k.fits j));
    held =
        at_each_phase (λ j p. p ≢ away → stands_of t.cluster t.threads j ≡ holding) h
          (λ j ne. k.held j);
    agree = agree;
  }

  -- A thread that was not counted and is not counted now.
  pub aside-Agree :
      phase (a ∷ rest) ≢ inside
      → phase_after a ≢ inside
      → Agree (t.ct (place lid)) (passed i rest t.threads)
  aside-Agree before now = elim k.agree [
    | inl (e, none) ↦ inl (e, at_each_phase (λ j p. p ≢ inside) now (λ j ne. none j))
    | inr (j, e, p) ↦ inr (
      j,
      e,
      sym (
            ap phase (
              passed_other i rest t.threads j (λ s.
                before (sym (ap phase next) ∙ ap (λ n. phase (t.threads n).todo) (sym s) ∙ p))))
          ∙ p,
    )
  ]

  -- Nobody but a thread that has come in is counted.
  pub others_out : phase (a ∷ rest) ≢ away → (j : ℕ) → j ≢ i → phase (t.threads j).todo ≢ inside
  others_out come j ne p =
      ne
        (one_thread t.cluster t.cluster (t.threads i).client (t.threads j).client i j k.safe
          Locking.here (k.held i (λ e. come (sym (ap phase next) ∙ e)))
          (k.held j (λ e. let two : inside ≡ away = sym p ∙ e in cc))).1

  pub nobody_counted : phase (a ∷ rest) ≡ entered → t.ct (place lid) ≡ 0
  nobody_counted e = elim k.agree [
    | inl (z, none) ↦ z
    | inr (j, one, p) ↦ elim (Bool-cases (j == i)) [
      | inl same ↦
          let two : entered ≡ inside =
            sym e
            ∙ sym (ap phase next)
            ∙ ap (λ n. phase (t.threads n).todo) (sym (==_eq j i same))
            ∙ p in
          absurd cc
      | inr o ↦ absurd (
          others_out (λ q. let two : entered ≡ away = sym e ∙ q in cc) j
            (λ s. let no : true ≡ false = sym (ap (λ n. n == i) s ∙ ==_refl i) ∙ o in cc) p)
    ]
  ]

  pub one_counted : phase (a ∷ rest) ≡ inside → t.ct (place lid) ≡ 1
  one_counted e = elim k.agree [
    | inl (z, none) ↦ absurd (none i (ap phase next ∙ e))
    | inr (j, one, p) ↦ one
  ]

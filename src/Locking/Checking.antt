-- ===== src/Locking/Checking.antt =====
-- The checks of lock_tester.cc never end the program; a release of a revoked lock does.
use naive_file_system.Prelude.{
  ◌⊎◌, true, ℕ, ◌≡◌, ◌≢◌, ◌≤◌, refl, sym, ap, ◌∙◌, arith, subst, Bool-cases, List, [], ◌∷◌, ltb,
  if_true, if_false, ==_refl, inl, inr,
}
use naive_file_system.Outcome.{Outcome, ret, undefined, Returns}
use naive_file_system.LockClient.{entry_at, holding}
use naive_file_system.LockClient.Revocation.{IsNoted}
use naive_file_system.Locking.Invariant.{IsSafe}
use naive_file_system.Locking.Calls.{
  ret-injective, acquire_call-ret, release_call-ret, acquire_call-returns, release_call-cases,
}
use naive_file_system.Locking.Tester.{
  test5, test4, test3, test2, Action, acquire, check_in, check_out, release, rounds, Thread, Tester,
  Step, moves, acts, Reaches, here, onward, call, next_call, entry_of, is_releasing, check_grant,
  check_release, place, stands_of, passed, main, Test, second, third, fourth, fifth, started,
  Returned, Counts, counted,
}
use naive_file_system.Locking.Counting.{
  away, entered, inside, phase, Fits, rounds-away, rounds-Fits, Agree, IsCounting, moves-IsCounting,
  passed_at, fitting, at_each_phase, passed-IsCounting, aside-Agree, others_out, nobody_counted,
  one_counted,
}

-- The two checks where nobody is counted, and where one thread is.
check_grant-counted :
    (lid : ℕ) (ct : Counts)
    → ct (place lid) ≡ 0
    → check_grant lid ct ≡ ret (counted (place lid) 1 ct)
unfolding check_grant
check_grant-counted lid ct z = rw z refl

check_release-counted :
    (lid : ℕ) (ct : Counts)
    → ct (place lid) ≡ 1
    → check_release lid ct ≡ ret (counted (place lid) 0 ct)
unfolding check_release
check_release-counted lid ct z = rw z refl

acts-IsCounting :
    (lid : ℕ) (t : Tester) (i : ℕ) (a : Action) (rest : List Action) (ct : Counts)
    → (t.threads i).todo ≡ a ∷ rest
    → Returned a (stands_of t.cluster t.threads i)
    → call a (stands_of t.cluster t.threads i) (entry_of t.cluster t.threads i) lid t.ct ≡ ret ct
    → IsCounting lid t
    → IsCounting lid (record t { ct = ct; threads = passed i rest t.threads })
acts-IsCounting lid t i acquire rest ct e r run k =
    passed-IsCounting lid t i acquire rest e k ct (λ ne. r)
      (subst (λ c. Agree (c (place lid)) (passed i rest t.threads))
        (sym (acquire_call-ret _ (entry_of t.cluster t.threads i) t.ct ct run))
        (aside-Agree lid t i acquire rest e k (λ p. cc) (λ p. cc)))
acts-IsCounting lid t i check_in rest ct e r run k =
    let z = nobody_counted lid t i check_in rest e k refl in
    let same : ct ≡ counted (place lid) 1 t.ct =
      ret-injective (sym (check_grant-counted lid t.ct z) ∙ run) in
    passed-IsCounting lid t i check_in rest e k ct
      (λ ne. k.held i (λ p. let two : entered ≡ away = sym (ap phase e) ∙ p in cc))
      (inr (
        i,
        ap (λ c. c (place lid)) same ∙ if_true (t.ct (place lid)) (==_refl (place lid)),
        ap phase (passed_at i rest t.threads) ∙ (fitting lid t i check_in rest e k).0,
      ))
acts-IsCounting lid t i check_out rest ct e r run k =
    let one = one_counted lid t i check_out rest e k refl in
    let same : ct ≡ counted (place lid) 0 t.ct =
      ret-injective (sym (check_release-counted lid t.ct one) ∙ run) in
    passed-IsCounting lid t i check_out rest e k ct (λ ne. absurd (ne refl))
      (inl (
        ap (λ c. c (place lid)) same ∙ if_true (t.ct (place lid)) (==_refl (place lid)),
        at_each_phase lid t i check_out rest e k (λ j p. p ≢ inside) (λ p. cc)
            (others_out lid t i check_out rest e k (λ p. cc)),
      ))
acts-IsCounting lid t i release rest ct e r run k =
    passed-IsCounting lid t i release rest e k ct (λ ne. absurd (ne refl))
      (subst (λ c. Agree (c (place lid)) (passed i rest t.threads))
        (sym (release_call-ret _ (entry_of t.cluster t.threads i) t.ct ct run))
        (aside-Agree lid t i release rest e k (λ p. cc) (λ p. cc)))

Step-IsCounting : (lid : ℕ) (t u : Tester) → Step lid t u → IsCounting lid t → IsCounting lid u
Step-IsCounting lid t u (moves h m stay alive) k = moves-IsCounting lid t h m stay k
Step-IsCounting lid t u (acts i a rest ct e r run) k = acts-IsCounting lid t i a rest ct e r run k

Reaches-IsCounting :
    (lid : ℕ) (t u : Tester) → Reaches lid t u → IsCounting lid t → IsCounting lid u
Reaches-IsCounting lid t u here k = k
Reaches-IsCounting lid t v (onward {b = u} r s) k =
    Step-IsCounting lid u v s (Reaches-IsCounting lid t u r k)

-- The threads of a test do the same calls over and over.
started-rounds :
    (n m : ℕ) (f : ℕ → Thread) (i : ℕ)
    → (f i).todo ≡ rounds m
    → (k : ℕ) × ((started n f i).todo ≡ rounds k)
started-rounds n m f i e = elim (Bool-cases (ltb i n)) [
  | inl b ↦ (m, ap (λ (t : Thread). t.todo) (if_true _ b) ∙ e)
  | inr b ↦ (0, ap (λ (t : Thread). t.todo) (if_false (f i) b))
]

main-rounds : (test : Test) (lc : ℕ → ℕ) (i : ℕ) → (n : ℕ) × ((main test lc i).todo ≡ rounds n)
main-rounds second lc i = started-rounds 6 1 (test2 lc) i refl
main-rounds third lc i = started-rounds 6 10 (test3 lc) i refl
main-rounds fourth lc i = started-rounds 2 10 (test4 lc) i refl
main-rounds fifth lc i = started-rounds 6 10 (test5 lc) i refl

started-IsCounting :
    (lid : ℕ) (test : Test) (lc : ℕ → ℕ) (t : Tester)
    → IsSafe t.cluster
    → t.threads ≡ main test lc
    → t.ct (place lid) ≡ 0
    → IsCounting lid t
started-IsCounting lid test lc t safe e z =
    let at : (i : ℕ) → (n : ℕ) × ((t.threads i).todo ≡ rounds n) =
      λ i. let r = main-rounds test lc i in (r.0, ap (λ (f : ℕ → Thread). (f i).todo) e ∙ r.1) in
    let out : (i : ℕ) → phase (t.threads i).todo ≡ away =
      λ i. ap phase (at i).1 ∙ rounds-away (at i).0 in
    record {
      safe = safe;
      fits = λ i. subst Fits (sym (at i).1) (rounds-Fits (at i).0);
      held = λ i ne. absurd (ne (out i));
      agree = inl (z, λ i p. let two : away ≡ inside = sym (out i) ∙ p in cc);
    }

at_most_one : (lid : ℕ) (t : Tester) → IsCounting lid t → t.ct (place lid) ≤ 1
at_most_one lid t k = elim k.agree [
  | inl (z, nobody) ↦ omega (arith, z)
  | inr (j, one, p) ↦ omega (arith, one)
]

-- The next call of thread `i` is a release of the lock, which it holds and which is revoked.
abbrev pub IsRevoked : Tester → ℕ → List Action → Type 0
IsRevoked t i l =
    (is_releasing l ≡ true)
    × (stands_of t.cluster t.threads i ≡ holding)
    × IsNoted (entry_at (entry_of t.cluster t.threads i))

-- How the next of the calls `l` of thread `i` ends.
abbrev pub ends : ℕ → Tester → ℕ → List Action → Outcome Counts
ends lid t i l =
    next_call l (stands_of t.cluster t.threads i) (entry_of t.cluster t.threads i) lid t.ct

-- The call returns, or it is a release of a revoked lock and is undefined.
abbrev pub Ends : ℕ → Tester → ℕ → List Action → Type 0
Ends lid t i l =
    ((IsRevoked t i l → ⊥) × Returns (ends lid t i l) (λ ct. ct (place lid) ≤ 1))
    ⊎ (IsRevoked t i l × (ends lid t i l ≡ undefined))

next_call-Ends :
    (lid : ℕ) (t : Tester) (i : ℕ) (l : List Action)
    → (t.threads i).todo ≡ l
    → IsCounting lid t
    → Ends lid t i l
next_call-Ends lid t i [] e k = inl ((λ h. cc), (t.ct, refl, at_most_one lid t k))
next_call-Ends lid t i (acquire ∷ rest) e k = inl (
  (λ h. cc),
  (
    t.ct,
    acquire_call-returns (stands_of t.cluster t.threads i) (entry_of t.cluster t.threads i) t.ct,
    at_most_one lid t k,
  ),
)
next_call-Ends lid t i (check_in ∷ rest) e k = inl (
  (λ h. cc),
  (
    counted (place lid) 1 t.ct,
    check_grant-counted lid t.ct (nobody_counted lid t i check_in rest e k refl),
    omega (arith, if_true (t.ct (place lid)) (==_refl (place lid))),
  ),
)
next_call-Ends lid t i (check_out ∷ rest) e k = inl (
  (λ h. cc),
  (
    counted (place lid) 0 t.ct,
    check_release-counted lid t.ct (one_counted lid t i check_out rest e k refl),
    omega (arith, if_true (t.ct (place lid)) (==_refl (place lid))),
  ),
)
next_call-Ends lid t i (release ∷ rest) e k =
    elim (release_call-cases (stands_of t.cluster t.threads i) (entry_of t.cluster t.threads i)
      t.ct) [
        | inl (quiet, run) ↦ inl ((λ h. quiet (h.1, h.2)), (t.ct, run, at_most_one lid t k))
        | inr (held, noted, run) ↦ inr ((refl, held, noted), run)
      ]

-- The tests of lock_tester.cc that start threads, on a lock server and clients in a safe state and
-- with a count of 0: take any state that they reach, by any interleaving, before a thread or a
-- handler of one of their clients comes to the call of `dorelease`. Then the next call of a thread,
-- of `check_grant` or `check_release` too, does not end the program and leaves a count of at most
-- 1, unless it is a release, by a thread that holds it, of a lock that is revoked: that one calls
-- `dorelease` through a null pointer.
pub checks_pass :
    (lid : ℕ) (test : Test) (lc : ℕ → ℕ) (t u : Tester) (i : ℕ)
    → IsSafe t.cluster
    → t.threads ≡ main test lc
    → t.ct (place lid) ≡ 0
    → Reaches lid t u
    → Ends lid u i (u.threads i).todo
checks_pass lid test lc t u i safe e z r =
    next_call-Ends lid u i (u.threads i).todo refl
      (Reaches-IsCounting lid t u r (started-IsCounting lid test lc t safe e z))

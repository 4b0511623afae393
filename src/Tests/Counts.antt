-- ===== src/Tests/Counts.antt =====
-- The test of lock_tester.cc where two threads of one client acquire a lock.
use naive_file_system.Prelude.{ℕ, ◌+◌, refl, List, ◌∷◌}
use naive_file_system.Locking.{updated}
use naive_file_system.LockClient.{answered}
use naive_file_system.LockClient.Threads.{moved}
use naive_file_system.Locking.Tester.{
  acquire, check_in, check_grant, counted, fourth, Step, check_out, release, rounds, main, passed,
  here, onward, acts, Tester, Action,
}
use naive_file_system.Locking.Checking.{checks_pass, Ends}
use naive_file_system.Tests.Cluster.{final, final-IsSafe, final-holding}

-- Thread 0 of client 7 has just got the lock 1.
abbrev lc : ℕ → ℕ
lc i = 7 + i

abbrev begun : Tester
begun = record { cluster = final; ct = λ j. 0; threads = main fourth lc }

abbrev after_check : List Action
after_check = check_out ∷ release ∷ rounds 9

abbrev got : Tester
got = record begun { threads = passed 0 (check_in ∷ after_check) begun.threads }

abbrev one_in : Tester
one_in = record got { ct = counted 1 1 (λ j. 0); threads = passed 0 after_check got.threads }

comes_back : Step 1 begun got
unfolding updated moved answered
comes_back = acts 0 acquire (check_in ∷ after_check) (λ j. 0) refl final-holding refl

comes_in : Step 1 got one_in
unfolding passed check_grant
comes_in = acts 0 check_in after_check one_in.ct refl tt refl

checks_pass_example : Ends 1 one_in 0 (one_in.threads 0).todo
checks_pass_example =
    checks_pass 1 fourth lc begun one_in 0 final-IsSafe refl refl
      (onward (onward here comes_back) comes_in)

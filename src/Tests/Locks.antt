-- ===== src/Tests/Locks.antt =====
-- One lock of the caching lock server and two clients.
use naive_file_system.Prelude.{◌==◌, if◌then◌else◌, ◌≢◌, ◌≡◌, refl, arith, none, some, [], ◌∷◌}
use naive_file_system.LockServer.{
  count, insert, erase, acquire_known, acquire_waiting, grant_front, release_held, ok, retry,
  locked, waiting, Lock, acquire, release,
}
use naive_file_system.LockTable
use naive_file_system.LockTable.{
  taken, set_status, try_acquire, Threads, IsExclusive, Reaches-IsExclusive,
}
use naive_file_system.LockServer.Queue.{IsValid}
use naive_file_system.LockServer.Release.{Releases, release-Releases}
use naive_file_system.LockServer.System.{
  granted_to, Clients, Step, ask, again, give, Reaches, here, onward, IsSafe, Reaches-IsSafe,
}

abbrev held : Lock
held = record { client_id = 5; client_q = []; client_s = []; status = locked }

held-IsValid : IsValid held
held-IsValid = record {
  queue = λ w. refl;
  waits = λ w. cc;
  unheld = λ w. cc;
  held = λ w. ground arith;
  same = λ x. refl;
  unique = tt;
  set = tt;
}

release_by_holder :
    (held.client_id ≡ 5 → Releases held (release 5 held))
    × (held.client_id ≢ 5 → release 5 held ≡ record { call = none; lock = held })
release_by_holder = release-Releases 5 held held-IsValid

abbrev first : Clients
first = record { lock = held; holders = 5 ∷ []; told = none }

abbrev contended : Lock
contended = record { client_id = 5; client_q = 6 ∷ []; client_s = 6 ∷ []; status = waiting }

abbrev second : Clients
second = record { lock = contended; holders = 5 ∷ []; told = none }

abbrev left : Lock
left = record { client_id = 0; client_q = 6 ∷ []; client_s = 6 ∷ []; status = waiting }

abbrev third : Clients
third = record { lock = left; holders = []; told = some 6 }

abbrev fourth : Clients
fourth = record {
  lock = record { client_id = 6; client_q = []; client_s = []; status = locked };
  holders = 6 ∷ [];
  told = none;
}

first-IsSafe : IsSafe first
first-IsSafe = record {
  valid = held-IsValid;
  recorded = (refl, ground arith, refl);
  turn = λ id e. cc;
}

-- Client 6 asks, client 5 gives the lock back, and client 6 asks again.
asked : Step first second
unfolding granted_to
asked =
    ask {c = first} 6 (record { reply = retry; call = some 5; lock = contended }) (ground arith)
      (unfold count in refl)
      (unfold acquire in unfold acquire_known in unfold insert in unfold count in refl)

given : Step second third
given = unfold release in unfold release_held in give {c = second} 5 refl

asked_again : Step third fourth
unfolding granted_to
asked_again =
    again {c = third} 6 (record { reply = ok; call = none; lock = fourth.lock }) (ground arith) refl
      (unfold acquire in
        unfold acquire_known in
        unfold acquire_waiting in unfold grant_front in unfold count in unfold erase in refl)

handed_over : Reaches first fourth
handed_over = onward (onward (onward here asked) given) asked_again

fourth-IsSafe : IsSafe fourth
fourth-IsSafe = Reaches-IsSafe first fourth handed_over first-IsSafe

-- A thread gets lock 9 of the plain server.
abbrev nobody : Threads
nobody = record { table = λ j. none; holding = λ j. 0 }

abbrev somebody : Threads
somebody = record {
  table = λ j. if j == 9 then some taken else none;
  holding = λ j. if j == 9 then 1 else 0;
}

got_nine : LockTable.Step nobody somebody
got_nine =
    LockTable.gets {s = nobody} 9 (λ j. if j == 9 then some taken else none)
      (unfold try_acquire in unfold set_status in refl)

Reaches-IsExclusive_example : IsExclusive somebody
Reaches-IsExclusive_example =
    Reaches-IsExclusive nobody somebody (LockTable.onward LockTable.here got_nine) (λ lid. refl)

-- ===== src/Tests/Cluster.antt =====
-- A lock server with a free lock and clients whose threads are all outside.
use naive_file_system.Prelude.{ℕ, ◌≡◌, ◌≢◌, refl, arith, none, some, [], false, true, inl}
use naive_file_system.Outcome.{ret}
use naive_file_system.LockServer.{no_client, free, locked, Lock, ok, count, acquire, acquire_known}
use naive_file_system.LockServer.System.{granted_to}
use naive_file_system.LockClient.{
  revoke_handler, entry_at, granted, Entry, Stands, outside, calling, holding, acquiring, request,
  recheck, answered,
}
use naive_file_system.LockClient
use naive_file_system.LockClient.Threads.{
  asks, Client, idle, answering_ok, grants, returns_ok, moved, noted,
}
use naive_file_system.LockClient.Threads
use naive_file_system.LockClient.Safety.{quiet}
use naive_file_system.Locking.Revoking.{revoked}
use naive_file_system.Locking.Revoking
use naive_file_system.Locking
use naive_file_system.Locking.{Cluster, updated, Move, works, acquires, here, onward}
use naive_file_system.Locking.Invariant.{IsSafe}
use naive_file_system.Locking.Exclusion.{one_thread, Reaches-IsSafe}

abbrev resting : Client
resting = record {
  entry = none;
  stands = λ i. outside;
  progress = idle;
  known = record { owned = false; refused_one = false; heard = false };
}

abbrev free_lock : Lock
free_lock = record { client_id = 0; client_q = []; client_s = []; status = free }

abbrev start : Cluster
start = record {
  server = record { lock = free_lock; holders = []; told = none };
  pending = none;
  client = λ id. resting;
}

start-IsSafe : IsSafe start
unfolding count
start-IsSafe = record {
  server = record {
    valid = record {
      queue = λ w. refl;
      waits = λ w. cc;
      unheld = λ w. refl;
      held = λ w. cc;
      same = λ x. refl;
      unique = tt;
      set = tt;
    };
    recorded = refl;
    turn = λ id e. cc;
  };
  client = λ id. (quiet, ((λ j. tt), refl, refl, (inl refl, refl)));
  queued = λ id. refl;
  holds = λ id. refl;
  heard = λ id e. cc;
  called = λ id e. cc;
}

-- Thread 0 of client 7 asks the server, which grants the lock, and returns with it.
abbrev asking : Client
asking = Threads.after resting 0 (some (LockClient.acquire none).0) (LockClient.acquire none).1 idle

abbrev granted_one : Client
granted_one = record asking { progress = answering_ok; known = noted (asks true) asking.known }

abbrev returned : Client
returned =
    Threads.after granted_one 0 (some (answered granted (entry_at granted_one.entry)).0)
      (answered granted (entry_at granted_one.entry)).1 idle

abbrev held_lock : Lock
held_lock = record { client_id = 7; client_q = []; client_s = []; status = locked }

abbrev asked : Cluster
asked = record start { client = updated start.client 7 asking }

abbrev answered_ok : Cluster
answered_ok = record {
  server = record { lock = held_lock; holders = granted_to 7 ok []; told = none };
  pending = none;
  client = updated asked.client 7 granted_one;
}

abbrev pub final : Cluster
final = record answered_ok { client = updated answered_ok.client 7 returned }

first_step : Move start asked
first_step = works 7 asking (Threads.acquires 0 refl)

asking-calling : asking.stands 0 ≡ calling
unfolding LockClient.acquire recheck request moved
asking-calling = refl

granted-calling : granted_one.stands 0 ≡ calling
unfolding LockClient.acquire recheck request moved
granted-calling = refl

seven : 7 ≢ no_client
seven = omega arith

at_server : acquire 7 (some free_lock) ≡ ret (record { reply = ok; call = none; lock = held_lock })
unfolding acquire acquire_known
at_server = refl

second_step : Move asked answered_ok
second_step =
    acquires 7 granted_one (record { reply = ok; call = none; lock = held_lock }) seven at_server
      (unfold updated in grants 0 asking-calling refl)

third_step : Move answered_ok final
third_step = works 7 returned (unfold updated in returns_ok 0 granted-calling refl)

pub final-holding : (final.client 7).stands 0 ≡ holding
unfolding updated moved answered
final-holding = refl

final-reached : Locking.Reaches start final
final-reached = onward (onward (onward here first_step) second_step) third_step

pub final-IsSafe : IsSafe final
final-IsSafe = Reaches-IsSafe start final final-reached start-IsSafe

one_thread_example : (◌≡◌ {A = ℕ} 7 7) × (◌≡◌ {A = ℕ} 0 0)
one_thread_example =
    one_thread start final 7 7 0 0 start-IsSafe final-reached final-holding final-holding

-- The client's `revoke_handler` runs while thread 0 has the lock.
abbrev told_to : Cluster
told_to = record final { client = updated final.client 7 (revoked final 7 1) }

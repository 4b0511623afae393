-- ===== src/LockClient/Threads.antt =====
-- The threads and the handlers of one client, interleaved at the points where lock_client_cache.cc
-- gives up the mutex, with what the server does at these points.
use naive_file_system.Prelude.{refl, ℕ, ◌≡◌, Bool, true, false, Option, some, ◌==◌, if◌then◌else◌}
use naive_file_system.LockClient.{
  Entry, entry_at, Stands, outside, waiting, calling, told, holding, giving, revoking, acquire,
  recheck, await, granted, refused, failed, answered, release, given, revoke_handler, retry_handler,
}

-- What the server has done for the client: nothing yet, or its answer is on the way; it has the
-- release.
pub data Progress : Type 0 where
  idle answering_ok answering_retry released : Progress

-- What the server has recorded of the client: that it holds the lock, that it waits in the queue,
-- and that it was told to ask again.
pub record Known : Type 0 where
  pub owned : Bool
  pub refused_one : Bool
  pub heard : Bool

-- What a step tells the server or hears of it: nothing, the server's answer to `acquire` (true for
-- `OK` and false for `RETRY`), its taking of `release`, its call of `retry`, or that a call of
-- `release` has failed and the server did not take it.
pub data Label : Type 0 where
  silent : Label
  asks : Bool → Label
  gives hears loses : Label

unfoldable pub noted : Label → Known → Known
noted silent k = k
noted (asks true) k = record { owned = true; refused_one = false; heard = false }
noted (asks false) k = record { owned = k.owned; refused_one = true; heard = false }
noted gives k = record k { owned = false }
noted hears k = record k { heard = true }
noted loses k = k

-- The table's entry, where each thread stands, and what the server has done.
pub record Client : Type 0 where
  pub entry : Option Entry
  pub stands : ℕ → Stands
  pub progress : Progress
  pub known : Known

unfoldable pub moved : (ℕ → Stands) → ℕ → Stands → ℕ → Stands
moved f i p j = if j == i then p else f j

-- The client after a segment of thread `i`.
abbrev pub after : Client → ℕ → Option Entry → Stands → Progress → Client
after c i e p q = record { entry = e; stands = moved c.stands i p; progress = q; known = c.known }

-- The client does not look at how its call of `release` ended: one that failed after the server
-- took it is a return. The thread of a `retry` is not told apart: the handler is one segment. A
-- server that answers `RETRY` calls `retry` once it has answered so, and not otherwise.
pub data Step (c : Client) : Label → Client → Type 0 where
  acquires :
      (i : ℕ)
      → c.stands i ≡ outside
      → Step c silent (after c i (some (acquire c.entry).0) (acquire c.entry).1 c.progress)
  wakes :
      (i : ℕ)
      → c.stands i ≡ waiting
      → Step c silent (
          after c i (some (recheck (entry_at c.entry)).0) (recheck (entry_at c.entry)).1 c.progress)
  grants :
      (i : ℕ)
      → c.stands i ≡ calling
      → c.progress ≡ idle
      → Step c (asks true) (record c { progress = answering_ok; known = noted (asks true) c.known })
  refuses :
      (i : ℕ)
      → c.stands i ≡ calling
      → c.progress ≡ idle
      → Step c
          (asks false)
          (record c { progress = answering_retry; known = noted (asks false) c.known })
  returns_ok :
      (i : ℕ)
      → c.stands i ≡ calling
      → c.progress ≡ answering_ok
      → Step c silent (
          after c i
            (some (answered granted (entry_at c.entry)).0)
            (answered granted (entry_at c.entry)).1
            idle)
  returns_retry :
      (i : ℕ)
      → c.stands i ≡ calling
      → c.progress ≡ answering_retry
      → Step c silent (
          after c i
            (some (answered refused (entry_at c.entry)).0)
            (answered refused (entry_at c.entry)).1
            idle)
  fails :
      (i : ℕ)
      → c.stands i ≡ calling
      → c.progress ≡ idle
      → Step c silent (
          after c i
            (some (answered failed (entry_at c.entry)).0)
            (answered failed (entry_at c.entry)).1
            idle)
  retries_early :
      c.progress ≡ answering_retry
      → Step c hears
          (record c { entry = some (retry_handler c.entry); known = noted hears c.known })
  retries :
      (i : ℕ)
      → c.stands i ≡ told
      → Step c hears
          (record c { entry = some (retry_handler c.entry); known = noted hears c.known })
  retried :
      (i : ℕ)
      → c.stands i ≡ told
      → Step c silent
          (after c i (some (await (entry_at c.entry)).0) (await (entry_at c.entry)).1 c.progress)
  releases :
      (i : ℕ)
      → c.stands i ≡ holding
      → Step c silent (after c i (release c.entry).0 (release c.entry).1 c.progress)
  revokes :
      (i : ℕ)
      → c.stands i ≡ outside
      → Step c silent
          (after c i (some (revoke_handler c.entry).0) (revoke_handler c.entry).1 c.progress)
  takes_back :
      (i : ℕ)
      → c.stands i ≡ giving
      → c.progress ≡ idle
      → Step c gives (record c { progress = released; known = noted gives c.known })
  takes_back_revoked :
      (i : ℕ)
      → c.stands i ≡ revoking
      → c.progress ≡ idle
      → Step c gives (record c { progress = released; known = noted gives c.known })
  returns_given :
      (i : ℕ)
      → c.stands i ≡ giving
      → c.progress ≡ released
      → Step c silent
          (after c i (some (given (entry_at c.entry)).0) (given (entry_at c.entry)).1 idle)
  returns_revoked :
      (i : ℕ)
      → c.stands i ≡ revoking
      → c.progress ≡ released
      → Step c silent
          (after c i (some (given (entry_at c.entry)).0) (given (entry_at c.entry)).1 idle)
  fails_given :
      (i : ℕ)
      → c.stands i ≡ giving
      → c.progress ≡ idle
      → Step c loses
          (after c i (some (given (entry_at c.entry)).0) (given (entry_at c.entry)).1 idle)
  fails_revoked :
      (i : ℕ)
      → c.stands i ≡ revoking
      → c.progress ≡ idle
      → Step c loses
          (after c i (some (given (entry_at c.entry)).0) (given (entry_at c.entry)).1 idle)

-- What the server has recorded changes by the label of the step alone.
pub Step-noted : (c d : Client) (l : Label) → Step c l d → d.known ≡ noted l c.known
unfolding noted
Step-noted c d l (acquires i e) = refl
Step-noted c d l (wakes i e) = refl
Step-noted c d l (grants i e g) = refl
Step-noted c d l (refuses i e g) = refl
Step-noted c d l (returns_ok i e g) = refl
Step-noted c d l (returns_retry i e g) = refl
Step-noted c d l (fails i e g) = refl
Step-noted c d l (retries_early g) = refl
Step-noted c d l (retries i e) = refl
Step-noted c d l (retried i e) = refl
Step-noted c d l (releases i e) = refl
Step-noted c d l (revokes i e) = refl
Step-noted c d l (takes_back i e g) = refl
Step-noted c d l (takes_back_revoked i e g) = refl
Step-noted c d l (returns_given i e g) = refl
Step-noted c d l (returns_revoked i e g) = refl
Step-noted c d l (fails_given i e g) = refl
Step-noted c d l (fails_revoked i e g) = refl

pub data Reaches : Client → Client → Type 0 where
  here : {c : Client} → Reaches c c
  onward : {a b c : Client} {l : Label} → Reaches a b → Step b l c → Reaches a c

-- ===== src/LockClient.antt =====
-- The caching lock client: `class lock_client_cache` of lock_client_cache.h and
-- lock_client_cache.cc, for one lock. What a thread does between two points where it gives up the
-- mutex is one definition; it returns the entry of the lock and where the thread stands then. The
-- calls of the server and of `dorelease`, made without the mutex, lie between those.
pub mod Threads
pub mod Safety
pub mod Segments
pub mod System
pub mod Stuck
pub mod Revocation
use naive_file_system.Prelude.{Bool, true, false, Option, none, some, if◌then◌else◌, ℕ, ◌==◌}

pub data Status : Type 0 where
  unheld free locked acquiring releasing : Status

-- `class lock_cache_status`, less its two conditions.
pub record Entry : Type 0 where
  pub status : Status
  pub revoke : Bool
  pub retry : Bool

-- The entry that `operator[]` makes.
abbrev pub new_entry : Entry
new_entry = record { status = unheld; revoke = false; retry = false }

abbrev pub entry_at : Option Entry → Entry
entry_at none = new_entry
entry_at (some e) = e

-- Where a thread stands: outside of the functions and without the lock; waiting for the condition
-- `cond`; in the call of the server's `acquire`; waiting for `condForRetry`; after `acquire`; in the
-- call of the server's `release`, of a thread that held the lock or of the handler of `revoke`.
pub data Stands : Type 0 where
  outside waiting calling told holding giving revoking : Stands

-- The head of the loop `while (!retry)`: the server is called unless `retry` is set.
unfoldable pub request : Entry → Entry × Stands
request e = (e, if e.retry then holding else calling)

-- `acquire` from its start or from `recheck`, with the entry that it makes where there is none.
abbrev pub recheck_status : Status → Entry → Entry × Stands
recheck_status unheld e = request (record e { status = acquiring })
recheck_status free e = (record e { status = locked }, holding)
recheck_status locked e = (e, waiting)
recheck_status acquiring e = (e, waiting)
recheck_status releasing e = (e, waiting)

unfoldable pub recheck : Entry → Entry × Stands
unfolding request
recheck e = recheck_status e.status e

unfoldable pub acquire : Option Entry → Entry × Stands
unfolding recheck
acquire o = recheck (entry_at o)

-- After the wait for `condForRetry`, where it is entered at all.
unfoldable pub await : Entry → Entry × Stands
unfolding request
await e = let next = request (record e { retry = false }) in if e.retry then next else (e, told)

-- The server's answer to `acquire`.
pub data Answer : Type 0 where
  granted refused failed : Answer

unfoldable pub answered : Answer → Entry → Entry × Stands
unfolding request await
answered granted e = (record e { status = locked }, holding)
answered refused e = await e
answered failed e = request e

-- `release`, up to its call of the server if it makes one.
abbrev pub release_status : Status → Entry → Entry × Stands
release_status locked e = (record e { status = free }, outside)
release_status free e = (e, outside)
release_status releasing e = (e, giving)
release_status unheld e = (e, outside)
release_status acquiring e = (e, outside)

abbrev pub release_entry : Entry → Entry × Stands
release_entry e =
    if e.revoke then (record e { revoke = false }, giving) else release_status e.status e

unfoldable pub release : Option Entry → Option Entry × Stands
release none = (none, outside)
release (some e) = let r = release_entry e in (some r.0, r.1)

-- After the call of the server's `release`, in `release` and in `revoke_handler`.
unfoldable pub given : Entry → Entry × Stands
given e = (record e { status = unheld }, outside)

-- `revoke_handler`, up to its call of the server.
abbrev pub revoke_status : Status → Entry → Entry × Stands
revoke_status unheld e = (record e { revoke = true }, outside)
revoke_status releasing e = (record e { revoke = true }, outside)
revoke_status acquiring e = (record e { revoke = true }, outside)
revoke_status free e = (record e { status = releasing }, revoking)
revoke_status locked e = (record e { status = releasing }, outside)

unfoldable pub revoke_handler : Option Entry → Entry × Stands
revoke_handler o = revoke_status (entry_at o).status (entry_at o)

unfoldable pub retry_handler : Option Entry → Entry
retry_handler o = record (entry_at o) { retry = true }

-- `dorelease` of `lock_user`: the cached extent with the lock's number is flushed.
unfoldable pub dorelease : {C : Type 0} → (ℕ → C → C) → ℕ → C → C
dorelease flush lid c = flush lid c

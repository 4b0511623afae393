-- ===== src/Locking.antt =====
-- One lock, its server (lock_server_cache.cc) and all its clients (lock_client_cache.cc) as one
-- system of steps. A client is named by its number at the server, and has any number of threads.
pub mod Invariant
pub mod Server
pub mod Exclusion
pub mod Revoking
pub mod Tester
pub mod Calls
pub mod Counting
pub mod Checking
use naive_file_system.Prelude.{
  ℕ, ◌≡◌, ◌≢◌, Bool, true, false, Option, none, some, List, ◌==◌, if◌then◌else◌,
}
use naive_file_system.Outcome.{ret}
use naive_file_system.LockServer.{no_client, erase, Reply, ok, retry, Handled, acquire, release}
use naive_file_system.LockServer.System.{Clients, granted_to}
use naive_file_system.LockClient.Threads.{Client, Label, silent, asks, gives, hears, loses}
use naive_file_system.LockClient.Threads

-- The server with its books, the client that the server's call of `retry` is on the way to, and the
-- clients.
pub record Cluster : Type 0 where
  pub server : Clients
  pub pending : Option ℕ
  pub client : ℕ → Client

unfoldable pub updated : (ℕ → Client) → ℕ → Client → ℕ → Client
updated f id d j = if j == id then d else f j

abbrev pub is_granted : Reply → Bool
is_granted ok = true
is_granted retry = false

-- A client that asks again is not to ask again once more.
abbrev pub untold : ℕ → Option ℕ → Option ℕ
untold id none = none
untold id (some j) = if j == id then none else some j

-- A thread of a client makes a step on its own, or has its call of `release` fail before the server
-- took it; or the server handles an `acquire` or a `release` of a client, or its call of `retry`
-- reaches a client.
pub data Move (g : Cluster) : Cluster → Type 0 where
  works :
      (id : ℕ) (d : Client)
      → Threads.Step (g.client id) silent d
      → Move g (record g { client = updated g.client id d })
  acquires :
      (id : ℕ) (d : Client) (h : Handled)
      → id ≢ no_client
      → acquire id (some g.server.lock) ≡ ret h
      → Threads.Step (g.client id) (asks (is_granted h.reply)) d
      → Move g (record {
        server = record {
          lock = h.lock;
          holders = granted_to id h.reply g.server.holders;
          told = untold id g.server.told;
        };
        pending = g.pending;
        client = updated g.client id d;
      })
  releases :
      (id : ℕ) (d : Client)
      → Threads.Step (g.client id) gives d
      → Move g (record {
        server = record {
          lock = (release id g.server.lock).lock;
          holders = erase id g.server.holders;
          told = (release id g.server.lock).call;
        };
        pending = (release id g.server.lock).call;
        client = updated g.client id d;
      })
  loses_release :
      (id : ℕ) (d : Client)
      → Threads.Step (g.client id) loses d
      → Move g (record g { client = updated g.client id d })
  retries :
      (id : ℕ) (d : Client)
      → g.pending ≡ some id
      → Threads.Step (g.client id) hears d
      → Move g (record g { pending = none; client = updated g.client id d })

pub data Reaches : Cluster → Cluster → Type 0 where
  here : {g : Cluster} → Reaches g g
  onward : {a b c : Cluster} → Reaches a b → Move b c → Reaches a c

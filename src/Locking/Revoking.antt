-- ===== src/Locking/Revoking.antt =====
-- A revocation that a client of lock_client_cache.cc has taken, among the server and all clients:
-- it is obeyed as long as the server has the client as the holder of the lock.
use naive_file_system.Prelude.{ℕ, ◌≡◌, some}
use naive_file_system.LockClient.{revoke_handler}
use naive_file_system.LockClient.Threads.{Client, Label, gives, after}
use naive_file_system.LockClient.Threads
use naive_file_system.Locking.{Cluster, Move, works, acquires, releases, loses_release, retries}
use naive_file_system.Locking

-- The server takes a release of client `id`.
abbrev TakesFrom : ℕ → {g h : Cluster} → Move g h → Type 0
TakesFrom id (works k d t) = ⊥
TakesFrom id (acquires k d h n r t) = ⊥
TakesFrom id (releases k d t) = k ≡ id
TakesFrom id (loses_release k d t) = ⊥
TakesFrom id (retries k d p t) = ⊥

-- A run in which the server takes no release of client `id`.
pub data Keeps (id : ℕ) : Cluster → Cluster → Type 0 where
  here : {g : Cluster} → Keeps id g g
  onward : {a b c : Cluster} → Keeps id a b → (m : Move b c) → ¬ TakesFrom id m → Keeps id a c

-- The cluster after `revoke_handler` in thread `j` of client `id`.
abbrev pub revoked : Cluster → ℕ → ℕ → Client
revoked g id j =
    let c = g.client id in
    after c j (some (revoke_handler c.entry).0) (revoke_handler c.entry).1 c.progress

-- ===== src/LockServer/Release.antt =====
-- `release` of lock_server_cache.cc on a valid lock.
use naive_file_system.Prelude.{==_ne, ==_true, ℕ, ◌≡◌, ◌≢◌, refl, arith, none, some}
use naive_file_system.LockServer.{
  Status, free, locked, waiting, Lock, no_client, Released, front, release_held, release,
}
use naive_file_system.LockServer.Queue.{IsValid}

-- What `release` by the holder does to a valid lock.
pub record Releases (l : Lock) (r : Released) : Type 0 where
  pub valid : IsValid r.lock
  pub unheld : r.lock.client_id ≡ no_client
  pub queue : r.lock.client_q ≡ l.client_q
  pub called : l.status ≡ waiting → r.call ≡ some (front l.client_q)
  pub turn :
      (id : ℕ)
      → r.call ≡ some id
      → (r.lock.status ≡ waiting) × (front r.lock.client_q ≡ id) × (r.lock.client_id ≡ no_client)

-- A release by the holder keeps the lock valid, frees it for the front of the queue and calls that
-- client; a release by another client changes nothing and calls nobody.
pub release-Releases :
    (id : ℕ) (l : Lock)
    → IsValid l
    → (l.client_id ≡ id → Releases l (release id l))
      × (l.client_id ≢ id → release id l ≡ record { call = none; lock = l })
unfolding release
release-Releases id l v = (
  λ e. rw (==_true l.client_id id e) (by_status l.status refl),
  λ ne. rw (==_ne l.client_id id ne),
)
  where
    by_status : (s : Status) → l.status ≡ s → Releases l (release_held s l)
    by_status free e =
        unfold release_held in
        record { valid = v; unheld = v.unheld e; queue = refl; called = λ w. cc; turn = λ t w. cc }
    by_status locked e =
        unfold release_held in
        record {
          valid = record {
            queue = λ _. v.queue (λ w. cc);
            waits = λ w. cc;
            unheld = λ _. refl;
            held = λ w. cc;
            same = v.same;
            unique = v.unique;
            set = v.set;
          };
          unheld = refl;
          queue = refl;
          called = λ w. cc;
          turn = λ t w. cc;
        }
    by_status waiting e =
        unfold release_held in
        record {
          valid = record {
            queue = λ w. absurd (w e);
            waits = v.waits;
            unheld = λ _. refl;
            held = λ w. cc;
            same = v.same;
            unique = v.unique;
            set = v.set;
          };
          unheld = refl;
          queue = refl;
          called = λ _. refl;
          turn = λ t w. (e, ground arith, refl);
        }

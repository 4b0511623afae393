-- ===== src/Locking/Invariant.antt =====
-- The books of the server agree with the clients.
use naive_file_system.Prelude.{
  ℕ, ◌≡◌, ◌≢◌, sym, ap, ◌∙◌, arith, subst, Bool, true, false, none, some, ◌==◌, if◌then◌else◌,
  if_true, if_false, ==_refl, ==_eq, ==_ne, Bool-cases, inl, inr,
}
use naive_file_system.LockServer.{count}
use naive_file_system.LockServer.System.{Clients, granted_to, ask, again, give, Recorded}
use naive_file_system.LockServer.System
use naive_file_system.LockClient.{entry_at, giving, revoking}
use naive_file_system.LockClient.Threads.{
  Client, Known, Label, silent, asks, gives, hears, noted, grants, refuses, takes_back,
  takes_back_revoked, idle, Step-noted,
}
use naive_file_system.LockClient.Threads
use naive_file_system.LockClient.Safety
use naive_file_system.LockClient.System.{at_work_in, calling-Calls, Step-IsSafe}
use naive_file_system.Locking.{Cluster, updated}

-- The server and each client are safe by themselves; a client is in the queue just if the server
-- refused it, and among the holders just if the server has it as the holder; one that was told to
-- ask again is the one that the server told.
pub record IsSafe (g : Cluster) : Type 0 where
  pub server : System.IsSafe g.server
  pub client : (id : ℕ) → Safety.IsSafe (g.client id)
  pub queued : (id : ℕ) → count id g.server.lock.client_q ≡ (g.client id).known.refused_one
  pub holds : (id : ℕ) → count id g.server.holders ≡ (g.client id).known.owned
  pub heard :
      (id : ℕ)
      → (g.client id).known.heard ≡ true
      → (g.server.told ≡ some id) × (g.pending ≢ some id)
  pub called : (id : ℕ) → g.pending ≡ some id → g.server.told ≡ some id

-- A client that asks was told to if it waits in the queue.
pub asks-Calls :
    (c d : Client) (l : Label) (b : Bool)
    → l ≡ asks b
    → Threads.Step c l d
    → Safety.IsSafe c
    → c.known.refused_one ≡ true
    → c.known.heard ≡ true
asks-Calls c d l b e (grants i p g) s = (calling-Calls c i idle p g s).1
asks-Calls c d l b e (refuses i p g) s = (calling-Calls c i idle p g s).1
asks-Calls c d l b e t s = cc

-- A client that gives the lock back holds it.
pub gives-owned :
    (c d : Client) (l : Label)
    → l ≡ gives
    → Threads.Step c l d
    → Safety.IsSafe c
    → c.known.owned ≡ true
gives-owned c d l e (takes_back i p g) s =
    let f = at_work_in c i giving (λ b. b) p s in
    (subst (λ q. Safety.Gives q (entry_at c.entry).retry c.known) g f.2.1).1
gives-owned c d l e (takes_back_revoked i p g) s =
    let f = at_work_in c i revoking (λ b. b) p s in
    (subst (λ q. Safety.Gives q (entry_at c.entry).retry c.known) g f.2.1).1
gives-owned c d l e t s = cc

-- A property of all clients, shown for client `id` and for the others.
pub at_each : (P : ℕ → Type 0) (id : ℕ) → P id → ((j : ℕ) → j ≢ id → P j) → (j : ℕ) → P j
at_each P id p q j = elim (Bool-cases (j == id)) [
  | inl same ↦ subst P (sym (==_eq j id same)) p
  | inr other ↦ q j (λ f. ground arith)
]

-- What is known of the clients after a step of client `id`.
module _ (f : ℕ → Client) (id : ℕ) (d : Client) where
  pub known_at :
      (l : Label) → Threads.Step (f id) l d → (updated f id d id).known ≡ noted l (f id).known
  unfolding updated
  known_at l t = ap (λ c. c.known) (if_true (f id) (==_refl id)) ∙ Step-noted (f id) d l t

  pub known_other : (j : ℕ) → j ≢ id → (f j).known ≡ (updated f id d j).known
  unfolding updated
  known_other j ne = ap (λ c. c.known) (sym (if_false d (==_ne j id ne)))

pub updated-IsSafe :
    (f : ℕ → Client) (id : ℕ) (d : Client) (l : Label)
    → Threads.Step (f id) l d
    → ((j : ℕ) → Safety.IsSafe (f j))
    → (j : ℕ) → Safety.IsSafe (updated f id d j)
unfolding updated
updated-IsSafe f id d l t h j = by_test (j == id)
  where
    by_test : (b : Bool) → Safety.IsSafe (if b then d else f j)
    by_test true = Step-IsSafe (f id) d l t (h id)
    by_test false = h j

-- A step of a client that tells the server nothing, or that has a call of `release` fail.
pub unheard-IsSafe :
    (g : Cluster) (id : ℕ) (d : Client) (l : Label)
    → ((k : Known) → noted l k ≡ k)
    → Threads.Step (g.client id) l d
    → IsSafe g
    → IsSafe (record g { client = updated g.client id d })
unheard-IsSafe g id d l n t s = record {
  server = s.server;
  client = updated-IsSafe g.client id d l t s.client;
  queued = λ j. s.queued j ∙ ap (λ k. k.refused_one) (same j);
  holds = λ j. s.holds j ∙ ap (λ k. k.owned) (same j);
  heard = λ j e. s.heard j (ap (λ k. k.heard) (same j) ∙ e);
  called = s.called;
}
  where
    same : (j : ℕ) → (g.client j).known ≡ (updated g.client id d j).known
    same =
        at_each (λ j. (g.client j).known ≡ (updated g.client id d j).known) id
          (sym (known_at g.client id d l t ∙ n (g.client id).known)) (known_other g.client id d)

-- The server's call of `retry` reaches the client that it is meant for.
pub retries-IsSafe :
    (g : Cluster) (id : ℕ) (d : Client)
    → g.pending ≡ some id
    → Threads.Step (g.client id) hears d
    → IsSafe g
    → IsSafe (record g { pending = none; client = updated g.client id d })
retries-IsSafe g id d p t s = record {
  server = s.server;
  client = updated-IsSafe g.client id d hears t s.client;
  queued =
      at_each (λ j. count j g.server.lock.client_q ≡ (known j).refused_one) id
        (s.queued id ∙ ap (λ k. k.refused_one) (sym at_id))
        (λ j ne. s.queued j ∙ ap (λ k. k.refused_one) (other j ne));
  holds =
      at_each (λ j. count j g.server.holders ≡ (known j).owned) id
        (s.holds id ∙ ap (λ k. k.owned) (sym at_id))
        (λ j ne. s.holds j ∙ ap (λ k. k.owned) (other j ne));
  heard =
      at_each (λ j. (known j).heard ≡ true → (g.server.told ≡ some j) × (none ≢ some j)) id
        (λ e. (s.called id p, λ n. cc))
        (λ j ne e. ((s.heard j (ap (λ k. k.heard) (other j ne) ∙ e)).0, λ n. cc));
  called = λ j e. cc;
}
  where
    known : ℕ → Known
    known j = (updated g.client id d j).known

    at_id : known id ≡ record (g.client id).known { heard = true }
    at_id = unfold noted in known_at g.client id d hears t

    other : (j : ℕ) → j ≢ id → (g.client j).known ≡ known j
    other = known_other g.client id d

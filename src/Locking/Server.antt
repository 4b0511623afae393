-- ===== src/Locking/Server.antt =====
-- The handlers of lock_server_cache.cc keep the agreement of the server's books with the clients.
use naive_file_system.Prelude.{
  ℕ, ◌≡◌, ◌≢◌, refl, sym, ap, ◌∙◌, arith, subst, true, false, Option, none, some, if_true, if_false,
  ==_refl, ==_ne, Bool-cases, inl, inr,
}
use naive_file_system.Outcome.{ret}
use naive_file_system.LockServer.{no_client, count, Reply, ok, retry, Handled, acquire}
use naive_file_system.LockServer.Acquire.{Acquires}
use naive_file_system.LockServer.System.{
  Clients, granted_to, ask, again, give, Recorded, not_front, answered,
}
use naive_file_system.LockServer.System
use naive_file_system.LockClient.Threads.{Client, Known, Label, silent, asks, gives, hears, noted}
use naive_file_system.LockClient.Threads
use naive_file_system.Locking.{Cluster, updated, is_granted, untold}
use naive_file_system.Locking.Invariant.{
  IsSafe, asks-Calls, at_each, known_at, known_other, updated-IsSafe,
}

-- Whoever was told to ask again stands in the queue.
told-refused :
    (g : Cluster) (id : ℕ)
    → IsSafe g
    → g.server.told ≡ some id
    → (g.client id).known.refused_one ≡ true
told-refused g id s t = elim (Bool-cases (g.client id).known.refused_one) [
  | inl there ↦ there
  | inr absent ↦
      let turn = s.server.turn id t in
      absurd (
        not_front id g.server.lock.client_q (s.queued id ∙ absent) (s.server.valid.waits turn.0)
          turn.1)
]

untold_other : (id : ℕ) (t : Option ℕ) → t ≢ some id → untold id t ≡ t
untold_other id none ne = refl
untold_other id (some j) ne = if_false none (==_ne j id (λ e. ne (ap some e)))

untold_self : (id : ℕ) → untold id (some id) ≡ none
untold_self id = if_true (some id) (==_refl id)

some_inj : {i j : ℕ} → some i ≡ some j → i ≡ j
some_inj e = cc

-- The server's own steps: a client that was not refused before asks for the first time.
asked-IsSafe :
    (g : Cluster) (id : ℕ) (h : Handled)
    → id ≢ no_client
    → acquire id (some g.server.lock) ≡ ret h
    → ((g.client id).known.refused_one ≡ true → (g.client id).known.heard ≡ true)
    → IsSafe g
    → System.IsSafe (record {
      lock = h.lock;
      holders = granted_to id h.reply g.server.holders;
      told = untold id g.server.told;
    })
asked-IsSafe g id h named run told_again s = elim (Bool-cases (g.client id).known.refused_one) [
  | inl before ↦
      let t = (s.heard id (told_again before)).0 in
      subst
        (λ o.
          System.IsSafe
            (record { lock = h.lock; holders = granted_to id h.reply g.server.holders; told = o }))
        (sym (ap (untold id) t ∙ untold_self id))
        (System.Step-IsSafe g.server _ (again {c = g.server} id h named t run) s.server)
  | inr first ↦
      let ne : g.server.told ≢ some id = λ t. absurd (differ (sym first ∙ told-refused g id s t)) in
      subst
        (λ o.
          System.IsSafe
            (record { lock = h.lock; holders = granted_to id h.reply g.server.holders; told = o }))
        (sym (untold_other id g.server.told ne))
        (System.Step-IsSafe g.server _ (ask {c = g.server} id h named (s.queued id ∙ first) run)
          s.server)
]
  where
    differ : false ≡ true → ⊥
    differ e = cc

pub acquires-IsSafe :
    (g : Cluster) (id : ℕ) (d : Client) (h : Handled)
    → id ≢ no_client
    → acquire id (some g.server.lock) ≡ ret h
    → Threads.Step (g.client id) (asks (is_granted h.reply)) d
    → IsSafe g
    → IsSafe (record {
      server = record {
        lock = h.lock;
        holders = granted_to id h.reply g.server.holders;
        told = untold id g.server.told;
      };
      pending = g.pending;
      client = updated g.client id d;
    })
acquires-IsSafe g id d h named run t s = record {
  server = asked-IsSafe g id h named run c s;
  client = updated-IsSafe g.client id d (asks (is_granted h.reply)) t s.client;
  queued =
      at_each (λ j. count j h.lock.client_q ≡ (known j).refused_one) id
        (queued_at h.reply refl ∙ ap (λ k. k.refused_one) (sym at_id))
        (λ j ne. a.others j ne ∙ s.queued j ∙ ap (λ k. k.refused_one) (other j ne));
  holds =
      at_each (λ j. count j (granted_to id h.reply g.server.holders) ≡ (known j).owned) id
        (holds_at h.reply ∙ ap (λ k. k.owned) (sym at_id))
        (λ j ne. holds_other h.reply j ne ∙ s.holds j ∙ ap (λ k. k.owned) (other j ne));
  heard =
      at_each
        (λ j. (known j).heard ≡ true → (untold id g.server.told ≡ some j) × (g.pending ≢ some j)) id
        (λ e. absurd (unheard h.reply (sym (ap (λ k. k.heard) at_id) ∙ e)))
        (λ j ne e. let k = s.heard j (ap (λ k. k.heard) (other j ne) ∙ e) in (still j ne k.0, k.1));
  called =
      at_each (λ j. g.pending ≡ some j → untold id g.server.told ≡ some j) id
        (λ p. absurd ((s.heard id (c (told-refused g id s (s.called id p)))).1 p))
        (λ j ne p. still j ne (s.called j p));
}
  where
    c : (g.client id).known.refused_one ≡ true → (g.client id).known.heard ≡ true
    c =
        asks-Calls (g.client id) d (asks (is_granted h.reply)) (is_granted h.reply) refl t
          (s.client id)

    a : Acquires id g.server.lock h
    a = answered id h g.server named s.server run

    known : ℕ → Known
    known j = (updated g.client id d j).known

    at_id : known id ≡ noted (asks (is_granted h.reply)) (g.client id).known
    at_id = known_at g.client id d (asks (is_granted h.reply)) t

    other : (j : ℕ) → j ≢ id → (g.client j).known ≡ known j
    other = known_other g.client id d

    still : (j : ℕ) → j ≢ id → g.server.told ≡ some j → untold id g.server.told ≡ some j
    still j ne e = untold_other id g.server.told (λ f. ne (some_inj (sym e ∙ f))) ∙ e

    queued_at :
        (y : Reply)
        → h.reply ≡ y
        → count id h.lock.client_q ≡ (noted (asks (is_granted y)) (g.client id).known).refused_one
    queued_at ok e = unfold noted in a.left e
    queued_at retry e = unfold noted in (a.refused e).2

    holds_at :
        (y : Reply)
        → count id (granted_to id y g.server.holders)
          ≡ (noted (asks (is_granted y)) (g.client id).known).owned
    holds_at ok = unfold noted in unfold granted_to in unfold count in ground arith
    holds_at retry = unfold noted in unfold granted_to in s.holds id

    holds_other :
        (y : Reply) (j : ℕ)
        → j ≢ id
        → count j (granted_to id y g.server.holders) ≡ count j g.server.holders
    holds_other ok j ne = unfold granted_to in unfold count in ground arith
    holds_other retry j ne = unfold granted_to in refl

    unheard : (y : Reply) → (noted (asks (is_granted y)) (g.client id).known).heard ≡ true → ⊥
    unheard ok e = unfold noted in cc
    unheard retry e = unfold noted in cc

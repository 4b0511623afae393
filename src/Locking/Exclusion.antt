-- ===== src/Locking/Exclusion.antt =====
-- At most one thread of all the clients holds a lock, with lock_server_cache.cc and
-- lock_client_cache.cc working together.
use naive_file_system.Prelude.{
  ℕ, ◌≡◌, ◌≢◌, refl, sym, ap, ◌∙◌, arith, subst, true, false, some, List, [], ◌∷◌, if_true, ==_refl,
}
use naive_file_system.LockServer.{no_client, count, erase, release}
use naive_file_system.LockServer.Release.{Releases, release-Releases}
use naive_file_system.LockServer.System.{Clients, give, Recorded}
use naive_file_system.LockServer.System
use naive_file_system.LockClient.{holding}
use naive_file_system.LockClient.Threads.{Client, Known, silent, asks, gives, hears, loses, noted}
use naive_file_system.LockClient.Threads
use naive_file_system.LockClient.System.{holder_lem}
use naive_file_system.Locking.{
  Cluster, updated, Move, works, acquires, releases, loses_release, retries, Reaches, here, onward,
}
use naive_file_system.Locking.Invariant.{
  IsSafe, gives-owned, at_each, known_at, known_other, updated-IsSafe, unheard-IsSafe,
  retries-IsSafe,
}
use naive_file_system.Locking.Server.{acquires-IsSafe}

-- A client among the holders is the only one, and the lock names it.
only_holder :
    (id named : ℕ) (hs : List ℕ)
    → count id hs ≡ true
    → Recorded named hs
    → (hs ≡ id ∷ []) × (named ≡ id) × (id ≢ no_client)
unfolding count
only_holder id named [] e r = cc
only_holder id named (x ∷ hs) e r =
    let alone : count id hs ≡ false = ap (count id) r.2 in
    let same : x ≡ id = ground arith in
    ((λ i. same i ∷ r.2 i), sym r.0 ∙ same, subst (λ y. y ≢ no_client) same r.1)

module _ (g : Cluster) (id : ℕ) (s : IsSafe g) (owned : (g.client id).known.owned ≡ true) where
  pub holder : (g.server.holders ≡ id ∷ []) × (g.server.lock.client_id ≡ id) × (id ≢ no_client)
  holder =
      only_holder id g.server.lock.client_id g.server.holders (s.holds id ∙ owned) s.server.recorded

  -- While a client holds the lock nobody was told to ask again.
  pub none_told : (j : ℕ) → g.server.told ≢ some j
  none_told j t = holder.2 (sym holder.1 ∙ (s.server.turn j t).2)

releases-IsSafe :
    (g : Cluster) (id : ℕ) (d : Client)
    → Threads.Step (g.client id) gives d
    → IsSafe g
    → IsSafe (record {
      server = record {
        lock = (release id g.server.lock).lock;
        holders = erase id g.server.holders;
        told = (release id g.server.lock).call;
      };
      pending = (release id g.server.lock).call;
      client = updated g.client id d;
    })
releases-IsSafe g id d t s = record {
  server =
      subst
        (λ hs. System.IsSafe (record {
          lock = (release id g.server.lock).lock;
          holders = hs;
          told = (release id g.server.lock).call;
        }))
        (sym emptied) (System.Step-IsSafe g.server _ (give {c = g.server} id own.0) s.server);
  client = updated-IsSafe g.client id d gives t s.client;
  queued =
      at_each (λ j. count j (release id g.server.lock).lock.client_q ≡ (known j).refused_one) id
        (ap (count id) r.queue ∙ s.queued id ∙ ap (λ k. k.refused_one) (sym at_id))
        (λ j ne. ap (count j) r.queue ∙ s.queued j ∙ ap (λ k. k.refused_one) (other j ne));
  holds =
      at_each (λ j. count j (erase id g.server.holders) ≡ (known j).owned) id
        (ap (count id) emptied ∙ (unfold count in ap (λ k. k.owned) (sym at_id)))
        (λ j ne.
          ap (count j) emptied
          ∙ nobody j ne
          ∙ ap (count j) (sym own.0)
          ∙ s.holds j
          ∙ ap (λ k. k.owned) (other j ne));
  heard =
      at_each
        (λ j.
          (known j).heard ≡ true
          → ((release id g.server.lock).call ≡ some j) × ((release id g.server.lock).call ≢ some j))
        id
        (λ e. absurd (none_told g id s owned id (s.heard id (ap (λ k. k.heard) (sym at_id) ∙ e)).0))
        (λ j ne e.
          absurd (none_told g id s owned j (s.heard j (ap (λ k. k.heard) (other j ne) ∙ e)).0));
  called = λ j e. e;
}
  where
    owned : (g.client id).known.owned ≡ true
    owned = gives-owned (g.client id) d gives refl t (s.client id)

    own : (g.server.holders ≡ id ∷ []) × (g.server.lock.client_id ≡ id) × (id ≢ no_client)
    own = holder g id s owned

    r : Releases g.server.lock (release id g.server.lock)
    r = (release-Releases id g.server.lock s.server.valid).0 own.1

    emptied : erase id g.server.holders ≡ []
    emptied = ap (erase id) own.0 ∙ (unfold erase in if_true (id ∷ []) (==_refl id))

    nobody : (j : ℕ) → j ≢ id → count j [] ≡ count j (id ∷ [])
    nobody j ne = unfold count in ground arith

    known : ℕ → Known
    known j = (updated g.client id d j).known

    at_id : known id ≡ record (g.client id).known { owned = false }
    at_id = unfold noted in known_at g.client id d gives t

    other : (j : ℕ) → j ≢ id → (g.client j).known ≡ known j
    other = known_other g.client id d

Move-IsSafe : (g h : Cluster) → Move g h → IsSafe g → IsSafe h
Move-IsSafe g k (works id d t) s = unheard-IsSafe g id d silent (unfold noted in λ k. refl) t s
Move-IsSafe g k (loses_release id d t) s =
    unheard-IsSafe g id d loses (unfold noted in λ k. refl) t s
Move-IsSafe g k (acquires id d h named run t) s = acquires-IsSafe g id d h named run t s
Move-IsSafe g k (releases id d t) s = releases-IsSafe g id d t s
Move-IsSafe g k (retries id d p t) s = retries-IsSafe g id d p t s

pub Reaches-IsSafe : (a b : Cluster) → Reaches a b → IsSafe a → IsSafe b
Reaches-IsSafe a b here s = s
Reaches-IsSafe a c (onward {b = b} r m) s = Move-IsSafe b c m (Reaches-IsSafe a b r s)

-- In every state that the server and its clients reach from a safe one, all threads of all clients
-- that hold the lock are one thread of one client.
pub one_thread :
    (a b : Cluster) (id id' i j : ℕ)
    → IsSafe a
    → Reaches a b
    → (b.client id).stands i ≡ holding
    → (b.client id').stands j ≡ holding
    → (id' ≡ id) × (j ≡ i)
one_thread a b id id' i j safe r e f =
    let s = Reaches-IsSafe a b r safe in
    let h = holder_lem (b.client id) i j (s.client id) e in
    let h' = holder_lem (b.client id') j i (s.client id') f in
    let same : id' ≡ id = sym (holder b id' s h'.0).1 ∙ (holder b id s h.0).1 in
    (same, h.1 (ap (λ n. (b.client n).stands j) (sym same) ∙ f))

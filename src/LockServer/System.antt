-- ===== src/LockServer/System.antt =====
-- One lock of lock_server_cache.cc and its clients as a system of steps, in which clients keep to
-- the protocol of lock_client_cache.cc: a client does not ask for a lock that it holds or waits
-- for, asks again when it was told to, and releases only what it holds.
use naive_file_system.Prelude.{
  subst, ℕ, ◌≡◌, ◌≢◌, refl, sym, ap, ◌∙◌, arith, false, Option, none, some, List, [], ◌∷◌, ◌⊎◌, inl,
  inr,
}
use naive_file_system.Outcome.{ret, Returns}
use naive_file_system.LockServer.{
  free, waiting, Lock, no_client, count, Reply, ok, retry, Handled, acquire, front, release,
}
use naive_file_system.LockServer.Queue.{IsValid}
use naive_file_system.LockServer.Acquire.{Acquires, acquire-Acquires}
use naive_file_system.LockServer.Release.{Releases, release-Releases}

-- The lock, the clients that hold it, and the client that was told to ask again.
pub record Clients : Type 0 where
  pub lock : Lock
  pub holders : List ℕ
  pub told : Option ℕ

-- A client is added to the holders when the answer is `OK`.
unfoldable pub granted_to : ℕ → Reply → List ℕ → List ℕ
granted_to id ok hs = id ∷ hs
granted_to id retry hs = hs

-- The steps: a client that does not wait for the lock asks for it, also one that the server has as
-- the holder, whose call of `release` failed; the client that was told to asks again; a holder
-- releases the lock.
pub data Step : Clients → Clients → Type 0 where
  ask :
      {c : Clients}
      → (id : ℕ) → (h : Handled) → id ≢ no_client
      → count id c.lock.client_q ≡ false
      → acquire id (some c.lock) ≡ ret h
      → Step c (record { lock = h.lock; holders = granted_to id h.reply c.holders; told = c.told })
  again :
      {c : Clients}
      → (id : ℕ) → (h : Handled) → id ≢ no_client
      → c.told ≡ some id
      → acquire id (some c.lock) ≡ ret h
      → Step c (record { lock = h.lock; holders = granted_to id h.reply c.holders; told = none })
  give :
      {c : Clients}
      → (id : ℕ) → c.holders ≡ id ∷ []
      → Step c (record {
        lock = (release id c.lock).lock;
        holders = [];
        told = (release id c.lock).call;
      })

pub data Reaches : Clients → Clients → Type 0 where
  here : {c : Clients} → Reaches c c
  onward : {a b c : Clients} → Reaches a b → Step b c → Reaches a c

-- The holders are those that the lock records: nobody, or the client that it names.
abbrev pub Recorded : ℕ → List ℕ → Type 0
Recorded id [] = id ≡ no_client
Recorded id (x ∷ hs) = (x ≡ id) × (x ≢ no_client) × (hs ≡ [])

-- The lock is valid and knows its holder; whoever was told to ask again heads the queue while
-- nobody holds the lock.
pub record IsSafe (c : Clients) : Type 0 where
  pub valid : IsValid c.lock
  pub recorded : Recorded c.lock.client_id c.holders
  pub turn :
      (id : ℕ)
      → c.told ≡ some id
      → (c.lock.status ≡ waiting) × (front c.lock.client_q ≡ id) × (c.lock.client_id ≡ no_client)

nobody_holds : (hs : List ℕ) → Recorded no_client hs → hs ≡ []
nobody_holds [] r = refl
nobody_holds (x ∷ hs) r = absurd (r.1 r.0)

pub not_front : (id : ℕ) (q : List ℕ) → count id q ≡ false → q ≢ [] → front q ≢ id
unfolding count
not_front id [] no_id ne f = ne refl
not_front id (x ∷ q) no_id ne f = ground arith

front-cons : (x : ℕ) (q : List ℕ) → q ≢ [] → front q ≡ x → (rest : List ℕ) × (q ≡ x ∷ rest)
front-cons x [] ne f = absurd (ne refl)
front-cons x (y ∷ q) ne f = (q, ap (λ z. z ∷ q) f)

-- The holders after an answer: the client alone if nobody held the lock, else those before.
granted-Recorded :
    (id : ℕ) (l : Lock) (h : Handled) (hs : List ℕ)
    → id ≢ no_client
    → Acquires id l h
    → (h.reply ≡ ok → l.client_id ≡ no_client)
    → Recorded l.client_id hs
    → Recorded h.lock.client_id (granted_to id h.reply hs)
unfolding granted_to
granted-Recorded id l h hs named a unheld r = by_reply h.reply refl
  where
    by_reply : (y : Reply) → h.reply ≡ y → Recorded h.lock.client_id (granted_to id y hs)
    by_reply ok e =
        (sym (a.granted e).0, named, nobody_holds hs (subst (λ i. Recorded i hs) (unheld e) r))
    by_reply retry e = subst (λ i. Recorded i hs) (sym (a.refused e).0) r

ask-IsSafe :
    (c : Clients) (id : ℕ) (h : Handled)
    → id ≢ no_client
    → count id c.lock.client_q ≡ false
    → IsSafe c
    → Acquires id c.lock h
    → IsSafe (record { lock = h.lock; holders = granted_to id h.reply c.holders; told = c.told })
ask-IsSafe c id h named no_id s a = record {
  valid = a.valid;
  recorded =
      granted-Recorded id c.lock h c.holders named a (λ e. unheld (a.granted e).1) s.recorded;
  turn = λ t e. kept t (s.turn t e) h.reply refl;
}
  where
    unheld :
        (c.lock.status ≡ free) ⊎ ((c.lock.status ≡ waiting) × (front c.lock.client_q ≡ id))
        → c.lock.client_id ≡ no_client
    unheld (inl f) = s.valid.unheld f
    unheld (inr w) = absurd (not_front id c.lock.client_q no_id (s.valid.waits w.0) w.1)

    refuses :
        c.lock.status ≡ waiting
        → (c.lock.status ≡ free) ⊎ ((c.lock.status ≡ waiting) × (front c.lock.client_q ≡ id))
        → ⊥
    refuses w (inl f) = cc
    refuses w (inr v) = not_front id c.lock.client_q no_id (s.valid.waits w) v.1

    kept :
        (t : ℕ)
        → (c.lock.status ≡ waiting) × (front c.lock.client_q ≡ t) × (c.lock.client_id ≡ no_client)
        → (y : Reply) → h.reply ≡ y
        → (h.lock.status ≡ waiting) × (front h.lock.client_q ≡ t) × (h.lock.client_id ≡ no_client)
    kept t (w, f, u) ok e = absurd (refuses w (a.granted e).1)
    kept t (w, f, u) retry e =
        let q : (rest : List ℕ) × (c.lock.client_q ≡ t ∷ rest) =
          front-cons t c.lock.client_q (s.valid.waits w) f in
        ((a.refused e).1, a.fifo e t q.0 q.1, (a.refused e).0 ∙ u)

again-IsSafe :
    (c : Clients) (id : ℕ) (h : Handled)
    → id ≢ no_client
    → c.told ≡ some id
    → IsSafe c
    → Acquires id c.lock h
    → IsSafe (record { lock = h.lock; holders = granted_to id h.reply c.holders; told = none })
again-IsSafe c id h named told s a = record {
  valid = a.valid;
  recorded = granted-Recorded id c.lock h c.holders named a (λ _. (s.turn id told).2) s.recorded;
  turn = λ t e. cc;
}

give-IsSafe :
    (c : Clients) (id : ℕ)
    → c.holders ≡ id ∷ []
    → IsSafe c
    → IsSafe
        (record { lock = (release id c.lock).lock; holders = []; told = (release id c.lock).call })
give-IsSafe c id held s =
    let r : (id ≡ c.lock.client_id) × (id ≢ no_client) × ([] ≡ []) =
      subst (Recorded c.lock.client_id) held s.recorded in
    let g : Releases c.lock (release id c.lock) =
      (release-Releases id c.lock s.valid).0 (sym r.0) in
    record { valid = g.valid; recorded = g.unheld; turn = λ t e. g.turn t e }

ret-injective : {a b : Handled} → ret a ≡ ret b → a ≡ b
ret-injective e = cc

pub answered :
    (id : ℕ) (h : Handled) (c : Clients)
    → id ≢ no_client
    → IsSafe c
    → acquire id (some c.lock) ≡ ret h
    → Acquires id c.lock h
answered id h c named s e =
    let a : Returns (acquire id (some c.lock)) (Acquires id c.lock) =
      acquire-Acquires id c.lock named s.valid in
    subst (Acquires id c.lock) (ret-injective (sym a.1 ∙ e)) a.2

pub Step-IsSafe : (a b : Clients) → Step a b → IsSafe a → IsSafe b
Step-IsSafe c b (ask id h named no_id e) s =
    ask-IsSafe c id h named no_id s (answered id h c named s e)
Step-IsSafe c b (again id h named told e) s =
    again-IsSafe c id h named told s (answered id h c named s e)
Step-IsSafe c b (give id held) s = give-IsSafe c id held s

-- In every state that a safe one reaches, the lock is valid, at most one client holds it, and the
-- lock names that client.
pub Reaches-IsSafe : (a b : Clients) → Reaches a b → IsSafe a → IsSafe b
Reaches-IsSafe a b here s = s
Reaches-IsSafe a c (onward {b = b} r t) s = Step-IsSafe b c t (Reaches-IsSafe a b r s)

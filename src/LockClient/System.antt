-- ===== src/LockClient/System.antt =====
-- In every state of the threads of a client of lock_client_cache.cc, one thread at most holds the
-- lock, and then the server has the client as the holder.
use naive_file_system.Prelude.{
  ℕ, ◌≡◌, refl, sym, arith, subst, true, false, Bool, Option, none, some, ◌==◌, ==_eq, Bool-cases,
  inl, inr,
}
use naive_file_system.LockClient.{
  Entry, entry_at, Stands, outside, waiting, calling, told, holding, giving, revoking, acquire,
  given, await, answered, release_entry, release, revoke_handler, retry_handler,
}
use naive_file_system.LockClient.Threads
use naive_file_system.LockClient.Threads.{
  hears, Known, Label, Progress, idle, answering_ok, answering_retry, Client, moved, Step, Reaches,
  here, noted, onward, acquires, wakes, grants, refuses, returns_ok, returns_retry, fails,
  retries_early, retries, retried, releases, revokes, takes_back, takes_back_revoked, returns_given,
  returns_revoked, fails_given, fails_revoked, after,
}
use naive_file_system.LockClient.Safety.{
  IsPassive, Works, Calls, Gives, Phase, quiet, busy, Fits, FitsIn, IsSafe, at_work,
}
use naive_file_system.LockClient.Segments.{
  Alone, FitsAfter, request-FitsAfter, recheck-FitsAfter, await-FitsAfter, granted-FitsAfter,
  release-FitsAfter, given-FitsAfter, revoke-FitsAfter,
}

-- The phase of the thread that makes a step.
pub at_work_in :
    (c : Client) (i : ℕ) (p : Stands)
    → (IsPassive p → ⊥)
    → c.stands i ≡ p
    → IsSafe c
    → FitsIn (busy i p) c
at_work_in c i p n e (ph, h) =
    at_work ph i p (entry_at c.entry).status (entry_at c.entry).retry c.stands c.progress c.known n
      e h

pub calling-Calls :
    (c : Client) (i : ℕ) (g : Progress)
    → c.stands i ≡ calling
    → c.progress ≡ g
    → IsSafe c
    → Calls g (entry_at c.entry).retry c.known
calling-Calls c i g e f s =
    subst (λ q. Calls q (entry_at c.entry).retry c.known) f
      (at_work_in c i calling (λ b. b) e s).2.1

is_passive :
    (c : Client) (i : ℕ) (p : Stands) → IsPassive p → c.stands i ≡ p → IsPassive (c.stands i)
is_passive c i p h e = subst IsPassive (sym e) h

release-IsSafe :
    (c : Client) (i : ℕ)
    → FitsIn (busy i holding) c
    → IsSafe (record {
      entry = (release c.entry).0;
      stands = moved c.stands i (release c.entry).1;
      progress = c.progress;
      known = c.known;
    })
unfolding release
release-IsSafe c i f = by_entry c.entry f
  where
    by_entry :
        (o : Option Entry)
        → Fits (busy i holding) (entry_at o).status (entry_at o).retry c.stands c.progress c.known
        → IsSafe (record {
          entry = (release o).0;
          stands = moved c.stands i (release o).1;
          progress = c.progress;
          known = c.known;
        })
    by_entry none f = elim f.2.0 [ inl e ↦ cc | inr e ↦ cc ]
    by_entry (some e) f =
        subst (λ g. FitsAfter i (release_entry e) c.stands g c.known) (sym f.2.1)
          (release-FitsAfter i e c.stands c.known f.1 f.2.0 (f.2.2, f.2.3, f.2.4))

-- The flag `retry` may be set while the server's answer `RETRY` is on the way.
heard_early :
    (ph : Phase) (e : Entry) (st : ℕ → Stands) (g : Progress) (k : Known)
    → g ≡ answering_retry
    → Fits ph e.status e.retry st g k
    → Fits ph e.status true st g (noted hears k)
unfolding noted
heard_early quiet e st g k a h = cc
heard_early (busy i p) e st g k a h = (h.0, h.1, early p h.2)
  where
    early : (p : Stands) → Works p e.status e.retry g k → Works p e.status true g (noted hears k)
    early outside w = w
    early waiting w = w
    early calling w =
        let c = subst (λ f. Calls f e.retry k) a w.1 in
        (w.0, subst (λ f. Calls f true (noted hears k)) (sym a) (c.0, λ _. refl))
    early told w = cc
    early holding w = cc
    early giving w = absurd (subst (λ f. Gives f e.retry k) a w.1)
    early revoking w = absurd (subst (λ f. Gives f e.retry k) a w.1)

-- The call of the server's `release` has ended, in whatever way.
given-IsSafe :
    (c : Client) (i : ℕ)
    → Alone i c.stands
    → Gives c.progress (entry_at c.entry).retry c.known
    → IsSafe (after c i (some (given (entry_at c.entry)).0) (given (entry_at c.entry)).1 idle)
given-IsSafe c i alone w =
    let q = unasked c.progress (entry_at c.entry).retry c.known w in
    given-FitsAfter i (entry_at c.entry) c.stands c.known alone q.0 q.1
  where
    unasked :
        (g : Progress) (r : Bool) (k : Known) → Gives g r k → (r ≡ false) × (k.refused_one ≡ false)
    unasked idle r k w = (w.0, w.2)
    unasked answering_ok r k w = absurd w
    unasked answering_retry r k w = absurd w
    unasked Threads.released r k w = (w.0, w.2)

-- Every step keeps the agreement of the entry, the threads and the server.
pub Step-IsSafe : (c d : Client) (l : Label) → Step c l d → IsSafe c → IsSafe d
unfolding acquire answered revoke_handler retry_handler noted
Step-IsSafe c d l (acquires i e) (ph, h) =
    recheck-FitsAfter i (entry_at c.entry) ph c.stands c.progress c.known
      (is_passive c i outside tt e) h
Step-IsSafe c d l (wakes i e) (ph, h) =
    recheck-FitsAfter i (entry_at c.entry) ph c.stands c.progress c.known
      (is_passive c i waiting tt e) h
Step-IsSafe c d l (grants i e g) s =
    let f = at_work_in c i calling (λ b. b) e s in
    let k = calling-Calls c i idle e g s in (busy i calling, (f.0, f.1, (f.2.0, (k.0, refl, refl))))
Step-IsSafe c d l (refuses i e g) s =
    let f = at_work_in c i calling (λ b. b) e s in
    let k = calling-Calls c i idle e g s in (busy i calling, (f.0, f.1, (f.2.0, (refl, λ r. cc))))
Step-IsSafe c d l (returns_ok i e g) s =
    let f = at_work_in c i calling (λ b. b) e s in
    granted-FitsAfter i (entry_at c.entry) c.stands c.known f.1
      (calling-Calls c i answering_ok e g s)
Step-IsSafe c d l (returns_retry i e g) s =
    let f = at_work_in c i calling (λ b. b) e s in
    let k = calling-Calls c i answering_retry e g s in
    await-FitsAfter i (entry_at c.entry) c.stands c.known f.1 f.2.0 k.0 k.1
Step-IsSafe c d l (fails i e g) s =
    let f = at_work_in c i calling (λ b. b) e s in
    request-FitsAfter i (entry_at c.entry) c.stands c.known f.1 f.2.0 (calling-Calls c i idle e g s)
Step-IsSafe c d l (retries_early g) (ph, h) =
    (ph, heard_early ph (entry_at c.entry) c.stands c.progress c.known g h)
Step-IsSafe c d l (retries i e) s =
    let f = at_work_in c i told (λ b. b) e s in
    (busy i told, (f.0, f.1, (f.2.0, f.2.1, f.2.2, λ _. refl)))
Step-IsSafe c d l (retried i e) s =
    let f = at_work_in c i told (λ b. b) e s in
    subst (λ g. FitsAfter i (await (entry_at c.entry)) c.stands g c.known) (sym f.2.1)
      (await-FitsAfter i (entry_at c.entry) c.stands c.known f.1 f.2.0 f.2.2 f.2.3)
Step-IsSafe c d l (releases i e) s = release-IsSafe c i (at_work_in c i holding (λ b. b) e s)
Step-IsSafe c d l (revokes i e) (ph, h) =
    revoke-FitsAfter i (entry_at c.entry) ph c.stands c.progress c.known
      (is_passive c i outside tt e) h
Step-IsSafe c d l (takes_back i e g) s =
    let f = at_work_in c i giving (λ b. b) e s in
    let k = subst (λ q. Gives q (entry_at c.entry).retry c.known) g f.2.1 in
    (busy i giving, (f.0, f.1, (f.2.0, (k.0, refl, k.2))))
Step-IsSafe c d l (takes_back_revoked i e g) s =
    let f = at_work_in c i revoking (λ b. b) e s in
    let k = subst (λ q. Gives q (entry_at c.entry).retry c.known) g f.2.1 in
    (busy i revoking, (f.0, f.1, (f.2.0, (k.0, refl, k.2))))
Step-IsSafe c d l (returns_given i e g) s =
    let f = at_work_in c i giving (λ b. b) e s in given-IsSafe c i f.1 f.2.1
Step-IsSafe c d l (returns_revoked i e g) s =
    let f = at_work_in c i revoking (λ b. b) e s in given-IsSafe c i f.1 f.2.1
Step-IsSafe c d l (fails_given i e g) s =
    let f = at_work_in c i giving (λ b. b) e s in given-IsSafe c i f.1 f.2.1
Step-IsSafe c d l (fails_revoked i e g) s =
    let f = at_work_in c i revoking (λ b. b) e s in given-IsSafe c i f.1 f.2.1

-- What is known of a thread that holds the lock.
pub holder_lem :
    (c : Client) (i j : ℕ)
    → IsSafe c
    → c.stands i ≡ holding
    → (c.known.owned ≡ true) × (c.stands j ≡ holding → j ≡ i)
holder_lem c i j s e =
    let f = at_work_in c i holding (λ b. b) e s in
    (
      f.2.3,
      λ g. elim (Bool-cases (j == i)) [
        | inl same ↦ ==_eq j i same
        | inr other ↦ absurd (subst IsPassive g (f.1 j (λ h. ground arith)))
      ],
    )

-- In every state that the threads of a client reach, two threads that hold the lock are one, and
-- the server has the client as the holder.
pub one_holder :
    (a b : Client) (i j : ℕ)
    → IsSafe a
    → Reaches a b
    → b.stands i ≡ holding
    → (b.known.owned ≡ true) × (b.stands j ≡ holding → j ≡ i)
one_holder a b i j s r e = holder_lem b i j (Reaches-IsSafe a b r s) e
  where
    Reaches-IsSafe : (a b : Client) → Reaches a b → IsSafe a → IsSafe b
    Reaches-IsSafe a b here s = s
    Reaches-IsSafe a c (onward {b = b} {l = l} r t) s = Step-IsSafe b c l t (Reaches-IsSafe a b r s)

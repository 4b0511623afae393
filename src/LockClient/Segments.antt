-- ===== src/LockClient/Segments.antt =====
-- What each segment of lock_client_cache.cc does to the agreement between the entry, the threads and
-- the server.
use naive_file_system.Prelude.{
  ℕ, ◌≡◌, ◌≢◌, refl, sym, arith, subst, Bool, true, false, if◌then◌else◌, ◌⊎◌, inl, inr,
}
use naive_file_system.LockClient.{
  Status, unheld, free, locked, acquiring, releasing, Entry, Stands, outside, waiting, calling,
  told, holding, giving, revoking, request, recheck_status, recheck, await, granted, answered,
  release_status, release_entry, given, revoke_status,
}
use naive_file_system.LockClient.Threads.{Known, Progress, idle, answering_ok, moved}
use naive_file_system.LockClient.Safety.{
  IsPassive, Works, Calls, Gives, Phase, quiet, busy, Fits, starts, stops, stays,
}

-- Nobody is at work while the lock is not held or free.
pub nobody_works :
    (ph : Phase) (s : Status) (r : Bool) (st : ℕ → Stands) (g : Progress) (k : Known)
    → (s ≡ unheld) ⊎ (s ≡ free)
    → Fits ph s r st g k
    → Fits quiet s r st g k
nobody_works quiet s r st g k e h = h
nobody_works (busy i p) s r st g k e h = absurd (no_work p e h.2)
  where
    no_work : (p : Stands) → (s ≡ unheld) ⊎ (s ≡ free) → Works p s r g k → ⊥
    no_work outside e w = w
    no_work waiting e w = w
    no_work calling (inl f) w = cc
    no_work calling (inr f) w = cc
    no_work told (inl f) w = cc
    no_work told (inr f) w = cc
    no_work holding (inl f) w = ground arith
    no_work holding (inr f) w = ground arith
    no_work giving (inl f) w = elim w.0 [ inl u ↦ cc | inr u ↦ cc ]
    no_work giving (inr f) w = elim w.0 [ inl u ↦ cc | inr u ↦ cc ]
    no_work revoking (inl f) w = cc
    no_work revoking (inr f) w = cc

-- The entry and the place after a segment of thread `i` fit a phase.
abbrev pub FitsAfter : ℕ → Entry × Stands → (ℕ → Stands) → Progress → Known → Type 0
FitsAfter i q st g k = (ph : Phase) × Fits ph q.0.status q.0.retry (moved st i q.1) g k

-- All threads but `i` are outside or wait for their turn.
abbrev pub Alone : ℕ → (ℕ → Stands) → Type 0
Alone i st = (j : ℕ) → j ≢ i → IsPassive (st j)

pub request-FitsAfter :
    (i : ℕ) (e : Entry) (st : ℕ → Stands) (k : Known)
    → Alone i st
    → e.status ≡ acquiring
    → Calls idle e.retry k
    → FitsAfter i (request e) st idle k
unfolding request
request-FitsAfter i e st k h s c =
    subst (λ b. FitsAfter i (e, if b then holding else calling) st idle k) (sym c.0)
      (busy i calling, starts i calling e.status e.retry st idle k h (s, c))

pub recheck-FitsAfter :
    (i : ℕ) (e : Entry) (ph : Phase) (st : ℕ → Stands) (g : Progress) (k : Known)
    → IsPassive (st i)
    → Fits ph e.status e.retry st g k
    → FitsAfter i (recheck e) st g k
unfolding recheck
recheck-FitsAfter i e ph st g k p h = by_status e.status refl
  where
    by_status : (s : Status) → e.status ≡ s → FitsAfter i (recheck_status s e) st g k
    by_status unheld s =
        let q = nobody_works ph e.status e.retry st g k (inl s) h in
        subst (λ f. FitsAfter i (request (record e { status = acquiring })) st f k) (sym q.2)
          (request-FitsAfter i (record e { status = acquiring }) st k (λ j ne. q.0 j) refl
            (q.1, λ f. cc))
    by_status free s =
        let q = nobody_works ph e.status e.retry st g k (inr s) h in
        let owned : k.owned ≡ true = elim q.3.0 [ inl u ↦ cc | inr u ↦ u.1 ] in
        (
          busy i holding,
          starts i holding locked e.retry st g k (λ j ne. q.0 j) (inl refl, q.2, q.1, owned, q.3.1),
        )
    by_status locked s = (ph, stays ph i waiting e.status e.retry st g k p tt h)
    by_status acquiring s = (ph, stays ph i waiting e.status e.retry st g k p tt h)
    by_status releasing s = (ph, stays ph i waiting e.status e.retry st g k p tt h)

pub await-FitsAfter :
    (i : ℕ) (e : Entry) (st : ℕ → Stands) (k : Known)
    → Alone i st
    → e.status ≡ acquiring
    → k.refused_one ≡ true
    → (e.retry ≡ true → k.heard ≡ true)
    → FitsAfter i (await e) st idle k
unfolding await
await-FitsAfter i e st k h s r n = by_flag e.retry refl
  where
    by_flag :
        (b : Bool)
        → e.retry ≡ b
        → FitsAfter i (if b then request (record e { retry = false }) else (e, told)) st idle k
    by_flag true set = request-FitsAfter i (record e { retry = false }) st k h s (refl, λ _. n set)
    by_flag false unset = (busy i told, starts i told e.status e.retry st idle k h (s, refl, r, n))

pub granted-FitsAfter :
    (i : ℕ) (e : Entry) (st : ℕ → Stands) (k : Known)
    → Alone i st
    → Calls answering_ok e.retry k
    → FitsAfter i (answered granted e) st idle k
unfolding answered
granted-FitsAfter i e st k h c =
    (busy i holding, starts i holding locked e.retry st idle k h (inl refl, refl, c.0, c.1, c.2))

pub release-FitsAfter :
    (i : ℕ) (e : Entry) (st : ℕ → Stands) (k : Known)
    → Alone i st
    → (e.status ≡ locked) ⊎ (e.status ≡ releasing)
    → Gives idle e.retry k
    → FitsAfter i (release_entry e) st idle k
release-FitsAfter i e st k h s c = by_flag e.revoke
  where
    by_status :
        (e.status ≡ locked) ⊎ (e.status ≡ releasing)
        → FitsAfter i (release_status e.status e) st idle k
    by_status (inl l) =
        rw l (quiet, stops i outside free e.retry st k h tt c.0 (inr (refl, c.1), c.2))
    by_status (inr l) =
        rw l (busy i giving, starts i giving releasing e.retry st idle k h (inr refl, c))

    by_flag :
        (b : Bool)
        → FitsAfter i
            (if b then (record e { revoke = false }, giving) else release_status e.status e)
            st
            idle
            k
    by_flag true = (busy i giving, starts i giving e.status e.retry st idle k h (s, c))
    by_flag false = by_status s

pub given-FitsAfter :
    (i : ℕ) (e : Entry) (st : ℕ → Stands) (k : Known)
    → Alone i st
    → e.retry ≡ false
    → k.refused_one ≡ false
    → FitsAfter i (given e) st idle k
unfolding given
given-FitsAfter i e st k h r f = (quiet, stops i outside unheld e.retry st k h tt r (inl refl, f))

-- A revocation of a lock that a thread holds marks it; one of a free lock gives it back.
pub revoke-FitsAfter :
    (i : ℕ) (e : Entry) (ph : Phase) (st : ℕ → Stands) (g : Progress) (k : Known)
    → IsPassive (st i)
    → Fits ph e.status e.retry st g k
    → FitsAfter i (revoke_status e.status e) st g k
revoke-FitsAfter i e ph st g k p h = by_status e.status refl
  where
    still :
        (q : Stands)
        → e.status ≡ locked
        → Works q e.status e.retry g k
        → Works q releasing e.retry g k
    still outside s w = w
    still waiting s w = w
    still calling s w = cc
    still told s w = cc
    still holding s w = (inr refl, w.1, w.2, w.3, w.4)
    still giving s w = (inr refl, w.1)
    still revoking s w = cc

    marked :
        (ph : Phase)
        → e.status ≡ locked
        → Fits ph e.status e.retry st g k
        → Fits ph releasing e.retry st g k
    marked quiet s f = elim f.3.0 [ inl u ↦ cc | inr u ↦ cc ]
    marked (busy m q) s f = (f.0, f.1, still q s f.2)

    by_status : (s : Status) → e.status ≡ s → FitsAfter i (revoke_status s e) st g k
    by_status unheld s = (ph, stays ph i outside e.status e.retry st g k p tt h)
    by_status acquiring s = (ph, stays ph i outside e.status e.retry st g k p tt h)
    by_status releasing s = (ph, stays ph i outside e.status e.retry st g k p tt h)
    by_status free s =
        let q = nobody_works ph e.status e.retry st g k (inr s) h in
        let owned : k.owned ≡ true = elim q.3.0 [ inl u ↦ cc | inr u ↦ u.1 ] in
        (
          busy i revoking,
          starts i revoking releasing e.retry st g k (λ j ne. q.0 j)
              (refl, subst (λ f. Gives f e.retry k) (sym q.2) (q.1, owned, q.3.1)),
        )
    by_status locked s = (ph, stays ph i outside releasing e.retry st g k p tt (marked ph s h))

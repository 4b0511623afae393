-- ===== src/LockClient/Stuck.antt =====
-- A client of lock_client_cache.cc whose call of `release` has failed, while the server has it as the
-- holder still: nobody in it gets the lock unless the server grants it once more.
use naive_file_system.Prelude.{
  ℕ, ◌≡◌, ◌≢◌, refl, sym, arith, subst, true, false, ◌==◌, ==_eq, if◌then◌else◌, Bool-cases, some,
  ◌⊎◌, inl, inr,
}
use naive_file_system.LockClient.{
  Status, unheld, acquiring, Entry, entry_at, Stands, outside, waiting, calling, told, holding,
  giving, revoking, request, recheck, acquire, await, answered, given, revoke_handler,
  retry_handler,
}
use naive_file_system.LockClient.Threads.{
  idle, answering_ok, Client, Label, asks, moved, after, Step, acquires, wakes, grants, refuses,
  returns_ok, returns_retry, fails, retries_early, retries, retried, releases, revokes, takes_back,
  takes_back_revoked, returns_given, returns_revoked, fails_given, fails_revoked,
}
use naive_file_system.LockClient.Safety.{IsPassive, IsSafe, moved_self, moved_other}
use naive_file_system.LockClient.Segments.{nobody_works}
use naive_file_system.LockClient.System.{calling-Calls}

-- A thread that has not got the lock and does not give it back.
abbrev pub IsWithout : Stands → Type 0
IsWithout outside = Unit
IsWithout waiting = Unit
IsWithout calling = Unit
IsWithout told = Unit
IsWithout holding = ⊥
IsWithout giving = ⊥
IsWithout revoking = ⊥

abbrev pub IsUnowned : Status → Type 0
IsUnowned s = (s ≡ unheld) ⊎ (s ≡ acquiring)

abbrev pub IsStuck : Client → Type 0
IsStuck c =
    IsUnowned (entry_at c.entry).status
    × (c.progress ≢ answering_ok)
    × ((j : ℕ) → IsWithout (c.stands j))

abbrev LeavesStuck : Entry × Stands → Type 0
LeavesStuck q = IsUnowned q.0.status × IsWithout q.1

moved-IsWithout :
    (st : ℕ → Stands) (i : ℕ) (p : Stands)
    → IsWithout p
    → ((j : ℕ) → j ≢ i → IsWithout (st j))
    → (j : ℕ) → IsWithout (moved st i p j)
moved-IsWithout st i p h k j = elim (Bool-cases (j == i)) [
  | inl same ↦
      subst (λ n. IsWithout (moved st i p n)) (sym (==_eq j i same))
        (subst IsWithout (sym (moved_self st i p)) h)
  | inr other ↦
      let ne : j ≢ i = λ f. ground arith in subst IsWithout (sym (moved_other st i j p ne)) (k j ne)
]

recheck-LeavesStuck :
    (e : Entry)
    → IsUnowned e.status
    → (e.status ≡ unheld → e.retry ≡ false)
    → LeavesStuck (recheck e)
unfolding recheck request
recheck-LeavesStuck e (inl u) f = rw u (rw (f u) (inr refl, tt))
recheck-LeavesStuck e (inr a) f = rw a (inr refl, tt)

await-LeavesStuck : (e : Entry) → IsUnowned e.status → LeavesStuck (await e)
unfolding await request
await-LeavesStuck e h = elim (Bool-cases e.retry) [
  | inl set ↦ rw set (h, tt)
  | inr unset ↦ rw unset (h, tt)
]

-- Nobody is at work on a lock that is not held, and `retry` is not set.
unheld_quiet :
    (c : Client) → IsSafe c → (entry_at c.entry).status ≡ unheld → (entry_at c.entry).retry ≡ false
unheld_quiet c (ph, h) u =
    (nobody_works ph (entry_at c.entry).status (entry_at c.entry).retry c.stands c.progress c.known
      (inl u) h).1

passive-IsWithout : (p : Stands) → IsPassive p → IsWithout p
passive-IsWithout outside h = tt
passive-IsWithout waiting h = tt
passive-IsWithout calling h = tt
passive-IsWithout told h = tt
passive-IsWithout holding h = h
passive-IsWithout giving h = h
passive-IsWithout revoking h = h

-- The call of `release` fails.
pub failed-IsStuck :
    (c : Client) (i : ℕ)
    → ((j : ℕ) → j ≢ i → IsPassive (c.stands j))
    → IsStuck (after c i (some (given (entry_at c.entry)).0) (given (entry_at c.entry)).1 idle)
unfolding given
failed-IsStuck c i alone = (
  inl refl,
  λ e. cc,
  moved-IsWithout c.stands i outside tt (λ j ne. passive-IsWithout (c.stands j) (alone j ne)),
)

pub Step-IsStuck :
    (c d : Client) (l : Label) → Step c l d → l ≢ asks true → IsSafe c → IsStuck c → IsStuck d
unfolding acquire answered revoke_handler retry_handler request
Step-IsStuck c d l (acquires i e) n s (u, p, w) =
    let q = recheck-LeavesStuck (entry_at c.entry) u (unheld_quiet c s) in
    (q.0, p, moved-IsWithout c.stands i _ q.1 (λ j ne. w j))
Step-IsStuck c d l (wakes i e) n s (u, p, w) =
    let q = recheck-LeavesStuck (entry_at c.entry) u (unheld_quiet c s) in
    (q.0, p, moved-IsWithout c.stands i _ q.1 (λ j ne. w j))
Step-IsStuck c d l (grants i e g) n s h = absurd (n refl)
Step-IsStuck c d l (refuses i e g) n s (u, p, w) = (u, (λ f. cc), w)
Step-IsStuck c d l (returns_ok i e g) n s (u, p, w) = absurd (p g)
Step-IsStuck c d l (returns_retry i e g) n s (u, p, w) =
    let q = await-LeavesStuck (entry_at c.entry) u in
    (q.0, (λ f. cc), moved-IsWithout c.stands i _ q.1 (λ j ne. w j))
Step-IsStuck c d l (fails i e g) n s (u, p, w) =
    let r = (calling-Calls c i idle e g s).0 in
    (
      u,
      (λ f. cc),
      moved-IsWithout c.stands i _
          (subst (λ b. IsWithout (if b then holding else calling)) (sym r) tt) (λ j ne. w j),
    )
Step-IsStuck c d l (retries_early g) n s h = h
Step-IsStuck c d l (retries i e) n s h = h
Step-IsStuck c d l (retried i e) n s (u, p, w) =
    let q = await-LeavesStuck (entry_at c.entry) u in
    (q.0, p, moved-IsWithout c.stands i _ q.1 (λ j ne. w j))
Step-IsStuck c d l (releases i e) n s (u, p, w) = absurd (subst IsWithout e (w i))
Step-IsStuck c d l (revokes i e) n s (inl u, p, w) =
    rw u (inl u, p, moved-IsWithout c.stands i outside tt (λ j ne. w j))
Step-IsStuck c d l (revokes i e) n s (inr u, p, w) =
    rw u (inr u, p, moved-IsWithout c.stands i outside tt (λ j ne. w j))
Step-IsStuck c d l (takes_back i e g) n s (u, p, w) = absurd (subst IsWithout e (w i))
Step-IsStuck c d l (takes_back_revoked i e g) n s (u, p, w) = absurd (subst IsWithout e (w i))
Step-IsStuck c d l (returns_given i e g) n s (u, p, w) = absurd (subst IsWithout e (w i))
Step-IsStuck c d l (returns_revoked i e g) n s (u, p, w) = absurd (subst IsWithout e (w i))
Step-IsStuck c d l (fails_given i e g) n s (u, p, w) = absurd (subst IsWithout e (w i))
Step-IsStuck c d l (fails_revoked i e g) n s (u, p, w) = absurd (subst IsWithout e (w i))

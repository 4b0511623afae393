-- ===== src/LockClient/Revocation.antt =====
-- A revocation that lock_client_cache.cc takes is not lost: it is kept until the lock is given back.
use naive_file_system.Prelude.{
  ℕ, ◌≡◌, ◌≢◌, refl, sym, ap, ◌∙◌, arith, subst, Bool, true, false, Option, none, some, ◌==◌, ==_eq,
  Bool-cases, ◌⊎◌, inl, inr,
}
use naive_file_system.LockClient.{
  Status, unheld, free, locked, acquiring, releasing, Entry, entry_at, Stands, outside, waiting,
  calling, told, holding, giving, revoking, request, recheck_status, recheck, acquire, await,
  granted, answered, release_entry, release, revoke_status, revoke_handler, retry_handler,
}
use naive_file_system.LockClient.Threads.{
  fails_given, fails_revoked, loses, returns_revoked, returns_given, takes_back_revoked, takes_back,
  releases, retried, retries, retries_early, fails, returns_retry, returns_ok, refuses, grants,
  revokes, wakes, silent, acquires, idle, Client, Label, gives, after, moved, noted, Step, asks,
  hears, Step-noted, Known,
}
use naive_file_system.LockClient.Stuck.{IsStuck, IsWithout, failed-IsStuck, Step-IsStuck}
use naive_file_system.LockClient.Safety.{Gives, IsPassive, IsSafe, moved_self, moved_other}
use naive_file_system.LockClient.System.{at_work_in}

-- A revocation that the next release is to obey.
abbrev pub IsNoted : Entry → Type 0
IsNoted e = (e.revoke ≡ true) ⊎ (e.status ≡ releasing)

abbrev pub IsReturning : Stands → Type 0
IsReturning outside = ⊥
IsReturning waiting = ⊥
IsReturning calling = ⊥
IsReturning told = ⊥
IsReturning holding = ⊥
IsReturning giving = Unit
IsReturning revoking = Unit

-- The server has the client as the holder of the lock; it is to be given back or a thread is at it,
-- or a call of `release` has failed.
abbrev pub IsOwed : Client → Type 0
IsOwed c =
    (c.known.owned ≡ true)
    × ((IsNoted (entry_at c.entry) ⊎ ((i : ℕ) × IsReturning (c.stands i))) ⊎ IsStuck c)

-- What a segment makes of an entry with a revocation.
abbrev pub IsKept : Entry × Stands → Type 0
IsKept r = IsNoted r.0 ⊎ IsReturning r.1

pub revoke-IsNoted : (s : Status) (e : Entry) → IsNoted (revoke_status s e).0
revoke-IsNoted unheld e = inl refl
revoke-IsNoted free e = inr refl
revoke-IsNoted locked e = inr refl
revoke-IsNoted acquiring e = inl refl
revoke-IsNoted releasing e = inl refl

recheck-IsKept : (s : Status) (e : Entry) → e.status ≡ s → IsNoted e → IsKept (recheck_status s e)
unfolding request
recheck-IsKept unheld e p (inl n) = inl (inl n)
recheck-IsKept unheld e p (inr n) = cc
recheck-IsKept free e p (inl n) = inl (inl n)
recheck-IsKept free e p (inr n) = cc
recheck-IsKept locked e p n = inl n
recheck-IsKept acquiring e p n = inl n
recheck-IsKept releasing e p n = inl n

await-IsKept :
    (s : Status) (v r : Bool)
    → let e : Entry = record { status = s; revoke = v; retry = r } in IsNoted e → IsKept (await e)
unfolding await request
await-IsKept s v true n = inl n
await-IsKept s v false n = inl n

granted-IsKept : (e : Entry) → e.status ≡ acquiring → IsNoted e → IsKept (answered granted e)
unfolding answered
granted-IsKept e p (inl n) = inl (inl n)
granted-IsKept e p (inr n) = cc

-- A release with a revocation goes to the server.
release-giving :
    (s : Status) (v r : Bool)
    → let e : Entry = record { status = s; revoke = v; retry = r } in
      IsNoted e → (release_entry e).1 ≡ giving
release-giving s true r n = refl
release-giving s false r (inl n) = cc
release-giving unheld false r (inr n) = cc
release-giving free false r (inr n) = cc
release-giving locked false r (inr n) = cc
release-giving acquiring false r (inr n) = cc
release-giving releasing false r (inr n) = refl

pub noted-giving : (o : Option Entry) → IsNoted (entry_at o) → (release o).1 ≡ giving
unfolding release
noted-giving none (inl n) = cc
noted-giving none (inr n) = cc
noted-giving (some e) n = release-giving e.status e.revoke e.retry n

-- A thread that is not giving the lock back makes a segment.
moved-IsOwed :
    {Q : Type 0} (c : Client) (i : ℕ) (o : Option Entry) (q : Stands)
    → (IsReturning (c.stands i) → ⊥)
    → (IsNoted (entry_at c.entry) → IsNoted (entry_at o) ⊎ IsReturning q)
    → IsNoted (entry_at c.entry) ⊎ ((j : ℕ) × IsReturning (c.stands j))
    → (IsNoted (entry_at o) ⊎ ((j : ℕ) × IsReturning (moved c.stands i q j))) ⊎ Q
moved-IsOwed c i o q away keeps (inl n) = elim (keeps n) [
  | inl m ↦ inl (inl m)
  | inr m ↦ inl (inr (i, subst IsReturning (sym (moved_self c.stands i q)) m))
]
moved-IsOwed c i o q away keeps (inr (j, m)) = elim (Bool-cases (j == i)) [
  | inl same ↦ absurd (away (subst (λ n. IsReturning (c.stands n)) (==_eq j i same) m))
  | inr other ↦
      inl (inr (j, subst IsReturning (sym (moved_other c.stands i j q (λ h. ground arith))) m))
]

not_both : (p : Stands) → IsPassive p → IsReturning p → ⊥
not_both outside a m = m
not_both waiting a m = m
not_both calling a m = a
not_both told a m = a
not_both holding a m = a
not_both giving a m = a
not_both revoking a m = a

away :
    (c : Client) (i : ℕ) (p : Stands)
    → (IsReturning p → ⊥)
    → c.stands i ≡ p
    → IsReturning (c.stands i)
    → ⊥
away c i p n e m = n (subst IsReturning e m)

Step-IsPending :
    (c d : Client) (l : Label)
    → Step c l d
    → l ≢ gives
    → l ≢ asks true
    → IsSafe c
    → c.known.owned ≡ true
    → IsNoted (entry_at c.entry) ⊎ ((i : ℕ) × IsReturning (c.stands i))
    → (IsNoted (entry_at d.entry) ⊎ ((i : ℕ) × IsReturning (d.stands i))) ⊎ IsStuck d
unfolding acquire recheck answered request revoke_handler retry_handler noted
Step-IsPending c d l (acquires i e) n u s o w =
    (moved-IsOwed c i d.entry _ (away c i outside (λ b. b) e)
      (recheck-IsKept (entry_at c.entry).status _ refl) w)
Step-IsPending c d l (wakes i e) n u s o w =
    (moved-IsOwed c i d.entry _ (away c i waiting (λ b. b) e)
      (recheck-IsKept (entry_at c.entry).status _ refl) w)
Step-IsPending c d l (grants i e g) n u s o w = absurd (u refl)
Step-IsPending c d l (refuses i e g) n u s o w = inl w
Step-IsPending c d l (returns_ok i e g) n u s o w =
    let f = at_work_in c i calling (λ b. b) e s in
    moved-IsOwed c i d.entry _ (away c i calling (λ b. b) e)
      (granted-IsKept (entry_at c.entry) f.2.0) w
Step-IsPending c d l (returns_retry i e g) n u s o w =
    (moved-IsOwed c i d.entry _ (away c i calling (λ b. b) e)
      (await-IsKept (entry_at c.entry).status (entry_at c.entry).revoke (entry_at c.entry).retry) w)
Step-IsPending c d l (fails i e g) n u s o w =
    moved-IsOwed c i d.entry _ (away c i calling (λ b. b) e) inl w
Step-IsPending c d l (retries_early g) n u s o w = inl w
Step-IsPending c d l (retries i e) n u s o w = inl w
Step-IsPending c d l (retried i e) n u s o w =
    (moved-IsOwed c i d.entry _ (away c i told (λ b. b) e)
      (await-IsKept (entry_at c.entry).status (entry_at c.entry).revoke (entry_at c.entry).retry) w)
Step-IsPending c d l (releases i e) n u s o w =
    (moved-IsOwed c i d.entry _ (away c i holding (λ b. b) e)
      (λ m. inr (subst IsReturning (sym (noted-giving c.entry m)) tt)) w)
Step-IsPending c d l (revokes i e) n u s o w =
    (inl (inl (revoke-IsNoted (entry_at c.entry).status (entry_at c.entry))))
Step-IsPending c d l (takes_back i e g) n u s o w = absurd (n refl)
Step-IsPending c d l (takes_back_revoked i e g) n u s o w = absurd (n refl)
Step-IsPending c d l (returns_given i e g) n u s o w =
    let f = at_work_in c i giving (λ b. b) e s in
    let k = subst (λ q. Gives q (entry_at c.entry).retry c.known) g f.2.1 in cc
Step-IsPending c d l (returns_revoked i e g) n u s o w =
    let f = at_work_in c i revoking (λ b. b) e s in
    let k = subst (λ q. Gives q (entry_at c.entry).retry c.known) g f.2.1 in cc
Step-IsPending c d l (fails_given i e g) n u s o w =
    inr (failed-IsStuck c i (at_work_in c i giving (λ b. b) e s).1)
Step-IsPending c d l (fails_revoked i e g) n u s o w =
    inr (failed-IsStuck c i (at_work_in c i revoking (λ b. b) e s).1)

noted_owned : (l : Label) (k : Known) → l ≢ gives → k.owned ≡ true → (noted l k).owned ≡ true
unfolding noted
noted_owned silent k n o = o
noted_owned (asks true) k n o = refl
noted_owned (asks false) k n o = o
noted_owned gives k n o = absurd (n refl)
noted_owned hears k n o = o
noted_owned loses k n o = o

pub Step-IsOwed :
    (c d : Client) (l : Label)
    → Step c l d
    → l ≢ gives
    → l ≢ asks true
    → IsSafe c
    → IsOwed c
    → IsOwed d
Step-IsOwed c d l t n u s (o, w) = (
  ap (λ k. k.owned) (Step-noted c d l t) ∙ noted_owned l c.known n o,
  elim w [ inl p ↦ Step-IsPending c d l t n u s o p | inr q ↦ inr (Step-IsStuck c d l t u s q) ],
)

pub revoke_handler-IsOwed :
    (c : Client) (j : ℕ)
    → c.known.owned ≡ true
    → IsOwed (after c j (some (revoke_handler c.entry).0) (revoke_handler c.entry).1 c.progress)
unfolding revoke_handler
revoke_handler-IsOwed c j o =
    (o, inl (inl (revoke-IsNoted (entry_at c.entry).status (entry_at c.entry))))

-- A thread that holds the lock gives it back when it releases it.
pub release-giving_owed :
    (c : Client) (i : ℕ)
    → IsSafe c
    → IsOwed c
    → c.stands i ≡ holding
    → ((release c.entry).1 ≡ giving) × (c.progress ≡ idle)
release-giving_owed c i s o h =
    let f = at_work_in c i holding (λ m. m) h s in (noted-giving c.entry (still f.1 o.1), f.2.1)
  where
    still :
        ((k : ℕ) → k ≢ i → IsPassive (c.stands k))
        → (IsNoted (entry_at c.entry) ⊎ ((k : ℕ) × IsReturning (c.stands k))) ⊎ IsStuck c
        → IsNoted (entry_at c.entry)
    still p (inr (m, n, out)) = absurd (subst IsWithout h (out i))
    still p (inl (inl m)) = m
    still p (inl (inr (k, m))) = elim (Bool-cases (k == i)) [
      | inl same ↦ absurd (subst IsReturning (ap c.stands (==_eq k i same) ∙ h) m)
      | inr other ↦ absurd (not_both (c.stands k) (p k (λ q. ground arith)) m)
    ]

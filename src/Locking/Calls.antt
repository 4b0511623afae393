-- ===== src/Locking/Calls.antt =====
-- How the calls of the lock client end for the threads of lock_tester.cc.
use naive_file_system.Prelude.{
  ◌≡◌, refl, ap, Bool, true, false, Option, none, some, ◌⊎◌, inl, inr, Bool-cases,
}
use naive_file_system.Outcome.{ret, undefined}
use naive_file_system.LockClient.{
  Status, unheld, free, locked, acquiring, releasing, Entry, entry_at, Stands, outside, waiting,
  calling, told, holding, giving, revoking, request, recheck, recheck_status, release_entry,
}
use naive_file_system.LockClient
use naive_file_system.LockClient.Revocation.{IsNoted, noted-giving}
use naive_file_system.Locking.Tester.{Counts, calls_user, acquire_call, release_call}

pub ret-injective : {c d : Counts} → ret c ≡ ret d → d ≡ c
ret-injective e = cc

calls_user-ret : (q : Stands) (ct d : Counts) → calls_user q ct ≡ ret d → d ≡ ct
calls_user-ret outside ct d e = ret-injective e
calls_user-ret waiting ct d e = ret-injective e
calls_user-ret calling ct d e = ret-injective e
calls_user-ret told ct d e = ret-injective e
calls_user-ret holding ct d e = ret-injective e
calls_user-ret giving ct d e = cc
calls_user-ret revoking ct d e = cc

-- A call that comes back has not changed the counts.
pub acquire_call-ret :
    (p : Stands) (o : Option Entry) (ct d : Counts) → acquire_call p o ct ≡ ret d → d ≡ ct
acquire_call-ret outside o ct d e = calls_user-ret (LockClient.acquire o).1 ct d e
acquire_call-ret waiting o ct d e = ret-injective e
acquire_call-ret calling o ct d e = ret-injective e
acquire_call-ret told o ct d e = ret-injective e
acquire_call-ret holding o ct d e = ret-injective e
acquire_call-ret giving o ct d e = ret-injective e
acquire_call-ret revoking o ct d e = ret-injective e

pub release_call-ret :
    (p : Stands) (o : Option Entry) (ct d : Counts) → release_call p o ct ≡ ret d → d ≡ ct
release_call-ret outside o ct d e = ret-injective e
release_call-ret waiting o ct d e = ret-injective e
release_call-ret calling o ct d e = ret-injective e
release_call-ret told o ct d e = ret-injective e
release_call-ret holding o ct d e = calls_user-ret (LockClient.release o).1 ct d e
release_call-ret giving o ct d e = ret-injective e
release_call-ret revoking o ct d e = ret-injective e

-- `acquire` does not give the lock back.
recheck-returns :
    (s : Status) (e : Entry) (ct : Counts) → calls_user (recheck_status s e).1 ct ≡ ret ct
unfolding request
recheck-returns unheld e ct = elim (Bool-cases e.retry) [
  | inl set ↦ rw set refl
  | inr unset ↦ rw unset refl
]
recheck-returns free e ct = refl
recheck-returns locked e ct = refl
recheck-returns acquiring e ct = refl
recheck-returns releasing e ct = refl

pub acquire_call-returns :
    (p : Stands) (o : Option Entry) (ct : Counts) → acquire_call p o ct ≡ ret ct
unfolding LockClient.acquire recheck
acquire_call-returns outside o ct = recheck-returns (entry_at o).status (entry_at o) ct
acquire_call-returns waiting o ct = refl
acquire_call-returns calling o ct = refl
acquire_call-returns told o ct = refl
acquire_call-returns holding o ct = refl
acquire_call-returns giving o ct = refl
acquire_call-returns revoking o ct = refl

-- `release` comes to the call of `dorelease` just for a revoked lock.
release-quiet : (o : Option Entry) → (IsNoted (entry_at o) → ⊥) → (LockClient.release o).1 ≡ outside
unfolding LockClient.release
release-quiet none n = refl
release-quiet (some e) n = by_entry e.status e.revoke e.retry n
  where
    by_entry :
        (s : Status) (v r : Bool)
        → let f : Entry = record { status = s; revoke = v; retry = r } in
          (IsNoted f → ⊥) → (release_entry f).1 ≡ outside
    by_entry s true r m = absurd (m (inl refl))
    by_entry locked false r m = refl
    by_entry free false r m = refl
    by_entry unheld false r m = refl
    by_entry acquiring false r m = refl
    by_entry releasing false r m = absurd (m (inr refl))

IsNoted-cases :
    (s : Status) (v r : Bool)
    → let e : Entry = record { status = s; revoke = v; retry = r } in IsNoted e ⊎ (IsNoted e → ⊥)
IsNoted-cases s true r = inl (inl refl)
IsNoted-cases releasing false r = inl (inr refl)
IsNoted-cases locked false r = inr (λ h. elim h [ inl f ↦ cc | inr f ↦ cc ])
IsNoted-cases free false r = inr (λ h. elim h [ inl f ↦ cc | inr f ↦ cc ])
IsNoted-cases unheld false r = inr (λ h. elim h [ inl f ↦ cc | inr f ↦ cc ])
IsNoted-cases acquiring false r = inr (λ h. elim h [ inl f ↦ cc | inr f ↦ cc ])

-- A call of `release` by a thread that holds the lock, or by one that has left it already.
pub release_call-cases :
    (p : Stands) (o : Option Entry) (ct : Counts)
    → (((p ≡ holding) × IsNoted (entry_at o) → ⊥) × (release_call p o ct ≡ ret ct))
      ⊎ ((p ≡ holding) × IsNoted (entry_at o) × (release_call p o ct ≡ undefined))
release_call-cases holding o ct =
    elim (IsNoted-cases (entry_at o).status (entry_at o).revoke (entry_at o).retry) [
      | inl noted ↦ inr (refl, noted, ap (λ q. calls_user q ct) (noted-giving o noted))
      | inr quiet ↦ inl ((λ h. quiet h.1), ap (λ q. calls_user q ct) (release-quiet o quiet))
    ]
release_call-cases outside o ct = inl ((λ h. cc), refl)
release_call-cases waiting o ct = inl ((λ h. cc), refl)
release_call-cases calling o ct = inl ((λ h. cc), refl)
release_call-cases told o ct = inl ((λ h. cc), refl)
release_call-cases giving o ct = inl ((λ h. cc), refl)
release_call-cases revoking o ct = inl ((λ h. cc), refl)

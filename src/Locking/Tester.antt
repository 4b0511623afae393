-- ===== src/Locking/Tester.antt =====
-- The threads of lock_tester.cc, which acquire and release one lock over and over and count who has
-- it. Its clients are made without a `lock_release_user`: the pointer `lu` is null. What the program
-- prints, its sleeps, the test of one thread and two locks and the parsing of its arguments are left
-- out; a call of the lock client takes any steps of the cluster.
use naive_file_system.Prelude.{
  Option, ℕ, suc, ◌%◌, ◌≡◌, Bool, true, false, List, [], ◌∷◌, ltb, ◌==◌, if◌then◌else◌, ◌-◌, zero,
}
use naive_file_system.Outcome.{Outcome, ret, exits, undefined}
use naive_file_system.LockClient.{
  Stands, outside, waiting, calling, told, holding, giving, revoking, Entry,
}
use naive_file_system.LockClient
use naive_file_system.Locking.{Cluster, Move}

-- `ct`; a lock has the entry of its lowest byte.
abbrev pub Counts : Type 0
Counts = ℕ → ℕ

abbrev pub place : ℕ → ℕ
place lid = lid % 256

abbrev pub counted : ℕ → ℕ → Counts → Counts
counted x n ct j = if j == x then n else ct j

unfoldable pub check_grant : ℕ → Counts → Outcome Counts
check_grant lid ct =
    if ct (place lid) == 0 then ret (counted (place lid) (suc (ct (place lid))) ct) else exits

unfoldable pub check_release : ℕ → Counts → Outcome Counts
check_release lid ct =
    if ct (place lid) == 1 then ret (counted (place lid) (ct (place lid) - 1) ct) else exits

-- The calls of a thread.
pub data Action : Type 0 where
  acquire check_in check_out release : Action

abbrev pub rounds : ℕ → List Action
rounds zero = []
rounds (suc n) = acquire ∷ check_in ∷ check_out ∷ release ∷ rounds n

-- The client that a thread uses, and what it does.
pub record Thread : Type 0 where
  pub client : ℕ
  pub todo : List Action

-- Thread `i` of each test; the clients `lc` are named by their numbers at the server.
abbrev pub test2 : (ℕ → ℕ) → ℕ → Thread
test2 lc i = record { client = lc i; todo = rounds 1 }

abbrev pub test3 : (ℕ → ℕ) → ℕ → Thread
test3 lc i = record { client = lc i; todo = rounds 10 }

abbrev pub test4 : (ℕ → ℕ) → ℕ → Thread
test4 lc i = record { client = lc 0; todo = rounds 10 }

abbrev pub test5 : (ℕ → ℕ) → ℕ → Thread
test5 lc i = record { client = if ltb i 5 then lc 0 else lc 1; todo = rounds 10 }

-- The tests that `main` starts threads for, and its threads.
pub data Test : Type 0 where
  second third fourth fifth : Test

abbrev pub nt : ℕ
nt = 6

abbrev pub started : ℕ → (ℕ → Thread) → ℕ → Thread
started n thread i = if ltb i n then thread i else record { client = (thread i).client; todo = [] }

abbrev pub main : Test → (ℕ → ℕ) → ℕ → Thread
main second lc = started nt (test2 lc)
main third lc = started nt (test3 lc)
main fourth lc = started 2 (test4 lc)
main fifth lc = started nt (test5 lc)

-- `lu->dorelease(lid)` comes first where the lock is given back; `lu` is null.
abbrev pub calls_user : Stands → Counts → Outcome Counts
calls_user outside ct = ret ct
calls_user waiting ct = ret ct
calls_user calling ct = ret ct
calls_user told ct = ret ct
calls_user holding ct = ret ct
calls_user giving ct = undefined
calls_user revoking ct = undefined

-- A call of `acquire`, from its start by a thread that is outside, and of `release`, from its start
-- by a thread that holds the lock.
abbrev pub acquire_call : Stands → Option Entry → Counts → Outcome Counts
acquire_call outside o ct = calls_user (LockClient.acquire o).1 ct
acquire_call waiting o ct = ret ct
acquire_call calling o ct = ret ct
acquire_call told o ct = ret ct
acquire_call holding o ct = ret ct
acquire_call giving o ct = ret ct
acquire_call revoking o ct = ret ct

abbrev pub release_call : Stands → Option Entry → Counts → Outcome Counts
release_call outside o ct = ret ct
release_call waiting o ct = ret ct
release_call calling o ct = ret ct
release_call told o ct = ret ct
release_call holding o ct = calls_user (LockClient.release o).1 ct
release_call giving o ct = ret ct
release_call revoking o ct = ret ct

-- What a call does to the counts.
abbrev pub call : Action → Stands → Option Entry → ℕ → Counts → Outcome Counts
call acquire p o lid ct = acquire_call p o ct
call check_in p o lid ct = check_grant lid ct
call check_out p o lid ct = check_release lid ct
call release p o lid ct = release_call p o ct

abbrev pub next_call : List Action → Stands → Option Entry → ℕ → Counts → Outcome Counts
next_call [] p o lid ct = ret ct
next_call (a ∷ rest) p o lid ct = call a p o lid ct

-- Where a thread stands when its call has come back.
abbrev pub Returned : Action → Stands → Type 0
Returned acquire p = p ≡ holding
Returned check_in p = Unit {0}
Returned check_out p = Unit {0}
Returned release p = p ≡ outside

abbrev pub is_releasing : List Action → Bool
is_releasing [] = false
is_releasing (acquire ∷ rest) = false
is_releasing (check_in ∷ rest) = false
is_releasing (check_out ∷ rest) = false
is_releasing (release ∷ rest) = true

pub record Tester : Type 0 where
  pub cluster : Cluster
  pub ct : Counts
  pub threads : ℕ → Thread

abbrev pub stands_of : Cluster → (ℕ → Thread) → ℕ → Stands
stands_of g threads i = (g.client (threads i).client).stands i

abbrev pub entry_of : Cluster → (ℕ → Thread) → ℕ → Option Entry
entry_of g threads i = (g.client (threads i).client).entry

-- A thread of a client that is not at the call of `dorelease`.
abbrev pub IsRunning : Stands → Type 0
IsRunning outside = Unit {0}
IsRunning waiting = Unit {0}
IsRunning calling = Unit {0}
IsRunning told = Unit {0}
IsRunning holding = Unit {0}
IsRunning giving = ⊥
IsRunning revoking = ⊥

unfoldable pub passed : ℕ → List Action → (ℕ → Thread) → ℕ → Thread
passed i rest threads j = record (threads j) { todo = if j == i then rest else (threads j).todo }

-- The cluster moves, where a thread leaves the lock just in its call of `release`, and no thread of a
-- client of the tester comes to the call of `dorelease`, with which the run would end; or a call of
-- a thread comes back.
pub data Step (lid : ℕ) (t : Tester) : Tester → Type 0 where
  moves :
      (h : Cluster)
      → Move t.cluster h
      → ((i : ℕ)
          → is_releasing (t.threads i).todo ≡ false
          → stands_of t.cluster t.threads i ≡ holding
          → stands_of h t.threads i ≡ holding)
      → ((i j : ℕ) → IsRunning ((h.client (t.threads i).client).stands j))
      → Step lid t (record t { cluster = h })
  acts :
      (i : ℕ) (a : Action) (rest : List Action) (ct : Counts)
      → (t.threads i).todo ≡ a ∷ rest
      → Returned a (stands_of t.cluster t.threads i)
      → call a (stands_of t.cluster t.threads i) (entry_of t.cluster t.threads i) lid t.ct ≡ ret ct
      → Step lid t (record t { ct = ct; threads = passed i rest t.threads })

pub data Reaches (lid : ℕ) : Tester → Tester → Type 0 where
  here : {t : Tester} → Reaches lid t t
  onward : {a b c : Tester} → Reaches lid a b → Step lid b c → Reaches lid a c

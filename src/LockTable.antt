-- ===== src/LockTable.antt =====
-- The plain lock server: `class lock_server` of lock_server.h and lock_server.cc. A call of
-- `acquire` that finds the lock taken waits on the condition; it then tests the lock again. One
-- such test under the mutex is `try_acquire`.
use naive_file_system.Prelude.{
  subst, ℕ, suc, ◌≡◌, refl, sym, ap, ◌∙◌, arith, Bool, true, false, Option, none, some, ◌==◌,
  if◌then◌else◌, Bool-cases, inl, inr, if_true, if_false,
}

pub data LockStatus : Type 0 where
  unlocked taken : LockStatus

-- `lock_status_table`
abbrev pub LockMap : Type 0
LockMap = ℕ → Option LockStatus

unfoldable pub set_status : ℕ → LockStatus → LockMap → LockMap
set_status lid st table j = if j == lid then some st else table j

-- The table after a test that finds the lock free, and nothing if the thread has to wait.
abbrev pub try_status : ℕ → LockMap → Option LockStatus → Option LockMap
try_status lid table none = some (set_status lid taken table)
try_status lid table (some unlocked) = some (set_status lid taken table)
try_status lid table (some taken) = none

unfoldable pub try_acquire : ℕ → LockMap → Option LockMap
unfolding set_status
try_acquire lid table = try_status lid table (table lid)

-- `release`: whether the answer is `OK` and not `NOENT`, and the table.
abbrev pub release_status : ℕ → LockMap → Option LockStatus → Bool × LockMap
release_status lid table none = (false, table)
release_status lid table (some st) = (true, set_status lid unlocked table)

unfoldable pub release : ℕ → LockMap → Bool × LockMap
unfolding set_status
release lid table = release_status lid table (table lid)

-- The table, and how many threads hold each lock.
pub record Threads : Type 0 where
  pub table : LockMap
  pub holding : ℕ → ℕ

abbrev pub counted : ℕ → ℕ → (ℕ → ℕ) → ℕ → ℕ
counted lid n holding j = if j == lid then n else holding j

-- A thread gets a lock, and a thread that holds one releases it.
pub data Step : Threads → Threads → Type 0 where
  gets :
      {s : Threads}
      → (lid : ℕ) → (t : LockMap) → try_acquire lid s.table ≡ some t
      → Step s (record { table = t; holding = counted lid (suc (s.holding lid)) s.holding })
  gives :
      {s : Threads}
      → (lid n : ℕ) → s.holding lid ≡ suc n
      → Step s (record { table = (release lid s.table).1; holding = counted lid n s.holding })

pub data Reaches : Threads → Threads → Type 0 where
  here : {s : Threads} → Reaches s s
  onward : {a b c : Threads} → Reaches a b → Step b c → Reaches a c

-- One thread holds a lock that is taken, and nobody another lock.
abbrev pub holders_of : Option LockStatus → ℕ
holders_of none = 0
holders_of (some unlocked) = 0
holders_of (some taken) = 1

abbrev pub IsExclusive : Threads → Type 0
IsExclusive s = (lid : ℕ) → s.holding lid ≡ holders_of (s.table lid)

set_status-counted :
    (lid : ℕ) (st : LockStatus) (table : LockMap) (holding : ℕ → ℕ)
    → ((j : ℕ) → holding j ≡ holders_of (table j))
    → (j : ℕ)
    → counted lid (holders_of (some st)) holding j ≡ holders_of (set_status lid st table j)
unfolding set_status
set_status-counted lid st table holding h j = elim (Bool-cases (j == lid)) [
  | inl same ↦ if_true (holding j) same ∙ ap holders_of (sym (if_true (table j) same))
  | inr other ↦
      if_false (holders_of (some st)) other ∙ h j ∙ ap holders_of (sym (if_false (some st) other))
]

some-injective : {a b : LockMap} → some a ≡ some b → a ≡ b
some-injective e = cc

none-some : {a : LockMap} → none ≡ some a → ⊥
none-some e = cc

gets-IsExclusive :
    (s : Threads) (lid : ℕ) (t : LockMap)
    → try_acquire lid s.table ≡ some t
    → IsExclusive s
    → IsExclusive (record { table = t; holding = counted lid (suc (s.holding lid)) s.holding })
gets-IsExclusive s lid t e h = by_status (s.table lid) refl (sym (unfold try_acquire in e))
  where
    got :
        s.holding lid ≡ 0
        → some (set_status lid taken s.table) ≡ some t
        → IsExclusive (record { table = t; holding = counted lid (suc (s.holding lid)) s.holding })
    got none_holds f =
        subst
          (λ u.
            IsExclusive
              (record { table = u; holding = counted lid (suc (s.holding lid)) s.holding }))
          (some-injective f)
          (λ j.
            ap (λ n. counted lid (suc n) s.holding j) none_holds
            ∙ set_status-counted lid taken s.table s.holding h j)

    by_status :
        (o : Option LockStatus)
        → s.table lid ≡ o
        → some t ≡ try_status lid s.table (s.table lid)
        → IsExclusive (record { table = t; holding = counted lid (suc (s.holding lid)) s.holding })
    by_status none o f = got (h lid ∙ ap holders_of o) (sym (f ∙ ap (try_status lid s.table) o))
    by_status (some unlocked) o f =
        got (h lid ∙ ap holders_of o) (sym (f ∙ ap (try_status lid s.table) o))
    by_status (some taken) o f = absurd (none-some (sym (f ∙ ap (try_status lid s.table) o)))

gives-IsExclusive :
    (s : Threads) (lid n : ℕ)
    → s.holding lid ≡ suc n
    → IsExclusive s
    → IsExclusive (record { table = (release lid s.table).1; holding = counted lid n s.holding })
gives-IsExclusive s lid n e h = by_status (s.table lid) refl
  where
    by_status :
        (o : Option LockStatus)
        → s.table lid ≡ o
        → IsExclusive
            (record { table = (release lid s.table).1; holding = counted lid n s.holding })
    by_status none o = absurd (omega (arith, h lid ∙ ap holders_of o))
    by_status (some unlocked) o = absurd (omega (arith, h lid ∙ ap holders_of o))
    by_status (some taken) o =
        let zero_left : n ≡ 0 = omega (arith, h lid ∙ ap holders_of o) in
        λ j.
          ap (λ m. counted lid m s.holding j) zero_left
          ∙ set_status-counted lid unlocked s.table s.holding h j
          ∙ (unfold release in ap (λ q. holders_of ((release_status lid s.table q).1 j)) (sym o))

Step-IsExclusive : (a b : Threads) → Step a b → IsExclusive a → IsExclusive b
Step-IsExclusive a b (gets lid t e) h = gets-IsExclusive a lid t e h
Step-IsExclusive a b (gives lid n e) h = gives-IsExclusive a lid n e h

-- However threads get and release the locks that they hold, each lock is held by at most one of
-- them, and just while the table has it as taken.
pub Reaches-IsExclusive : (a b : Threads) → Reaches a b → IsExclusive a → IsExclusive b
Reaches-IsExclusive a b here h = h
Reaches-IsExclusive a c (onward {b = b} r t) h =
    Step-IsExclusive b c t (Reaches-IsExclusive a b r h)

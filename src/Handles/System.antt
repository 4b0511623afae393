-- ===== src/Handles/System.antt =====
-- Runs of a handle manager of handle.h and handle.cc: handles are made, bound, deleted and given up
-- in any order.
use naive_file_system.Prelude.{
  ℕ, suc, ◌^◌, ◌<◌, ◌≡◌, refl, sym, ap, ◌∙◌, arith, Bool, true, none, some, List, [], length, subst,
}
use naive_file_system.Outcome.{Outcome, ret, exits, undefined, Returns}
use naive_file_system.Handles.{Hinfo, Hmap, get_handle, delete_handle, done_handle, safebind}
use naive_file_system.Handles.Counts.{occurrences, dropped, IsCounted}
use naive_file_system.Handles.Lifetime.{
  with_handle, get_handle-IsCounted, delete_handle_wo-IsCounted, done_handle-IsCounted,
  safebind-IsCounted,
}

-- The entries, and the entries that the handles that exist refer to.
pub record Pool : Type 0 where
  pub hmap : Hmap
  pub live : List ℕ

-- `handle::handle`, `handle_mgr::delete_handle`, `handle::safebind` and `handle::~handle`.
pub data Step (p : Pool) : Pool → Type 0 where
  gets :
      (m : ℕ)
      → suc (length p.live) < 2 ^ 31
      → Step p (record {
        hmap = (get_handle m p.hmap).1;
        live = with_handle (get_handle m p.hmap).0 p.live;
      })
  deletes : (m : ℕ) → Step p (record p { hmap = delete_handle m p.hmap })
  binds :
      (m : ℕ) (b : Bool) (r : Bool × Hmap)
      → 0 < occurrences m p.live
      → safebind (some m) b p.hmap ≡ ret r
      → Step p (record p { hmap = r.1 })
  drops :
      (m : ℕ) (after : Hmap)
      → 0 < occurrences m p.live
      → done_handle m p.hmap ≡ ret after
      → Step p (record { hmap = after; live = dropped m p.live })

pub data Reaches : Pool → Pool → Type 0 where
  here : {p : Pool} → Reaches p p
  onward : {a b c : Pool} → Reaches a b → Step b c → Reaches a c

abbrev pub empty : Pool
empty = record { hmap = λ m. none; live = [] }

value_of : {A : Type 0} → A → Outcome A → A
value_of a (ret b) = b
value_of a exits = a
value_of a undefined = a

-- What holds of the value that a call returns holds of the value it is known to return.
returned : {A : Type 0} {P : A → Type 0} (r : Outcome A) (a : A) → Returns r P → r ≡ ret a → P a
unfolding value_of
returned {P} r a h e = subst P (ap (value_of a) (sym h.1 ∙ e)) h.2

Step-IsCounted : (a b : Pool) → Step a b → IsCounted a.hmap a.live → IsCounted b.hmap b.live
unfolding delete_handle
Step-IsCounted a b (gets m room) h = get_handle-IsCounted m a.hmap a.live room h
Step-IsCounted a b (deletes m) h = delete_handle_wo-IsCounted m a.hmap a.live h
Step-IsCounted a b (binds m c r has e) h =
    (returned _ r (safebind-IsCounted m c a.hmap a.live has h) e).0
Step-IsCounted a b (drops m after has e) h =
    returned _ after (done_handle-IsCounted m a.hmap a.live has h) e

Reaches-IsCounted : (a b : Pool) → Reaches a b → IsCounted a.hmap a.live → IsCounted b.hmap b.live
Reaches-IsCounted a b here h = h
Reaches-IsCounted a c (onward {b = b} r s) h = Step-IsCounted b c s (Reaches-IsCounted a b r h)

empty-IsCounted : IsCounted empty.hmap empty.live
empty-IsCounted = (λ m. unfold occurrences in refl, omega arith)

-- In every state reached from no entries, while there are fewer than 2 ^ 31 handles, a handle that
-- exists has its entry: binding through it and giving it up return, the reference counts are those
-- of the handles, and a connection that `safebind` finds is one of an entry that is bound.
pub handle_lives :
    (p : Pool) (m : ℕ) (b : Bool)
    → Reaches empty p
    → 0 < occurrences m p.live
    → Returns {A = Bool × Hmap} (safebind (some m) b p.hmap) (λ r.
      IsCounted r.1 p.live × (r.0 ≡ true → (i : Hinfo) × (r.1 m ≡ some i) × (i.bound ≡ true)))
      × Returns (done_handle m p.hmap) (λ after. IsCounted after (dropped m p.live))
handle_lives p m b r has =
    let h = Reaches-IsCounted empty p r empty-IsCounted in
    (safebind-IsCounted m b p.hmap p.live has h, done_handle-IsCounted m p.hmap p.live has h)

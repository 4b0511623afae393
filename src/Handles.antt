-- ===== src/Handles.antt =====
-- Cached connections: `class handle_mgr` and `class handle` of handle.h and handle.cc. The name of
-- a connection is only compared and is a number here; a handle's pointer is the name of its entry,
-- or nothing. Whether a bind succeeds is an argument. The reference count is an `int` of 32 bits.
pub mod Counts
pub mod Lifetime
pub mod System
use naive_file_system.Prelude.{
  ℕ, ◌+◌, ◌-◌, ◌%◌, ◌^◌, Bool, true, false, Option, none, some, List, ◌==◌, if◌then◌else◌,
}
use naive_file_system.Outcome.{Outcome, ret, undefined}

-- `struct hinfo`; `bound` says that `cl` is not null.
pub record Hinfo : Type 0 where
  pub bound : Bool
  pub refcnt : ℕ
  pub deleted : Bool

-- `hmap`
abbrev pub Hmap : Type 0
Hmap = ℕ → Option Hinfo

unfoldable pub set_info : ℕ → Option Hinfo → Hmap → Hmap
set_info m i hmap j = if j == m then i else hmap j

abbrev pub get_info : ℕ → Hmap → Option Hinfo → Option ℕ × Hmap
get_info m hmap none =
    (some m, set_info m (some (record { bound = false; refcnt = 1; deleted = false })) hmap)
get_info m hmap (some i) =
    if i.deleted
    then (none, hmap)
    else (some m, set_info m (some (record i { refcnt = (i.refcnt + 1) % 2 ^ 32 })) hmap)

unfoldable pub get_handle : ℕ → Hmap → Option ℕ × Hmap
unfolding set_info
get_handle m hmap = get_info m hmap (hmap m)

abbrev pub delete_info : ℕ → Hmap → Option Hinfo → Hmap
delete_info m hmap none = hmap
delete_info m hmap (some i) =
    if i.refcnt == 0
    then set_info m none hmap
    else set_info m (some (record i { deleted = true })) hmap

unfoldable pub delete_handle_wo : ℕ → Hmap → Hmap
unfolding set_info
delete_handle_wo m hmap = delete_info m hmap (hmap m)

unfoldable pub delete_handle : ℕ → Hmap → Hmap
unfolding delete_handle_wo
delete_handle m hmap = delete_handle_wo m hmap

-- `done_handle`: the entry of the handle must not be freed.
abbrev pub done_info : ℕ → Hmap → Option Hinfo → Outcome Hmap
done_info m hmap none = undefined
done_info m hmap (some i) =
    let n = (i.refcnt + 2 ^ 32 - 1) % 2 ^ 32 in
    let left = set_info m (some (record i { refcnt = n })) hmap in
    ret (if n == 0 then if i.deleted then delete_handle_wo m left else left else left)

unfoldable pub done_handle : ℕ → Hmap → Outcome Hmap
unfolding set_info delete_handle_wo
done_handle m hmap = done_info m hmap (hmap m)

-- `safebind`: whether there is a connection; `binds` says whether a new one binds.
abbrev pub bind_info : ℕ → Bool → Hmap → Option Hinfo → Outcome (Bool × Hmap)
bind_info m binds hmap none = undefined
bind_info m binds hmap (some i) =
    if i.deleted
    then ret (false, hmap)
    else if i.bound
    then ret (true, hmap)
    else if binds
    then ret (true, set_info m (some (record i { bound = true })) hmap)
    else ret (false, set_info m (some (record i { deleted = true })) hmap)

abbrev pub safebind_at : Option ℕ → Bool → Hmap → Outcome (Bool × Hmap)
safebind_at none binds hmap = ret (false, hmap)
safebind_at (some m) binds hmap = bind_info m binds hmap (hmap m)

unfoldable pub safebind : Option ℕ → Bool → Hmap → Outcome (Bool × Hmap)
unfolding set_info
safebind h binds hmap = safebind_at h binds hmap

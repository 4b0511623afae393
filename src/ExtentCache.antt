-- ===== src/ExtentCache.antt =====
-- The caching extent client: `class extent_client_cache` of extent_client_cache.h and
-- extent_client_cache.cc. What `cl->call` does is a parameter: its status, what it leaves in the
-- reply argument if it writes there, and the state of the server. The mutex makes each operation
-- one step; the log file is left out.
pub mod Flush
pub mod Put
pub mod Room
pub mod Get
pub mod View
pub mod Attributes
pub mod Create
pub mod Handover
pub mod Types
pub mod Reread
pub mod Unset
use naive_file_system.Prelude.{
  ℕ, ◌%◌, ◌^◌, Bool, true, false, Option, none, some, List, [], ◌∷◌, length, ◌==◌, if◌then◌else◌,
}
use naive_file_system.Inodes.{Times, u32}
use naive_file_system.Inodes.Files.{Attr}

-- `extent_protocol::xxstatus`, and the other numbers of an `extent_protocol::status`.
pub data Status : Type 0 where
  ok rpcerr noent ioerr : Status
  other : ℕ → Status

pub data CacheState : Type 0 where
  unread update modified removed : CacheState

pub record Entry : Type 0 where
  pub data_of : List ℕ
  pub m_state : CacheState
  pub attr : Attr

-- The calls of the server. A reply that is `none` leaves the reply argument as it was; `remove` is
-- called with the identifier alone, which the call may change.
pub record Rpc (S : Type 0) : Type 0 where
  pub call_create : ℕ → S → Status × Option ℕ × S
  pub call_get : ℕ → S → Status × Option (List ℕ) × S
  pub call_getattr : ℕ → S → Status × Option Attr × S
  pub call_put : ℕ → List ℕ → S → Status × S
  pub call_remove : ℕ → S → Status × ℕ × S

-- `extent_cache_table`, and the server behind it.
pub record Client (S : Type 0) : Type 0 where
  pub table : ℕ → Option Entry
  pub server : S

-- The reply argument after a call.
abbrev pub replied : {A : Type 0} → Option A → A → A
replied none a = a
replied (some b) a = b

unfoldable pub is_ok : Status → Bool
is_ok ok = true
is_ok rpcerr = false
is_ok noent = false
is_ok ioerr = false
is_ok (other n) = false

unfoldable pub set_cached : {S : Type 0} → Client S → ℕ → Entry → Client S
set_cached c eid e = record c { table = λ j. if j == eid then some e else c.table j }

unfoldable pub erase_cached : {S : Type 0} → Client S → ℕ → Client S
erase_cached c eid = record c { table = λ j. if j == eid then none else c.table j }

-- `attr.size = buf.size()`
abbrev pub size_of : List ℕ → ℕ
size_of buf = length buf % 2 ^ 32

unfoldable pub is_removed : CacheState → Bool
is_removed removed = true
is_removed unread = false
is_removed update = false
is_removed modified = false

-- `extent_cache_table[eid]`; a new entry has the state `NONE` and attributes that nobody set.
abbrev pub entry_at : Attr → Option Entry → Entry
entry_at unset none = record { data_of = []; m_state = unread; attr = unset }
entry_at unset (some e) = e

module _ {S : Type 0} (rpc : Rpc S) (unset : Attr) where
  unfoldable pub create : ℕ → ℕ → Times → Client S → Status × ℕ × Client S
  unfolding set_cached
  create type id t c =
      let r = rpc.call_create type c.server in
      let eid = replied r.1 id in
      let e = entry_at unset (c.table eid) in
      let a = record e.attr { atime = u32 t.a; type = type; size = 0 } in
      (
        r.0,
        eid,
        set_cached (record c { server = r.2 }) eid (record e { attr = a; m_state = unread }),
      )

  -- `get` on an entry, and on a file that has none.
  unfoldable pub get_unread : ℕ → List ℕ → Times → Entry → Client S → Status × List ℕ × Client S
  unfolding set_cached is_ok
  get_unread eid buf t e c =
      let r = rpc.call_get eid c.server in
      let d = replied r.1 buf in
      let read : Entry = record {
        data_of = d;
        m_state = update;
        attr = record e.attr { atime = u32 t.a; size = size_of d };
      } in
      let c1 = record c { server = r.2 } in
      (r.0, d, if is_ok r.0 then set_cached c1 eid read else c1)

  unfoldable pub get_missing : ℕ → List ℕ → Times → Client S → Status × List ℕ × Client S
  unfolding set_cached is_ok
  get_missing eid buf t c =
      let r = rpc.call_get eid c.server in
      let d = replied r.1 buf in
      let q = rpc.call_getattr eid r.2 in
      let read : Entry = record {
        data_of = d;
        m_state = update;
        attr = record (replied q.1 unset) { atime = u32 t.a };
      } in
      let c1 = record c { server = q.2 } in
      (q.0, d, if is_ok q.0 then set_cached c1 eid read else c1)

  unfoldable pub get_entry :
      CacheState → ℕ → List ℕ → Times → Entry → Client S → Status × List ℕ × Client S
  unfolding set_cached get_unread
  get_entry unread eid buf t e c = get_unread eid buf t e c
  get_entry update eid buf t e c =
      (ok, e.data_of, set_cached c eid (record e { attr = record e.attr { atime = u32 t.a } }))
  get_entry modified eid buf t e c =
      (ok, e.data_of, set_cached c eid (record e { attr = record e.attr { atime = u32 t.a } }))
  get_entry removed eid buf t e c = (noent, buf, c)

  abbrev pub get_cached : Option Entry → ℕ → List ℕ → Times → Client S → Status × List ℕ × Client S
  get_cached none eid buf t c = get_missing eid buf t c
  get_cached (some e) eid buf t c = get_entry e.m_state eid buf t e c

  unfoldable pub get : ℕ → List ℕ → Times → Client S → Status × List ℕ × Client S
  get eid buf t c = get_cached (c.table eid) eid buf t c

  abbrev pub getattr_entry : CacheState → Attr → Entry → Client S → Status × Attr × Client S
  getattr_entry removed a e c = (noent, a, c)
  getattr_entry unread a e c = (ok, e.attr, c)
  getattr_entry update a e c = (ok, e.attr, c)
  getattr_entry modified a e c = (ok, e.attr, c)

  unfoldable pub getattr_missing : ℕ → Attr → Client S → Status × Attr × Client S
  unfolding set_cached is_ok
  getattr_missing eid a c =
      let r = rpc.call_getattr eid c.server in
      let b = replied r.1 a in
      let c1 = record c { server = r.2 } in
      (
        r.0,
        b,
        if is_ok r.0
            then set_cached c1 eid (record { data_of = []; m_state = unread; attr = b })
            else c1,
      )

  abbrev pub getattr_cached : Option Entry → ℕ → Attr → Client S → Status × Attr × Client S
  getattr_cached none eid a c = getattr_missing eid a c
  getattr_cached (some e) eid a c = getattr_entry e.m_state a e c

  unfoldable pub getattr : ℕ → Attr → Client S → Status × Attr × Client S
  getattr eid a c = getattr_cached (c.table eid) eid a c

  unfoldable pub put : ℕ → List ℕ → Times → Client S → Status × Client S
  unfolding set_cached is_removed
  put eid buf t c =
      let e = entry_at unset (c.table eid) in
      let a = record e.attr { mtime = u32 t.m; ctime = u32 t.c; size = size_of buf } in
      if is_removed e.m_state
      then (noent, c)
      else (ok, set_cached c eid (record { data_of = buf; m_state = modified; attr = a }))

  unfoldable pub remove : ℕ → Client S → Status × Client S
  unfolding set_cached is_removed
  remove eid c =
      let e = entry_at unset (c.table eid) in
      if is_removed e.m_state
      then (noent, c)
      else (ok, set_cached c eid (record e { m_state = removed }))

  -- `flush` of an entry: what is written back, and then the entry is dropped.
  unfoldable pub flush_entry : CacheState → ℕ → Entry → Client S → Status × Client S
  unfolding erase_cached
  flush_entry modified eid e c =
      let r = rpc.call_put eid e.data_of c.server in
      (r.0, erase_cached (record c { server = r.1 }) eid)
  flush_entry removed eid e c =
      let r = rpc.call_remove eid c.server in (r.0, erase_cached (record c { server = r.2 }) r.1)
  flush_entry unread eid e c = (ok, erase_cached c eid)
  flush_entry update eid e c = (ok, erase_cached c eid)

  abbrev pub flush_cached : Option Entry → ℕ → Client S → Status × Client S
  flush_cached none eid c = (noent, c)
  flush_cached (some e) eid c = flush_entry e.m_state eid e c

  unfoldable pub flush : ℕ → Client S → Status × Client S
  flush eid c = flush_cached (c.table eid) eid c

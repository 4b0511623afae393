-- ===== src/LockServer.antt =====
-- The caching lock server: `class lock_server_cache` of lock_server_cache.h and
-- lock_server_cache.cc. A handler holds the mutex up to its call of a client, which is its last
-- action, so that it is one step; the call is part of the result. Clients are named by strings that
-- are only compared: they are numbers here, and 0 is the empty string.
pub mod Acquire
pub mod Queue
pub mod Release
pub mod System
use naive_file_system.Prelude.{
  ℕ, Bool, true, false, ◌||◌, Option, none, some, List, [], ◌∷◌, ◌++◌, ◌==◌, if◌then◌else◌,
}
use naive_file_system.Outcome.{Outcome, ret, undefined, ◌>>=◌}

pub data Status : Type 0 where
  free locked waiting : Status

-- `class lock_cache_status`. The set `clientS` is a list.
pub record Lock : Type 0 where
  pub client_id : ℕ
  pub client_q : List ℕ
  pub client_s : List ℕ
  pub status : Status

abbrev pub no_client : ℕ
no_client = 0

-- `clientS.count(id)`
unfoldable pub count : ℕ → List ℕ → Bool
count id [] = false
count id (x ∷ s) = x == id || count id s

-- `clientS.insert(id)`
unfoldable pub insert : ℕ → List ℕ → List ℕ
unfolding count
insert id s = if count id s then s else id ∷ s

-- `clientS.erase(clientS.find(id))`, for an element that is there.
unfoldable pub erase : ℕ → List ℕ → List ℕ
erase id [] = []
erase id (x ∷ s) = if x == id then s else x ∷ erase id s

pub data Reply : Type 0 where
  ok retry : Reply

-- What a handler answers, which client it calls then (with `revoke` or with `retry`), and the lock.
pub record Handled : Type 0 where
  pub reply : Reply
  pub call : Option ℕ
  pub lock : Lock

-- The client at the front of the queue gets the lock. The iterator of an element that is not there
-- must not be erased.
unfoldable pub grant_front : ℕ → List ℕ → Lock → Outcome Handled
grant_front id rest l =
    if count id l.client_s
    then ret (record {
      reply = ok;
      call = elim rest [ [] ↦ none | _ ∷ _ ↦ some id ];
      lock = record {
        client_id = id;
        client_q = rest;
        client_s = erase id l.client_s;
        status = elim rest [ [] ↦ locked | _ ∷ _ ↦ l.status ];
      };
    })
    else undefined

-- A client that is not at the front joins the queue, unless it stands in it.
unfoldable pub join : ℕ → Lock → Handled
join id l = record {
  reply = retry;
  call = none;
  lock =
      if count id l.client_s
      then l
      else record l { client_q = l.client_q ++ id ∷ []; client_s = insert id l.client_s };
}

-- The case `WAITING` of `acquire`; the front of an empty queue must not be read.
unfoldable pub acquire_waiting : ℕ → List ℕ → Lock → Outcome Handled
acquire_waiting id [] l = undefined
acquire_waiting id (x ∷ rest) l = if x == id then grant_front id rest l else ret (join id l)

-- The cases of `acquire` for a lock that is in the table.
unfoldable pub acquire_known : ℕ → Status → Lock → Outcome Handled
acquire_known id free l =
    ret (record { reply = ok; call = none; lock = record l { status = locked; client_id = id } })
acquire_known id locked l = ret (record {
  reply = retry;
  call = some l.client_id;
  lock = record l {
    status = waiting;
    client_q = l.client_q ++ id ∷ [];
    client_s = insert id l.client_s;
  };
})
acquire_known id waiting l = acquire_waiting id l.client_q l

-- `acquire`, for the entry of the lock in the table, if there is one.
unfoldable pub acquire : ℕ → Option Lock → Outcome Handled
unfolding acquire_known
acquire id none = ret (record {
  reply = ok;
  call = none;
  lock = record { client_id = id; client_q = []; client_s = []; status = locked };
})
acquire id (some l) = acquire_known id l.status l

-- What `release` makes of the lock, and the client that it calls with `retry`; 0 for the empty
-- name.
pub record Released : Type 0 where
  pub call : Option ℕ
  pub lock : Lock

abbrev pub front : List ℕ → ℕ
front [] = no_client
front (x ∷ _) = x

unfoldable pub release_held : Status → Lock → Released
release_held free l = record { call = none; lock = l }
release_held locked l = record {
  call = none;
  lock = record l { status = free; client_id = no_client };
}
release_held waiting l = record {
  call = some (front l.client_q);
  lock = record l { client_id = no_client };
}

-- `release`, for the entry in the table; a client that does not hold the lock changes nothing.
unfoldable pub release : ℕ → Lock → Released
unfolding release_held
release id l =
    if l.client_id == id then release_held l.status l else record { call = none; lock = l }

-- The table of locks and its two handlers. A lock that is not there is not released.
abbrev pub Table : Type 0
Table = ℕ → Option Lock

unfoldable pub set_entry : Table → ℕ → Lock → Table
set_entry table lid l j = if j == lid then some l else table j

unfoldable pub table_acquire : ℕ → ℕ → Table → Outcome (Handled × Table)
unfolding acquire set_entry
table_acquire lid id table = acquire id (table lid) >>= λ h. ret (h, set_entry table lid h.lock)

abbrev pub release_entry : ℕ → ℕ → Table → Option Lock → Option ℕ × Table
release_entry lid id table none = (none, table)
release_entry lid id table (some l) = let r = release id l in (r.call, set_entry table lid r.lock)

unfoldable pub table_release : ℕ → ℕ → Table → Option ℕ × Table
unfolding release set_entry
table_release lid id table = release_entry lid id table (table lid)

-- ===== src/Extent/Calls.antt =====
-- The extent server at the other end of `cl->call`: extent_smain.cc makes one extent_server and
-- registers its handlers. A handler that does not return leaves a server that answers no more.
use naive_file_system.Prelude.{
  ℕ, suc, ◌<◌, ◌≤◌, ◌≡◌, ◌*◌, ◌^◌, Bool, ◌&&◌, Option, none, some, List, length, ltb, leb,
  if◌then◌else◌,
}
use naive_file_system.Outcome.{Outcome, ret, exits, undefined, ◌>>=◌}
use naive_file_system.Disk.{block_size}
use naive_file_system.Blocks.{inode_num}
use naive_file_system.Blocks.Free.{free_count}
use naive_file_system.Inodes.{Times, ndirect}
use naive_file_system.Inodes.Manager.{InodeManager, block_count}
use naive_file_system.Inodes.Table.{IsInum}
use naive_file_system.Inodes.Valid.{File, file_at}
use naive_file_system.Inodes.Lifetime.{IsManaged}
use naive_file_system.Extent
use naive_file_system.Extent.Laws.{stored}
use naive_file_system.ExtentCache.{Status, ok, Rpc}
use naive_file_system.ExtentCache.View.{Contents}

-- The extent server, or how it ended, and what its clock gives at each call.
pub record Server : Type 0 where
  pub state : Outcome InodeManager
  pub clock : ℕ → Times
  pub ticks : ℕ

abbrev pub reply_of :
    {A : Type 0} → Status → Server → Outcome (A × InodeManager) → Status × Option A × Server
reply_of lost s (ret r) = (ok, some r.0, record s { state = ret r.1; ticks = suc s.ticks })
reply_of lost s exits = (lost, none, record s { state = exits })
reply_of lost s undefined = (lost, none, record s { state = undefined })

-- The calls. The status of a call that gets no answer, and what the call of `remove` without an
-- argument does, are the RPC library's.
unfoldable pub serving : Status → (ℕ → Server → Status × ℕ × Server) → Rpc Server
unfolding Extent.create Extent.get Extent.getattr Extent.put
serving lost removing = record {
  call_create =
      λ type s. reply_of lost s (s.state >>= λ im. Extent.create type (s.clock s.ticks) im);
  call_get = λ id s. reply_of lost s (s.state >>= λ im. Extent.get id (s.clock s.ticks) im);
  call_getattr =
      λ id s. reply_of lost s (s.state >>= λ im. Extent.getattr id im >>= λ a. ret (a, im));
  call_put = λ id d s.
      let r =
        reply_of lost s
          (s.state >>= λ im. Extent.put id d (s.clock s.ticks) im >>= λ next. ret (tt, next)) in
      (r.0, r.2);
  call_remove = removing;
}

-- The numbers that name an inode and have no other name.
abbrev pub names : ℕ → Bool
names id = ltb 0 id && leb id inode_num

abbrev pub bytes_of : Option File → Option (List ℕ)
bytes_of none = none
bytes_of (some f) = some f.bytes

abbrev pub kind_of : Option File → ℕ
kind_of none = 0
kind_of (some f) = f.kind

abbrev pub file_in : Outcome InodeManager → ℕ → Option (List ℕ)
file_in (ret im) id = if names id then bytes_of (stored im id) else none
file_in exits id = none
file_in undefined id = none

abbrev pub kind_in : Outcome InodeManager → ℕ → ℕ
kind_in (ret im) id = if names id then kind_of (stored im id) else 0
kind_in exits id = 0
kind_in undefined id = 0

-- A file fits into the blocks that its inode names, and that many blocks are free.
abbrev pub RoomIn : Outcome InodeManager → List ℕ → Type 0
RoomIn (ret im) d = (length d ≤ block_size * ndirect) × (block_count (length d) ≤ free_count im.bm)
RoomIn exits d = ⊥
RoomIn undefined d = ⊥

-- `getattr` reads a type as a `short`.
abbrev pub HasSmallKinds : InodeManager → Type 0
HasSmallKinds im = (i : ℕ) (f : File) → IsInum i → file_at im.bm.d i ≡ some f → f.kind < 2 ^ 15

abbrev pub IsServing : Server → Type 0
IsServing s = (im : InodeManager) × (s.state ≡ ret im) × IsManaged im × HasSmallKinds im

abbrev pub contents : Contents Server
contents = record {
  file = λ s. file_in s.state;
  type_at = λ s. kind_in s.state;
  IsSound = IsServing;
  CanPut = λ s id d. RoomIn s.state d;
}

-- The number that `create` answers, if it returns.
abbrev pub number_of : Outcome (ℕ × InodeManager) → ℕ
number_of (ret r) = r.0
number_of exits = 0
number_of undefined = 0

-- An inode that `alloc_inode` finds.
abbrev pub HasFree : Outcome InodeManager → Type 0
HasFree (ret im) = (i : ℕ) × (2 ≤ i) × (i ≤ inode_num) × (file_at im.bm.d i ≡ none)
HasFree exits = ⊥
HasFree undefined = ⊥

abbrev pub CanCreate : ℕ → Server → Type 0
CanCreate type s = (0 < type) × (type < 2 ^ 15) × HasFree s.state

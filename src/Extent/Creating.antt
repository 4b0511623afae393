-- ===== src/Extent/Creating.antt =====
-- `create` of extent_server.cc keeps what extent_client_cache.cc relies on.
use naive_file_system.Prelude.{
  false, [], ℕ, ◌<◌, ◌≡◌, ◌≢◌, ◌^◌, refl, sym, ap, ◌∙◌, arith, none, some, if◌then◌else◌, if_true,
  inl, inr, ◌==◌,
}
use naive_file_system.Outcome.{◌>>=◌}
use naive_file_system.Inodes.Manager.{InodeManager}
use naive_file_system.Inodes.Table.{IsInum}
use naive_file_system.Inodes.Valid.{IsLive, file_of, File, file_at}
use naive_file_system.Inodes.Lifetime.{alloc_inode-Creates}
use naive_file_system.Extent.{List, create, masked}
use naive_file_system.Extent.Laws.{stored, IsId}
use naive_file_system.Extent.Calls.{
  RoomIn, kind_in, CanCreate, number_of, Server, serving, bytes_of, file_in, IsServing, contents,
}
use naive_file_system.ExtentCache.{Status}
use naive_file_system.ExtentCache.Create.{Creates}
use naive_file_system.Extent.Serving.{serving-Serves}
use naive_file_system.ExtentCache.View.{Serves}
use naive_file_system.Extent.Named.{
  room_same, kind_other, running, IsInum-names, IsInum-masked, file_set, kinds_set,
}

abbrev Makes : Status → (ℕ → Server → Status × ℕ × Server) → ℕ → Server → Type 0
Makes lost removing type s =
    let r = (serving lost removing).call_create type s in
    let i = number_of (s.state >>= λ im. create type (s.clock s.ticks) im) in
    CanCreate type s
    → (r.1 ≡ some i)
      × (i < 2 ^ 64)
      × (file_in s.state i ≡ none)
      × ((j : ℕ) → file_in r.2.state j ≡ (if j == i then some [] else file_in s.state j))
      × ((j : ℕ) → (j == i) ≡ false → kind_in r.2.state j ≡ kind_in s.state j)
      × IsServing r.2
      × ((d : List ℕ) → RoomIn s.state d → RoomIn r.2.state d)

live_file : (im : InodeManager) (i : ℕ) → IsLive im.bm.d i → file_at im.bm.d i ≢ none
unfolding file_at file_of
live_file im i live e = ground (arith, live.1)

create-Makes :
    (lost : Status) (removing : ℕ → Server → Status × ℕ × Server) (type : ℕ) (s : Server)
    → IsServing s
    → Makes lost removing type s
unfolding serving create
create-Makes lost removing type s h = running (Makes lost removing type) s h λ room.
    elim (alloc_inode-Creates h.0 type (s.clock s.ticks) h.2 room.0 room.1) [
      | inl (over, full) ↦
          absurd (live_file h.0 room.2.0 (full room.2.0 room.2.1 room.2.2) room.2.3)
      | inr (r, run, p) ↦
          let inum : IsInum r.0 = (omega (arith, p.range.0), p.range.1) in
          let m = IsInum-masked r.0 inum in
          let named = IsInum-names r.0 inum in
          let f : File = record { kind = type; bytes = [] } in
          let there : stored r.1 r.0 ≡ some f = ap (file_at r.1.bm.d) m ∙ p.file in
          let others : (j : ℕ) → IsId j → masked j ≢ masked r.0 → stored r.1 j ≡ stored h.0 j =
            λ j i ne. p.others (masked j) i (λ q. ne (q ∙ sym m)) in
          rw run (
            refl,
            omega (arith, p.range.1),
            if_true none named ∙ ap bytes_of (ap (file_at h.0.bm.d) m ∙ p.fresh),
            file_set h.0 r.1 r.0 f named there others,
            kind_other h.0 r.1 r.0 f named there others,
            (r.1, refl, p.managed, kinds_set h.0 r.1 r.0 f named there others room.1 h.3),
            room_same h.0 r.1 p.blocks,
          )
    ]

serving-Creates :
    (lost : Status) (removing : ℕ → Server → Status × ℕ × Server)
    → Creates (serving lost removing) contents CanCreate
serving-Creates lost removing = record {
  number = λ type s r. number_of (s.state >>= λ im. create type (s.clock s.ticks) im);
  replies = λ type s r h. (create-Makes lost removing type s h r).0;
  small = λ type s r h. (create-Makes lost removing type s h r).1;
  unused = λ type s r h. (create-Makes lost removing type s h r).2;
  makes = λ type s r h. let m = create-Makes lost removing type s h r in (m.3, m.5);
  keeps_room = λ type s r h j. (create-Makes lost removing type s h r).6;
  keeps_types = λ type s r h. (create-Makes lost removing type s h r).4;
}

-- The extent server, for any clock and however calls that get no answer end, keeps the promises that
-- the caching client relies on. It serves the numbers of inodes while the disk is sound and the types
-- of files are below 2 ^ 15. It can put a file of at most 100 blocks if as many blocks are free, and
-- create an empty one of a type that is positive and below 2 ^ 15 if an inode is free.
pub serving_implements :
    (lost : Status) (removing : ℕ → Server → Status × ℕ × Server)
    → Serves (serving lost removing) contents × Creates (serving lost removing) contents CanCreate
serving_implements lost removing = (serving-Serves lost removing, serving-Creates lost removing)

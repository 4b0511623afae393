-- ===== src/Tests/Storage.antt =====
-- Caching clients of an extent server on a disk that was just formatted.
use naive_file_system.Prelude.{
  List, ℕ, ◌≡◌, ◌<◌, ◌^◌, refl, sym, ap, ◌∙◌, subst, arith, none, some, [], ◌==◌, if◌then◌else◌,
  Bool-cases, inl, inr, ==_eq,
}
use naive_file_system.Outcome.{ret}
use naive_file_system.Inodes.Files.{Attr}
use naive_file_system.Inodes.Valid.{file_at}
use naive_file_system.Extent.Calls.{
  bytes_of, Server, serving, contents, CanCreate, IsServing, HasSmallKinds,
}
use naive_file_system.Extent.Creating.{serving_implements}
use naive_file_system.ExtentCache.{
  set_cached, Status, ok, rpcerr, modified, Entry, Client, Rpc, get, flush, size_of,
}
use naive_file_system.ExtentCache.View.{
  set_cached-IsCoherent, Serves, view, IsCoherent, some-injective,
}
use naive_file_system.ExtentCache.Create.{Creates}
use naive_file_system.ExtentCache.Handover.{handover}
use naive_file_system.YfsClient.Caching.{World, caching}
use naive_file_system.Fuse.Handlers.{fuseserver_read, fuseserver_write}
use naive_file_system.Fuse.Replies.{reply_buf, reply_write}
use naive_file_system.Stack.{room_fits, OnDisk, client, disk_round_trip}
use naive_file_system.ExtentCache
use naive_file_system.ExtentClient
use naive_file_system.ExtentClient.Transparent.{put-transparent}
use naive_file_system.YfsClient.Operations.{write}
use naive_file_system.YfsClient.Bytes.{Overwrites}
use naive_file_system.YfsClient.Durable.{write-durable}
use naive_file_system.LockClient.{dorelease}
use naive_file_system.Tests.Files.{noon, formatted, formatted-IsManaged, root_file, text, room}

abbrev removing : ℕ → Server → Status × ℕ × Server
removing id s = (rpcerr, id, s)

abbrev calls : Rpc Server
calls = serving rpcerr removing

serving_implements_example : Serves calls contents × Creates calls contents CanCreate
serving_implements_example = serving_implements rpcerr removing

abbrev started : Server
started = record { state = ret formatted; clock = λ n. noon; ticks = 0 }

formatted-HasSmallKinds : HasSmallKinds formatted
formatted-HasSmallKinds i f n e = elim (Bool-cases (i == 1)) [
  | inl s ↦
      let is_root : root_file ≡ f =
        some-injective
          (sym formatted-IsManaged.1 ∙ ap (file_at formatted.bm.d) (sym (==_eq i 1 s)) ∙ e) in
      subst (λ x. x.kind < 2 ^ 15) is_root (omega arith)
  | inr o ↦ let gone : none ≡ some f = sym (formatted-IsManaged.2 i n (ground arith)) ∙ e in cc
]

started-IsServing : IsServing started
started-IsServing = (formatted, refl, formatted-IsManaged.0, formatted-HasSmallKinds)

root-there : contents.file started 1 ≡ some []
root-there = ap bytes_of formatted-IsManaged.1

abbrev no_attr : Attr
no_attr = record { type = 1; atime = 0; mtime = 0; ctime = 0; size = 0 }

-- The first client has changed the root's bytes; the second one has no entry.
abbrev changed : Entry
changed = record { data_of = text; m_state = modified; attr = record no_attr { size = 2 } }

abbrev second : Client Server
second = record { table = λ j. none; server = started }

abbrev first : Client Server
first = record { table = λ j. if j == 1 then some changed else none; server = started }

second-IsCoherent : IsCoherent contents second
second-IsCoherent = record { sound = started-IsServing; fresh = λ id e t. cc }

first-IsCoherent : IsCoherent contents first
unfolding set_cached
first-IsCoherent =
    set_cached-IsCoherent contents second 1 changed
      (record {
        there = λ n. let here : none ≡ some [] = sym n ∙ root-there in cc;
        same = λ u. cc;
        sized = λ d e. ap size_of (some-injective e);
      })
      second-IsCoherent

calls-Serves : Serves calls contents
calls-Serves = (serving_implements rpcerr removing).0

handover_example :
    let after = dorelease (λ lid c. (flush calls no_attr lid c).1) 1 first in
    let r = get calls no_attr 1 [] noon (record second { server = after.server }) in
    (r.0 ≡ ok) × (r.1 ≡ text)
handover_example =
    handover calls no_attr contents calls-Serves first second 1 changed [] text noon refl (λ e. cc)
      (unfold view in refl) refl refl (λ m. (omega arith, room)) first-IsCoherent second-IsCoherent

put-transparent_example :
    let p = ExtentCache.put calls no_attr 1 text noon first in
    let f = flush calls no_attr 1 p.1 in
    let plain = ExtentClient.put calls removing 1 text started in
    (p.0 ≡ plain.0)
    × (f.0 ≡ plain.0)
    × ((j : ℕ) → contents.file f.1.server j ≡ contents.file plain.1 j)
put-transparent_example =
    put-transparent calls removing no_attr contents calls-Serves first 1 text noon
      (unfold view in λ e. cc) (omega arith, room) first-IsCoherent

-- A client alone, whose locks are always free, writes two bytes to the root.
abbrev alone : ℕ → World Server → World Server
alone id w = w

alone-OnDisk : OnDisk rpcerr removing no_attr alone alone
alone-OnDisk = record {
  acquire_room = λ id type w r. r;
  acquire_fits = λ id n w r. r;
  release_fits = λ id n w r. r;
  acquire_keeps = λ id w g. (λ j. refl, g);
  release_keeps = λ id w g. (λ j. refl, g);
  acquire_type = λ id j w. refl;
  release_type = λ id j w. refl;
}

abbrev world : World Server
world = record { client = second; clock = λ n. noon; ticks = 0 }

disk_round_trip_example :
    let x = client rpcerr removing no_attr alone alone alone-OnDisk in
    let a = fuseserver_write x no_attr 0 1 text 2 0 world in
    let r = fuseserver_read x no_attr 0 1 2 0 a.1 in (a.0 ≡ reply_write 2) × (r.0 ≡ reply_buf text)
disk_round_trip_example =
    disk_round_trip rpcerr removing no_attr alone alone alone-OnDisk 0 1 2 0 text [] world formatted
      refl (omega arith) (unfold view in root-there) refl (omega arith) room second-IsCoherent

write-durable_example :
    let r = write (caching calls no_attr alone alone) no_attr 1 2 0 text world in
    (new : List ℕ) × Overwrites 2 0 text [] new
    × (r.0 ≡ some 2)
    × (contents.file r.1.client.server 1 ≡ some new)
write-durable_example =
    write-durable calls no_attr contents CanCreate (serving_implements rpcerr removing).0
      (serving_implements rpcerr removing).1 alone alone alone-OnDisk 1 2 0 text [] world
      (λ id j u e. e) refl (omega arith) (unfold view in root-there)
      (room_fits rpcerr removing no_attr world formatted 2 refl (omega arith) room)
      second-IsCoherent

-- ===== src/Tests/Kernel.antt =====
-- Requests of the kernel to the file system over a plain store.
use naive_file_system.Prelude.{
  length-append, ℕ, ◌+◌, ◌≡◌, ◌≢◌, refl, arith, none, some, List, [], ◌∷◌, ◌++◌, take, ◌==◌,
  if◌then◌else◌,
}
use naive_file_system.YfsClient.Values.{Dirent}
use naive_file_system.YfsClient.Holds.{Keeps}
use naive_file_system.YfsClient.Entries.{dir_bytes, entry_of}
use naive_file_system.Fuse.Handlers.{
  getattr, fuseserver_create, fuseserver_unlink, fuseserver_readdir, fuseserver_write,
  fuseserver_read, fuseserver_lookup, fuseserver_symlink, fuseserver_readlink,
}
use naive_file_system.Fuse.Replies.{
  reply_create, reply_err, reply_buf, no_error, reply_write, reply_entry, reply_readlink, c_str,
  EntryParam, FuseLib,
}
use naive_file_system.Fuse.Attributes.{Describes, KeepsAll, getattr-Describes}
use naive_file_system.Fuse.Naming.{Makes, create-Makes, create_repeats, unlink_directory}
use naive_file_system.Fuse.RoundTrips.{read-write, lookup-create, readlink-symlink}
use naive_file_system.Fuse.Undoing.{unlink-create}
use naive_file_system.Fuse.Paging.{listing, width, readdir-listing}
use naive_file_system.Tests.Store.{
  Store, plain, attr_of, view, IsGood, type_of, HasRoom, Fits, plain-Holds, plain-HasTypes, root,
  root-IsDir, hi, store, store-IsGood,
}

getattr-Describes_example :
    let r = getattr plain (attr_of 0) 0 2 store in
    (r.0.0 ≡ 0)
    × Describes 2 2 hi r.0.1
    × KeepsAll plain
        (attr_of 0)
        0
        view
        IsGood
        type_of
        HasRoom
        Fits
        plain-Holds
        plain-HasTypes
        store
        r.1
getattr-Describes_example =
    getattr-Describes plain (attr_of 0) 0 view IsGood type_of HasRoom Fits plain-Holds
      plain-HasTypes 2 hi store refl store-IsGood

create_in_root :
    let r = fuseserver_create plain (attr_of 0) 0 1 (98 ∷ []) store in
    (p : EntryParam) × (r.0 ≡ reply_create p)
    × Makes plain
        (attr_of 0)
        0
        view
        IsGood
        type_of
        HasRoom
        Fits
        plain-Holds
        plain-HasTypes
        1
        2
        (98 ∷ [])
        root
        store
        p
        r.1
create_in_root =
    create-Makes plain (attr_of 0) 0 view IsGood type_of HasRoom Fits plain-Holds plain-HasTypes 1
      (98 ∷ []) root store root-IsDir (omega arith, tt) (λ e. cc) refl (omega arith) store-IsGood

create_repeats_example :
    let r = fuseserver_create plain (attr_of 0) 0 1 (97 ∷ []) store in
    (p : EntryParam) × (after : List Dirent) × (r.0 ≡ reply_create p)
    × (view store p.e_ino ≡ none)
    × (view r.1 1 ≡ some (dir_bytes after))
    × (after ≡ root ++ record { name = 97 ∷ []; inum = p.e_ino } ∷ [])
    × (entry_of (97 ∷ []) after ≡ some 2)
create_repeats_example =
    create_repeats plain (attr_of 0) 0 view IsGood type_of HasRoom Fits plain-Holds plain-HasTypes 1
      (97 ∷ []) 2 root store root-IsDir (omega arith, tt) (λ e. cc) refl refl (omega arith)
      store-IsGood

-- Directory 1 has the directory `d` with the number 3, which has the file `a`.
abbrev outer : List Dirent
outer = record { name = 100 ∷ []; inum = 3 } ∷ []

abbrev nested : Store
nested = record {
  next = 4;
  file = λ j.
      if j == 1
      then some (dir_bytes outer)
      else if j == 3
      then some (dir_bytes root)
      else if j == 2
      then some hi
      else none;
  kind = λ j. if j == 2 then 2 else 1;
}

nested-IsGood : IsGood nested
nested-IsGood j h = ground arith

unlink_directory_example :
    let r = fuseserver_unlink plain (attr_of 0) 0 1 (100 ∷ []) nested in
    (r.0 ≡ reply_err no_error)
    × (view r.1 1 ≡ some (dir_bytes []))
    × (view r.1 3 ≡ none)
    × ((j : ℕ) → j ≢ 1 → j ≢ 3 → view r.1 j ≡ view nested j)
unlink_directory_example =
    unlink_directory plain (attr_of 0) 0 view IsGood type_of HasRoom Fits plain-Holds plain-HasTypes
      1 [] [] root (record { name = 100 ∷ []; inum = 3 }) nested tt
      (((omega arith, tt), λ e. cc), omega arith, tt) tt tt refl refl (λ e. ground arith) refl
      nested-IsGood

-- A library that writes the number, the offset and the name.
abbrev lib : FuseLib
lib = record { dirent_size = λ n. n + 2; add_dirent = λ name inum off. name ++ inum ∷ off ∷ [] }

readdir-listing_example :
    let r = fuseserver_readdir plain (attr_of 0) 0 lib 1 10 (width lib []) store in
    (r.0 ≡ reply_buf (take 10 (listing lib (width lib []) root))) × Keeps view IsGood store r.1
readdir-listing_example =
    readdir-listing lib (λ name inum off. length-append name (inum ∷ off ∷ [])) plain (attr_of 0) 0
      view IsGood type_of HasRoom Fits plain-Holds plain-HasTypes 1 10 [] root store root-IsDir refl
      refl store-IsGood

read_of_written :
    let w = fuseserver_write plain (attr_of 0) 0 2 (33 ∷ []) 1 4 store in
    let r = fuseserver_read plain (attr_of 0) 0 2 1 4 w.1 in
    (w.0 ≡ reply_write 1) × (r.0 ≡ reply_buf (33 ∷ [])) × Keeps view IsGood w.1 r.1
read_of_written =
    read-write plain (attr_of 0) 0 view IsGood type_of HasRoom Fits plain-Holds plain-HasTypes 2 1 4
      (33 ∷ []) hi store refl (omega arith) refl tt store-IsGood

lookup-create_example :
    let c = fuseserver_create plain (attr_of 0) 0 1 (98 ∷ []) store in
    let l = fuseserver_lookup plain (attr_of 0) 0 1 (98 ∷ []) c.1 in
    (p q : EntryParam) × (c.0 ≡ reply_create p)
    × (l.0 ≡ reply_entry q)
    × (q.e_ino ≡ p.e_ino)
    × (view store p.e_ino ≡ none)
    × (view l.1 p.e_ino ≡ some [])
lookup-create_example =
    lookup-create plain (attr_of 0) 0 view IsGood type_of HasRoom Fits plain-Holds plain-HasTypes 1
      (98 ∷ []) root store root-IsDir (omega arith, tt) (λ e. cc) refl refl refl (omega arith)
      store-IsGood

unlink-create_example :
    let c = fuseserver_create plain (attr_of 0) 0 1 (98 ∷ []) store in
    let u = fuseserver_unlink plain (attr_of 0) 0 1 (98 ∷ []) c.1 in
    (p : EntryParam) × (c.0 ≡ reply_create p)
    × (u.0 ≡ reply_err no_error)
    × Keeps view IsGood store u.1
unlink-create_example =
    unlink-create plain (attr_of 0) 0 view IsGood type_of HasRoom Fits plain-Holds plain-HasTypes 1
      (98 ∷ []) root store root-IsDir (omega arith, tt) (λ e. cc) refl refl (omega arith)
      store-IsGood

readlink-symlink_example :
    let s = fuseserver_symlink plain (attr_of 0) 0 hi 1 (98 ∷ []) store in
    (p : EntryParam) × (s.0 ≡ reply_entry p)
    × ((fuseserver_readlink plain (attr_of 0) 0 p.e_ino s.1).0 ≡ reply_readlink hi)
    × (view s.1 p.e_ino ≡ some hi)
    × (view s.1 1 ≡ some (dir_bytes (root ++ record { name = 98 ∷ []; inum = p.e_ino } ∷ [])))
readlink-symlink_example =
    readlink-symlink plain (attr_of 0) 0 view IsGood type_of HasRoom Fits plain-Holds plain-HasTypes
      hi 1 (98 ∷ []) root store root-IsDir (omega arith, tt) (λ e. cc) (unfold c_str in refl) refl
      (omega arith) tt store-IsGood

-- ===== src/Tests/Client.antt =====
-- The file system of a client over a plain store of files.
use naive_file_system.Prelude.{
  ℕ, ◌≡◌, refl, arith, false, none, some, List, [], ◌∷◌, ◌++◌, ◌==◌, if◌then◌else◌, take, drop,
}
use naive_file_system.YfsClient.Reading.{Runs, AllWithin, entries-Runs, encode-AllWithin}
use naive_file_system.YfsClient.Text.{encode, uncode, filename, n2i, entries}
use naive_file_system.YfsClient.Codec.{uncode-encode, n2i-filename}
use naive_file_system.YfsClient.Words.{text, entries-text}
use naive_file_system.YfsClient.Operations.{
  read, write, readdir, lookup, addfile, find_result, setattr, unlink,
}
use naive_file_system.YfsClient.Resize.{setattr-resize}
use naive_file_system.YfsClient.Values.{resize, enoent}
use naive_file_system.YfsClient.Unlink.{unlink-removes, unlink-Lacks}
use naive_file_system.YfsClient.Holds.{Keeps, Sets}
use naive_file_system.YfsClient.Content.{read-slice, write-Overwrites}
use naive_file_system.YfsClient.Bytes.{Overwrites}
use naive_file_system.YfsClient.Directory.{readdir-entries, lookup-entry_of, addfile-appends}
use naive_file_system.YfsClient.Entries.{IsDir, dir_bytes, entry_of}
use naive_file_system.Tests.Store.{
  plain, attr_of, view, IsGood, type_of, HasRoom, Fits, plain-Holds, root, root-IsDir, hi, store,
  store-IsGood,
}

uncode_of_name : uncode (encode (97 ∷ 200 ∷ [])) ≡ 97 ∷ 200 ∷ []
uncode_of_name = uncode-encode (97 ∷ 200 ∷ []) (omega arith, (omega arith, tt))

entries-Runs_example : Runs 3 0 [] [] (some (98 ∷ 32 ∷ 50 ∷ [])) (entries (98 ∷ 32 ∷ 50 ∷ []))
entries-Runs_example = entries-Runs (98 ∷ 32 ∷ 50 ∷ [])

encode-AllWithin_example : AllWithin 82 112 (encode (32 ∷ 200 ∷ []))
encode-AllWithin_example = encode-AllWithin (32 ∷ 200 ∷ []) (omega arith, (omega arith, tt))

number_of_name : n2i (filename 1024) ≡ 1024
number_of_name = n2i-filename 1024 (omega arith)

entries_of_text : entries (text ((98 ∷ [], 50 ∷ 51 ∷ []) ∷ [])) ≡ (98 ∷ [], 50 ∷ 51 ∷ []) ∷ []
entries_of_text =
    entries-text ((98 ∷ [], 50 ∷ 51 ∷ []) ∷ [])
      (((refl, tt), λ e. cc), ((refl, (refl, tt)), λ e. cc), tt)

read-slice_example :
    ((read plain (attr_of 0) 2 5 1 [] store).0 ≡ take 5 (drop 1 hi))
    × Keeps view IsGood store (read plain (attr_of 0) 2 5 1 [] store).1
read-slice_example =
    read-slice plain (attr_of 0) view IsGood type_of HasRoom Fits plain-Holds 2 5 1 [] hi store refl
      store-IsGood

write-Overwrites_example :
    (new : List ℕ) × Overwrites 1 4 (33 ∷ []) hi new
    × ((write plain (attr_of 0) 2 1 4 (33 ∷ []) store).0 ≡ some 1)
    × Sets view IsGood 2 (some new) store (write plain (attr_of 0) 2 1 4 (33 ∷ []) store).1
write-Overwrites_example =
    write-Overwrites plain (attr_of 0) view IsGood type_of HasRoom Fits plain-Holds 2 1 4 (33 ∷ [])
      hi store refl (omega arith) refl tt store-IsGood

entries_of_root :
    ((readdir plain (attr_of 0) 1 [] store).0 ≡ (0, root))
    × Keeps view IsGood store (readdir plain (attr_of 0) 1 [] store).1
entries_of_root =
    readdir-entries plain (attr_of 0) view IsGood type_of HasRoom Fits plain-Holds 1 [] root store
      root-IsDir refl refl store-IsGood

lookup-entry_of_example :
    ((lookup plain (attr_of 0) 1 (97 ∷ []) false 0 store).0
      ≡ find_result plain (attr_of 0) (entry_of (97 ∷ []) root) 0)
    × Keeps view IsGood store (lookup plain (attr_of 0) 1 (97 ∷ []) false 0 store).1
lookup-entry_of_example =
    lookup-entry_of plain (attr_of 0) view IsGood type_of HasRoom Fits plain-Holds 1 (97 ∷ []) false
      0 root store root-IsDir refl refl store-IsGood

addfile-appends_example :
    let r = addfile plain (attr_of 0) 1 (98 ∷ []) 0 2 store in
    let after = root ++ record { name = 98 ∷ []; inum = r.0.1 } ∷ [] in
    (r.0.0 ≡ 0)
    × (view store r.0.1 ≡ none)
    × IsDir after
    × ((j : ℕ)
        → view r.1 j ≡ (
            if j == 1
            then some (dir_bytes after)
            else if j == r.0.1
            then some []
            else view store j))
    × IsGood r.1
addfile-appends_example =
    addfile-appends plain (attr_of 0) view IsGood type_of HasRoom Fits plain-Holds 1 (98 ∷ []) 0 2
      root store root-IsDir (omega arith, tt) (λ e. cc) refl (omega arith) store-IsGood

unlink-removes_example :
    let r = unlink plain (attr_of 0) 1 (97 ∷ []) store in
    (r.0 ≡ 0)
    × ((j : ℕ)
        → view r.1 j
          ≡ (if j == 1 then some (dir_bytes []) else if j == 2 then none else view store j))
    × IsGood r.1
unlink-removes_example =
    unlink-removes plain (attr_of 0) view IsGood type_of HasRoom Fits plain-Holds 1 [] []
      (record { name = 97 ∷ []; inum = 2 }) store tt root-IsDir tt tt (λ e. cc) (λ e. ground arith)
      refl store-IsGood

unlink_missing :
    ((unlink plain (attr_of 0) 1 (98 ∷ []) store).0 ≡ enoent)
    × Keeps view IsGood store (unlink plain (attr_of 0) 1 (98 ∷ []) store).1
unlink_missing =
    unlink-Lacks plain (attr_of 0) view IsGood type_of HasRoom Fits plain-Holds 1 (98 ∷ []) root
      store root-IsDir (refl, tt) refl store-IsGood

setattr-resize_example :
    ((setattr plain (attr_of 0) 2 4 store).0 ≡ 0)
    × Sets view IsGood 2 (some (resize hi 4)) store (setattr plain (attr_of 0) 2 4 store).1
setattr-resize_example =
    setattr-resize plain (attr_of 0) view IsGood type_of HasRoom Fits plain-Holds 2 4 hi store
      (omega arith) refl store-IsGood

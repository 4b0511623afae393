-- ===== src/YfsClient/Directory.antt =====
-- Directories of yfs_client.cc: `readdir`, `lookup` and `addfile`.
use naive_file_system.Prelude.{
  ==_ne, ℕ, ◌≡◌, ◌≢◌, refl, sym, ap, ◌∙◌, Bool, false, Option, none, some, List, [], ◌∷◌, ◌++◌,
  ◌==◌, if◌then◌else◌, if_false,
}
use naive_file_system.Inodes.Files.{Attr}
use naive_file_system.ExtentCache.{ok, is_ok}
use naive_file_system.YfsClient.Text.{entries}
use naive_file_system.YfsClient.Codec.{IsBytes}
use naive_file_system.YfsClient.Operations.{
  Extents, find_result, find, lookup, list_dir, readdir, add_entry, addfile, isdir, has_type,
}
use naive_file_system.YfsClient.Values.{Dirent, entry_text, find_entry, dirents, t_dir}
use naive_file_system.YfsClient.Holds.{Keeps, Holds, Keeps-trans, some_ne}
use naive_file_system.YfsClient.Entries.{
  IsDir, IsDir-append, dir_bytes, dir_bytes-append, dirents-pairs, entries-dir_bytes, entry_of,
  find_entry-pairs,
}

module _ {E : Type 0} (x : Extents E) (unset : Attr) (view : E → ℕ → Option (List ℕ))
    (IsGood : E → Type 0) (type_of : E → ℕ → ℕ) (HasRoom : ℕ → E → Type 0) (Fits : E → ℕ → Type 0)
    (holds : Holds view IsGood x type_of HasRoom Fits) where
  -- The attributes and then the bytes of a file are read under its lock.
  pub record Inspects (id : ℕ) (d : List ℕ) (e : E) : Type 0 where
    pub attr_ok : (x.ec_getattr id unset (x.lc_acquire id e)).0 ≡ ok
    pub attr_type : (x.ec_getattr id unset (x.lc_acquire id e)).1.type ≡ type_of e id
    pub bytes : (x.ec_get id [] (x.ec_getattr id unset (x.lc_acquire id e)).2).1 ≡ d
    pub keeps :
        Keeps view IsGood e
          (x.lc_release id (x.ec_get id [] (x.ec_getattr id unset (x.lc_acquire id e)).2).2)

  file-Inspects : (id : ℕ) (d : List ℕ) (e : E) → view e id ≡ some d → IsGood e → Inspects id d e
  file-Inspects id d e v good =
      let l = holds.acquire_keeps id e good in
      let a = x.lc_acquire id e in
      let q = holds.getattr_ok id unset a (some_ne (l.0 id ∙ v)) l.1 in
      let b = (x.ec_getattr id unset a).2 in
      let g = holds.get_ok id [] d b (q.2.0 id ∙ l.0 id ∙ v) q.2.1 in
      let s = (x.ec_get id [] b).2 in
      record {
        attr_ok = q.0;
        attr_type = q.1 ∙ holds.acquire_type id id e;
        bytes = g.0;
        keeps =
            Keeps-trans view IsGood e s (x.lc_release id s)
              (Keeps-trans view IsGood e b s (Keeps-trans view IsGood e a b l q.2) g.1)
              (holds.release_keeps id s g.1.1);
      }

  -- Over clients that keep the laws, `readdir` of a directory answers `OK` and appends its entries,
  -- in their order, to the list; it changes nothing that is seen.
  pub readdir-entries :
      (dir : ℕ) (list ds : List Dirent) (e : E)
      → IsDir ds
      → type_of e dir ≡ t_dir
      → view e dir ≡ some (dir_bytes ds)
      → IsGood e
      → ((readdir x unset dir list e).0 ≡ (0, list ++ ds))
        × Keeps view IsGood e (readdir x unset dir list e).1
  unfolding readdir list_dir isdir has_type is_ok
  readdir-entries dir list ds e h t v good =
      let i = file-Inspects dir (dir_bytes ds) e v good in
      rw i.attr_ok (
        rw (i.attr_type ∙ t) (
          ap (λ b. (0, list ++ dirents (entries b))) i.bytes
              ∙ ap (λ b. (0, list ++ dirents b)) (entries-dir_bytes ds h)
              ∙ ap (λ b. (0, list ++ b)) (dirents-pairs ds h),
          i.keeps,
        ))

  -- Over clients that keep the laws, `lookup` in a directory finds the number of the first entry
  -- with the name, and answers `IOERR` and that the name is not there if no entry has it; it
  -- changes nothing that is seen.
  pub lookup-entry_of :
      (dir : ℕ) (name : List ℕ) (found : Bool) (ino : ℕ) (ds : List Dirent) (e : E)
      → IsDir ds
      → type_of e dir ≡ t_dir
      → view e dir ≡ some (dir_bytes ds)
      → IsGood e
      → ((lookup x unset dir name found ino e).0 ≡ find_result x unset (entry_of name ds) ino)
        × Keeps view IsGood e (lookup x unset dir name found ino e).1
  unfolding lookup find
  lookup-entry_of dir name found ino ds e h t v good =
      let i = file-Inspects dir (dir_bytes ds) e v good in
      rw (i.attr_type ∙ t) (
        ap (λ b. find_result x unset (find_entry name (entries b)) ino) i.bytes
            ∙ ap (λ b. find_result x unset (find_entry name b) ino) (entries-dir_bytes ds h)
            ∙ ap (λ o. find_result x unset o ino) (find_entry-pairs name ds h),
        i.keeps,
      )

  -- Over clients that keep the laws, `addfile` of a name of bytes that is not empty to a directory
  -- answers `OK`, where one more file can be made. It makes an empty file with a number that no
  -- file had, and appends the entry with the name and that number to the directory, which is a
  -- directory still; nothing else that is seen changes.
  pub addfile-appends :
      (parent : ℕ) (name : List ℕ) (ino type : ℕ) (ds : List Dirent) (e : E)
      → IsDir ds
      → IsBytes name
      → name ≢ []
      → view e parent ≡ some (dir_bytes ds)
      → HasRoom type e
      → IsGood e
      → let r = addfile x unset parent name ino type e in
        let after = ds ++ record { name = name; inum = r.0.1 } ∷ [] in
        (r.0.0 ≡ 0)
        × (view e r.0.1 ≡ none)
        × IsDir after
        × ((j : ℕ)
            → view r.1 j ≡ (
                if j == parent
                then some (dir_bytes after)
                else if j == r.0.1
                then some []
                else view e j))
        × IsGood r.1
  unfolding addfile add_entry
  addfile-appends parent name ino type ds e h b ne v room good =
      let l = holds.acquire_keeps parent e good in
      let a = x.lc_acquire parent e in
      let c = holds.create_ok type ino a (holds.acquire_room parent type e room) l.1 in
      let n = (x.ec_create type ino a).1 in
      let m = (x.ec_create type ino a).2 in
      let d : Dirent = record { name = name; inum = n } in
      let fresh : view e n ≡ none = sym (l.0 n) ∙ c.1 in
      let other : (parent == n) ≡ false = ==_ne parent n (λ s. some_ne v (ap (view e) s ∙ fresh)) in
      let seen : view m parent ≡ some (dir_bytes ds) =
        c.2.0 parent ∙ if_false (some []) other ∙ l.0 parent ∙ v in
      let g = holds.get_ok parent [] (dir_bytes ds) m seen c.2.1 in
      let s = (x.ec_get parent [] m).2 in
      let stored : (x.ec_get parent [] m).1 ++ entry_text name n ≡ dir_bytes (ds ++ d ∷ []) =
        ap (λ y. y ++ entry_text name n) g.0 ∙ dir_bytes-append ds d in
      let p =
        holds.put_ok parent (dir_bytes (ds ++ d ∷ [])) s (some_ne (g.1.0 parent ∙ seen)) g.1.1 in
      let q = (x.ec_put parent (dir_bytes (ds ++ d ∷ [])) s).1 in
      let f = holds.release_keeps parent q p.1 in
      (
        refl,
        fresh,
        IsDir-append ds d h ((b, ne), c.0, tt),
        rw stored (λ j.
            f.0 j
            ∙ p.0 j
            ∙ ap (λ w. if j == parent then some (dir_bytes (ds ++ d ∷ [])) else w)
                (g.1.0 j ∙ c.2.0 j ∙ ap (λ w. if j == n then some [] else w) (l.0 j))),
        rw stored f.1,
      )

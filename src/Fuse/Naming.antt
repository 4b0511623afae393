-- ===== src/Fuse/Naming.antt =====
-- Names in directories, as the handlers `create`, `mknod`, `mkdir` and `unlink` of fuse.cc keep them.
use naive_file_system.Prelude.{
  ℕ, ◌≡◌, ◌≢◌, refl, sym, ap, ◌∙◌, subst, Bool, true, false, Option, none, some, List, [], ◌∷◌,
  ◌++◌, if◌then◌else◌, if_true, if_false, ==_refl, ==_ne,
}
use naive_file_system.Inodes.Files.{Attr}
use naive_file_system.YfsClient.Codec.{IsBytes}
use naive_file_system.YfsClient.Operations.{Extents, addfile, add_entry, create, mkdir}
use naive_file_system.YfsClient.Values.{t_dir, t_file, Dirent, same_bytes}
use naive_file_system.YfsClient.Holds.{Holds, HasTypes, some_ne}
use naive_file_system.YfsClient.Directory.{addfile-appends}
use naive_file_system.YfsClient.Entries.{IsDir, dir_bytes, entry_of}
use naive_file_system.YfsClient.Unlink.{Lacks, unlink-removes}
use naive_file_system.Fuse.Handlers.{
  getattr, fuseserver_createhelper, fuseserver_create, fuseserver_unlink,
}
use naive_file_system.Fuse.Replies.{reply_err, reply_create, no_error, EntryParam}
use naive_file_system.Fuse.Attributes.{Describes, getattr-Describes}

-- An entry at the end does not hide an earlier one.
entry_of-append :
    (name : List ℕ) (old : ℕ) (ds es : List Dirent)
    → entry_of name ds ≡ some old
    → entry_of name (ds ++ es) ≡ some old
entry_of-append name old [] es e = cc
entry_of-append name old (d ∷ ds) es e =
    by_test (same_bytes d.name name) (entry_of-append name old ds es) e
  where
    by_test :
        (b : Bool)
        → (entry_of name ds ≡ some old → entry_of name (ds ++ es) ≡ some old)
        → (if b then some d.inum else entry_of name ds) ≡ some old
        → (if b then some d.inum else entry_of name (ds ++ es)) ≡ some old
    by_test true rest f = f
    by_test false rest f = rest f

module _ {E : Type 0} (x : Extents E) (unset : Attr) (unset_ino : ℕ)
    (view : E → ℕ → Option (List ℕ)) (IsGood : E → Type 0) (type_of : E → ℕ → ℕ)
    (HasRoom : ℕ → E → Type 0) (Fits : E → ℕ → Type 0)
    (holds : Holds view IsGood x type_of HasRoom Fits)
    (types : HasTypes view IsGood x type_of HasRoom) where
  -- After `ec_create` in `addfile`: the directory is still seen.
  made_in :
      (parent : ℕ) (ino type : ℕ) (d : List ℕ) (e : E)
      → view e parent ≡ some d
      → HasRoom type e
      → IsGood e
      → let a = x.lc_acquire parent e in
        let r = x.ec_create type ino a in
        (parent ≢ r.1) × (view r.2 parent ≢ none) × IsGood r.2 × IsGood a × HasRoom type a
  made_in parent ino type d e v room good =
      let l = holds.acquire_keeps parent e good in
      let a = x.lc_acquire parent e in
      let more = holds.acquire_room parent type e room in
      let c = holds.create_ok type ino a more l.1 in
      let n = (x.ec_create type ino a).1 in
      let seen : view a parent ≡ some d = l.0 parent ∙ v in
      let apart : parent ≢ n = λ s. some_ne seen (ap (view a) s ∙ c.1) in
      let kept : view (x.ec_create type ino a).2 parent ≡ some d =
        c.2.0 parent ∙ if_false (some []) (==_ne parent n apart) ∙ seen in
      (apart, some_ne kept, c.2.1, l.1, more)

  addfile-type :
      (parent : ℕ) (name : List ℕ) (ino type : ℕ) (d : List ℕ) (e : E)
      → view e parent ≡ some d
      → HasRoom type e
      → IsGood e
      → let r = addfile x unset parent name ino type e in type_of r.1 r.0.1 ≡ type
  unfolding addfile add_entry
  addfile-type parent name ino type d e v room good =
      let m = made_in parent ino type d e v room good in
      types.type_release parent _ _
      ∙ types.type_put parent _ _ _ (λ s. m.0 (sym s))
      ∙ types.type_get parent _ [] _ m.1 m.2
      ∙ types.type_create type ino _

  -- The directory keeps its type.
  addfile-parent :
      (parent : ℕ) (name : List ℕ) (ino type : ℕ) (d : List ℕ) (e : E)
      → view e parent ≡ some d
      → HasRoom type e
      → IsGood e
      → type_of (addfile x unset parent name ino type e).1 parent ≡ type_of e parent
  unfolding addfile add_entry
  addfile-parent parent name ino type d e v room good =
      let m = made_in parent ino type d e v room good in
      types.type_release parent _ _
      ∙ types.type_got parent [] _ _ m.1 m.2
      ∙ types.type_create_other type ino parent _ m.4 m.3 m.0
      ∙ holds.acquire_type parent parent e

  -- There is as much room as before.
  pub addfile-Fits :
      (parent : ℕ) (name : List ℕ) (ino type n : ℕ) (d : List ℕ) (e : E)
      → view e parent ≡ some d
      → HasRoom type e
      → IsGood e
      → Fits e n
      → Fits (addfile x unset parent name ino type e).1 n
  unfolding addfile add_entry
  addfile-Fits parent name ino type n d e v room good fits =
      let m = made_in parent ino type d e v room good in
      let made = holds.create_fits type ino n _ m.4 m.3 (holds.acquire_fits parent n e fits) in
      holds.release_fits parent n _
        (holds.put_fits parent _ n _ (holds.get_fits parent [] n _ m.1 m.2 made))

  -- What a new name in a directory with the entries `ds` leaves: an entry for a number that no file
  -- had, at the end, and an empty file of the type, which the attributes describe.
  pub record Makes (parent type : ℕ) (name : List ℕ) (ds : List Dirent) (e : E) (p : EntryParam)
      (d : E) : Type 0 where
    pub fresh : view e p.e_ino ≡ none
    pub empty : view d p.e_ino ≡ some []
    pub listed :
        view d parent ≡ some (dir_bytes (ds ++ record { name = name; inum = p.e_ino } ∷ []))
    pub others : (j : ℕ) → j ≢ parent → j ≢ p.e_ino → view d j ≡ view e j
    pub is_dir : IsDir (ds ++ record { name = name; inum = p.e_ino } ∷ [])
    pub parent_type : type_of d parent ≡ type_of e parent
    pub described : Describes p.e_ino type [] p.attr
    pub good : IsGood d

  made-Makes :
      (parent : ℕ) (name : List ℕ) (type : ℕ) (ds : List Dirent) (e : E)
      → IsDir ds
      → IsBytes name
      → name ≢ []
      → view e parent ≡ some (dir_bytes ds)
      → HasRoom type e
      → IsGood e
      → let r = addfile x unset parent name unset_ino type e in
        let a = getattr x unset unset_ino r.0.1 r.1 in
        (r.0.0 ≡ 0)
        × (a.0.0 ≡ 0)
        × Makes parent type name ds e (record { e_ino = r.0.1; generation = 0; attr = a.0.1 }) a.1
  made-Makes parent name type ds e h b ne v room good =
      let m =
        addfile-appends x unset view IsGood type_of HasRoom Fits holds parent name unset_ino type ds
          e h b ne v room good in
      let r = addfile x unset parent name unset_ino type e in
      let apart : r.0.1 ≢ parent = λ s. some_ne v (ap (view e) (sym s) ∙ m.1) in
      let empty : view r.1 r.0.1 ≡ some [] =
        m.3 r.0.1
        ∙ if_false _ (==_ne r.0.1 parent apart)
        ∙ if_true (view e r.0.1) (==_refl r.0.1) in
      let a =
        getattr-Describes x unset unset_ino view IsGood type_of HasRoom Fits holds types r.0.1 []
          r.1 empty m.4 in
      let d = (getattr x unset unset_ino r.0.1 r.1).1 in
      (
        m.0,
        a.0,
        record {
          fresh = m.1;
          empty = a.2.1.0 r.0.1 ∙ empty;
          listed = a.2.1.0 parent ∙ m.3 parent ∙ if_true _ (==_refl parent);
          others = λ j a' b'.
              a.2.1.0 j
              ∙ m.3 j
              ∙ if_false _ (==_ne j parent a')
              ∙ if_false (some []) (==_ne j r.0.1 b');
          is_dir = m.2;
          parent_type =
              a.2.0 parent ∙ addfile-parent parent name unset_ino type (dir_bytes ds) e v room good;
          described =
              subst (λ n. Describes r.0.1 n [] (getattr x unset unset_ino r.0.1 r.1).0.1)
                (addfile-type parent name unset_ino type (dir_bytes ds) e v room good) a.1;
          good = a.2.1.1;
        },
      )

  -- Over clients that keep the laws, `create` in a directory replies with the number and the
  -- attributes of a new empty file; the directory has the name at its end then.
  pub create-Makes :
      (parent : ℕ) (name : List ℕ) (ds : List Dirent) (e : E)
      → IsDir ds
      → IsBytes name
      → name ≢ []
      → view e parent ≡ some (dir_bytes ds)
      → HasRoom t_file e
      → IsGood e
      → let r = fuseserver_create x unset unset_ino parent name e in
        (p : EntryParam) × (r.0 ≡ reply_create p) × Makes parent t_file name ds e p r.1
  unfolding fuseserver_create fuseserver_createhelper create mkdir
  create-Makes parent name ds e h b ne v room good =
      let m = made-Makes parent name t_file ds e h b ne v room good in
      rw m.0 (rw m.1 (_, refl, m.2))

  -- Over clients that keep the laws and have room, `create` of a name of bytes that is not empty and
  -- that an entry of the directory has does not fail: it replies with a number that no file had and
  -- appends a second entry of the name, and the name still leads to the old file.
  pub create_repeats :
      (parent : ℕ) (name : List ℕ) (old : ℕ) (ds : List Dirent) (e : E)
      → IsDir ds
      → IsBytes name
      → name ≢ []
      → entry_of name ds ≡ some old
      → view e parent ≡ some (dir_bytes ds)
      → HasRoom t_file e
      → IsGood e
      → let r = fuseserver_create x unset unset_ino parent name e in
        (p : EntryParam) × (after : List Dirent) × (r.0 ≡ reply_create p)
        × (view e p.e_ino ≡ none)
        × (view r.1 parent ≡ some (dir_bytes after))
        × (after ≡ ds ++ record { name = name; inum = p.e_ino } ∷ [])
        × (entry_of name after ≡ some old)
  create_repeats parent name old ds e h b ne f v room good =
      let (p, run, m) = create-Makes parent name ds e h b ne v room good in
      (p, _, run, m.fresh, m.listed, refl, entry_of-append name old ds _ f)

  -- Over clients that keep the laws, `unlink` of a name that one entry of a directory has succeeds
  -- also where its file is a directory other than that one, with any entries: the entry and that
  -- directory are removed, and all other files are left in place.
  pub unlink_directory :
      (parent : ℕ) (before after inner : List Dirent) (d : Dirent) (e : E)
      → IsDir before
      → IsDir (d ∷ after)
      → Lacks d.name before
      → Lacks d.name after
      → type_of e d.inum ≡ t_dir
      → view e d.inum ≡ some (dir_bytes inner)
      → d.inum ≢ parent
      → view e parent ≡ some (dir_bytes (before ++ d ∷ after))
      → IsGood e
      → let r = fuseserver_unlink x unset unset_ino parent d.name e in
        (r.0 ≡ reply_err no_error)
        × (view r.1 parent ≡ some (dir_bytes (before ++ after)))
        × (view r.1 d.inum ≡ none)
        × ((j : ℕ) → j ≢ parent → j ≢ d.inum → view r.1 j ≡ view e j)
  unfolding fuseserver_unlink
  unlink_directory parent before after inner d e h k l m t w ne v good =
      let u =
        unlink-removes x unset view IsGood type_of HasRoom Fits holds parent before after d e h k l
          m (some_ne w) ne v good in
      rw u.0 (
        refl,
        u.1 parent ∙ if_true _ (==_refl parent),
        u.1 d.inum ∙ if_false _ (==_ne d.inum parent ne) ∙ if_true (view e d.inum) (==_refl d.inum),
        λ j a b. u.1 j ∙ if_false _ (==_ne j parent a) ∙ if_false none (==_ne j d.inum b),
      )

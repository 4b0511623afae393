-- ===== src/Fuse/RoundTrips.antt =====
-- Requests of fuse.cc that read what an earlier request has written.
use naive_file_system.Prelude.{
  ℕ, ◌+◌, ◌<◌, ◌≤◌, ◌^◌, ◌≡◌, ◌≢◌, refl, sym, ap, ◌∙◌, arith, Option, some, none, List, [], ◌∷◌,
  ◌++◌, length, take, drop, ltb, ==_refl, ==_ne, if_true, if_false, Bool-cases, inl, inr, Bool,
  true, false, if◌then◌else◌, length-take, length-drop, get_or-take, get_or-drop, list_ext,
}
use naive_file_system.Inodes.Files.{Attr}
use naive_file_system.YfsClient.Codec.{IsBytes}
use naive_file_system.YfsClient.Operations.{Extents, addfile, lookup, write, symlink, readlink}
use naive_file_system.YfsClient.Values.{t_file, t_dir, t_symlk, Dirent, same_bytes}
use naive_file_system.YfsClient.Holds.{
  Keeps-trans, Sets-between, Holds, HasTypes, Keeps, Sets, Sets-seen, some_ne,
}
use naive_file_system.YfsClient.Content.{read-slice, write-Overwrites}
use naive_file_system.YfsClient.Bytes.{longer_of, Overwrites}
use naive_file_system.YfsClient.Directory.{addfile-appends, lookup-entry_of}
use naive_file_system.YfsClient.Entries.{IsDir, dir_bytes, entry_of}
use naive_file_system.YfsClient.Unlink.{same_bytes_refl}
use naive_file_system.Fuse.Handlers.{
  getattr, fuseserver_create, fuseserver_lookup, fuseserver_read, fuseserver_write,
  fuseserver_symlink, fuseserver_readlink,
}
use naive_file_system.Fuse.Replies.{
  reply_buf, reply_create, reply_entry, reply_readlink, reply_write, c_str, EntryParam,
}
use naive_file_system.Fuse.Attributes.{getattr-Describes}
use naive_file_system.Fuse.Naming.{addfile-Fits, create-Makes}

-- The bytes that a `write` has put into a file.
overwritten :
    (size off : ℕ) (bytes old new : List ℕ)
    → length bytes ≡ size
    → Overwrites size off bytes old new
    → take size (drop off new) ≡ bytes
overwritten size off bytes old new e w =
    list_ext 0 (take size (drop off new)) bytes (long ∙ sym e) (λ k lt.
      let small : k < size = omega (arith, long) in
      get_or-take 0 size k (drop off new)
      ∙ if_true {b = ltb k size} 0 (ground arith)
      ∙ get_or-drop 0 off k (off + k) new refl
      ∙ w.inside k small)
  where
    enough : off + size ≤ length new
    enough = elim (Bool-cases (ltb (off + size) (length old))) [
      | inl more ↦ ground (arith, w.kept)
      | inr less ↦ ground (arith, w.grown)
    ]

    long : length (take size (drop off new)) ≡ size
    long = omega (arith, enough, length-take size (drop off new), length-drop off new)

-- An entry at the end is found if no other one has its name.
entry_of-last :
    (name : List ℕ) (inum : ℕ) (ds : List Dirent)
    → entry_of name ds ≡ none
    → entry_of name (ds ++ record { name = name; inum = inum } ∷ []) ≡ some inum
entry_of-last name inum [] e = if_true none (same_bytes_refl name)
entry_of-last name inum (d ∷ ds) e = by_test (same_bytes d.name name) (entry_of-last name inum ds) e
  where
    rest : List Dirent
    rest = ds ++ record { name = name; inum = inum } ∷ []

    by_test :
        (b : Bool)
        → (entry_of name ds ≡ none → entry_of name rest ≡ some inum)
        → (if b then some d.inum else entry_of name ds) ≡ none
        → (if b then some d.inum else entry_of name rest) ≡ some inum
    by_test true f n = cc
    by_test false f n = f n

module _ {E : Type 0} (x : Extents E) (unset : Attr) (unset_ino : ℕ)
    (view : E → ℕ → Option (List ℕ)) (IsGood : E → Type 0) (type_of : E → ℕ → ℕ)
    (HasRoom : ℕ → E → Type 0) (Fits : E → ℕ → Type 0)
    (holds : Holds view IsGood x type_of HasRoom Fits)
    (types : HasTypes view IsGood x type_of HasRoom) where
  -- Over clients that keep the laws, a `write` of `size` bytes to a file that is seen, whose end is
  -- below 2 ^ 64 and for whose new length there is room, and a `read` of the same part after it:
  -- the first one replies with the size, and the second one with just these bytes and changes
  -- nothing that is seen.
  pub read-write :
      (ino size off : ℕ) (bytes old : List ℕ) (e : E)
      → length bytes ≡ size
      → off + size < 2 ^ 64
      → view e ino ≡ some old
      → Fits e (longer_of (length old) (off + size))
      → IsGood e
      → let w = fuseserver_write x unset unset_ino ino bytes size off e in
        let r = fuseserver_read x unset unset_ino ino size off w.1 in
        (w.0 ≡ reply_write size) × (r.0 ≡ reply_buf bytes) × Keeps view IsGood w.1 r.1
  unfolding fuseserver_write fuseserver_read
  read-write ino size off bytes old e le fits v room good =
      let w =
        write-Overwrites x unset view IsGood type_of HasRoom Fits holds ino size off bytes old e le
          fits v room good in
      let d = (write x unset ino size off bytes e).1 in
      let r =
        read-slice x unset view IsGood type_of HasRoom Fits holds ino size off [] w.0 d
          (Sets-seen view IsGood ino w.0 e d w.3) w.3.1 in
      rw w.2 (refl, ap reply_buf (r.0 ∙ overwritten size off bytes old w.0 le w.1), r.1)

  -- Over clients that keep the laws and have room, `create` in a directory of a name of bytes that is
  -- not empty and that no entry has, and a `lookup` of that name after it: both reply with the same
  -- number, which no file had before, and the file is empty.
  pub lookup-create :
      (parent : ℕ) (name : List ℕ) (ds : List Dirent) (e : E)
      → IsDir ds
      → IsBytes name
      → name ≢ []
      → entry_of name ds ≡ none
      → type_of e parent ≡ t_dir
      → view e parent ≡ some (dir_bytes ds)
      → HasRoom t_file e
      → IsGood e
      → let c = fuseserver_create x unset unset_ino parent name e in
        let l = fuseserver_lookup x unset unset_ino parent name c.1 in
        (p q : EntryParam) × (c.0 ≡ reply_create p)
        × (l.0 ≡ reply_entry q)
        × (q.e_ino ≡ p.e_ino)
        × (view e p.e_ino ≡ none)
        × (view l.1 p.e_ino ≡ some [])
  unfolding fuseserver_lookup
  lookup-create parent name ds e h b ne absent t v room good =
      let (p, run, m) =
        create-Makes x unset unset_ino view IsGood type_of HasRoom Fits holds types parent name ds e
          h b ne v room good in
      let c = (fuseserver_create x unset unset_ino parent name e).1 in
      let l =
        lookup-entry_of x unset view IsGood type_of HasRoom Fits holds parent name false unset_ino _
          c m.is_dir (m.parent_type ∙ t) m.listed m.good in
      let d = (lookup x unset parent name false unset_ino c).1 in
      let found = entry_of-last name p.e_ino ds absent in
      let a =
        getattr-Describes x unset unset_ino view IsGood type_of HasRoom Fits holds types p.e_ino []
          d (l.1.0 p.e_ino ∙ m.empty) l.1.1 in
      rw l.0 (rw found (p, _, run, refl, refl, m.fresh, a.2.1.0 p.e_ino ∙ l.1.0 p.e_ino ∙ m.empty))

  -- The bytes of a link are put and written back under its lock.
  abbrev stored_in : ℕ → List ℕ → E → E
  stored_in n target e = x.lc_release n (x.ec_flush n (x.ec_put n target (x.lc_acquire n e)).1).1

  stored-Sets :
      (n : ℕ) (target old : List ℕ) (e : E)
      → view e n ≡ some old
      → Fits e (length target)
      → IsGood e
      → Sets view IsGood n (some target) e (stored_in n target e)
  stored-Sets n target old e v room good =
      let l = holds.acquire_keeps n e good in
      let a = x.lc_acquire n e in
      let put = holds.put_ok n target a (some_ne (l.0 n ∙ v)) l.1 in
      let p = (x.ec_put n target a).1 in
      let flush =
        holds.flush_ok n target p (Sets-seen view IsGood n target a p put)
          (holds.put_fits n target (length target) a (holds.acquire_fits n (length target) e room))
          put.1 in
      let f = (x.ec_flush n p).1 in
      Sets-between view IsGood n (some target) e a p (x.lc_release n f) l put
        (Keeps-trans view IsGood p f (x.lc_release n f) flush (holds.release_keeps n f flush.1))

  -- Over clients that keep the laws and have room for a link and its bytes, `symlink` in a
  -- directory with a name of bytes that is not empty, and a `readlink` of the number that it
  -- replies with: that one replies with the target, if this has no byte 0 in it. The file has the
  -- target's bytes, and the directory has the name at its end.
  pub readlink-symlink :
      (target : List ℕ) (parent : ℕ) (name : List ℕ) (ds : List Dirent) (e : E)
      → IsDir ds
      → IsBytes name
      → name ≢ []
      → c_str target ≡ target
      → view e parent ≡ some (dir_bytes ds)
      → HasRoom t_symlk e
      → Fits e (length target)
      → IsGood e
      → let s = fuseserver_symlink x unset unset_ino target parent name e in
        (p : EntryParam) × (s.0 ≡ reply_entry p)
        × ((fuseserver_readlink x unset unset_ino p.e_ino s.1).0 ≡ reply_readlink target)
        × (view s.1 p.e_ino ≡ some target)
        × (view s.1 parent ≡ some (dir_bytes (ds ++ record { name = name; inum = p.e_ino } ∷ [])))
  unfolding fuseserver_symlink fuseserver_readlink symlink readlink
  readlink-symlink target parent name ds e h b ne whole v room fits good =
      let m =
        addfile-appends x unset view IsGood type_of HasRoom Fits holds parent name unset_ino t_symlk
          ds e h b ne v room good in
      let r = addfile x unset parent name unset_ino t_symlk e in
      let n = r.0.1 in
      let apart : n ≢ parent = λ s. some_ne v (ap (view e) (sym s) ∙ m.1) in
      let empty : view r.1 n ≡ some [] =
        m.3 n ∙ if_false _ (==_ne n parent apart) ∙ if_true (view e n) (==_refl n) in
      let k =
        stored-Sets n target [] r.1 empty
          (addfile-Fits x unset unset_ino view IsGood type_of HasRoom Fits holds types parent name
            unset_ino t_symlk (length target) (dir_bytes ds) e v room good fits)
          m.4 in
      let d = stored_in n target r.1 in
      let seen = Sets-seen view IsGood n target r.1 d k in
      let a =
        getattr-Describes x unset unset_ino view IsGood type_of HasRoom Fits holds types n target d
          seen k.1 in
      let c = (getattr x unset unset_ino n d).1 in
      let there = a.2.1.0 n ∙ seen in
      let l = holds.acquire_keeps n c a.2.1.1 in
      let g = holds.get_ok n [] target (x.lc_acquire n c) (l.0 n ∙ there) l.1 in
      rw m.0 (
        _,
        refl,
        ap (λ s. reply_readlink (c_str s)) g.0 ∙ ap reply_readlink whole,
        there,
        a.2.1.0 parent
            ∙ k.0 parent
            ∙ if_false (some target) (==_ne parent n (λ s. apart (sym s)))
            ∙ m.3 parent
            ∙ if_true _ (==_refl parent),
      )

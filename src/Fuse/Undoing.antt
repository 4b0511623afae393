-- ===== src/Fuse/Undoing.antt =====
-- `unlink` of fuse.cc takes back what `create` has done.
use naive_file_system.Prelude.{
  ℕ, ◌≡◌, ◌≢◌, refl, sym, ap, ◌∙◌, arith, Option, some, none, List, [], ◌∷◌, ◌++◌, Bool, true,
  false, if◌then◌else◌, if_true, if_false, ==_eq, Bool-cases, inl, inr, ◌==◌,
}
use naive_file_system.Inodes.Files.{Attr}
use naive_file_system.YfsClient.Codec.{IsBytes}
use naive_file_system.YfsClient.Operations.{Extents}
use naive_file_system.YfsClient.Values.{t_file, Dirent, same_bytes}
use naive_file_system.YfsClient.Holds.{Holds, HasTypes, Keeps, some_ne}
use naive_file_system.YfsClient.Entries.{IsDir, dir_bytes, entry_of}
use naive_file_system.YfsClient.Unlink.{Lacks, append_nil, unlink-removes}
use naive_file_system.Fuse.Handlers.{fuseserver_create, fuseserver_unlink}
use naive_file_system.Fuse.Replies.{reply_create, reply_err, no_error, EntryParam}
use naive_file_system.Fuse.Naming.{create-Makes}

-- A name that no entry leads to.
entry_of-Lacks : (name : List ℕ) (ds : List Dirent) → entry_of name ds ≡ none → Lacks name ds
entry_of-Lacks name [] e = tt
entry_of-Lacks name (d ∷ ds) e = by_test (same_bytes d.name name) (entry_of-Lacks name ds) refl e
  where
    by_test :
        (b : Bool)
        → (entry_of name ds ≡ none → Lacks name ds)
        → same_bytes d.name name ≡ b
        → (if b then some d.inum else entry_of name ds) ≡ none
        → Lacks name (d ∷ ds)
    by_test true f s n = cc
    by_test false f s n = (s, f n)

IsDir-end : (ds es : List Dirent) → IsDir (ds ++ es) → IsDir es
IsDir-end [] es h = h
IsDir-end (d ∷ ds) es h = IsDir-end ds es h.2

module _ {E : Type 0} (x : Extents E) (unset : Attr) (unset_ino : ℕ)
    (view : E → ℕ → Option (List ℕ)) (IsGood : E → Type 0) (type_of : E → ℕ → ℕ)
    (HasRoom : ℕ → E → Type 0) (Fits : E → ℕ → Type 0)
    (holds : Holds view IsGood x type_of HasRoom Fits)
    (types : HasTypes view IsGood x type_of HasRoom) where
  -- Over clients that keep the laws and have room, `create` in a directory of a name of bytes that is
  -- not empty and that no entry has, and an `unlink` of that name after it: both succeed, and then
  -- each file is seen just as before, the directory too.
  pub unlink-create :
      (parent : ℕ) (name : List ℕ) (ds : List Dirent) (e : E)
      → IsDir ds
      → IsBytes name
      → name ≢ []
      → entry_of name ds ≡ none
      → view e parent ≡ some (dir_bytes ds)
      → HasRoom t_file e
      → IsGood e
      → let c = fuseserver_create x unset unset_ino parent name e in
        let u = fuseserver_unlink x unset unset_ino parent name c.1 in
        (p : EntryParam) × (c.0 ≡ reply_create p)
        × (u.0 ≡ reply_err no_error)
        × Keeps view IsGood e u.1
  unfolding fuseserver_unlink
  unlink-create parent name ds e h b ne absent v room good =
      let (p, run, m) =
        create-Makes x unset unset_ino view IsGood type_of HasRoom Fits holds types parent name ds e
          h b ne v room good in
      let c = (fuseserver_create x unset unset_ino parent name e).1 in
      let d : Dirent = record { name = name; inum = p.e_ino } in
      let u =
        unlink-removes x unset view IsGood type_of HasRoom Fits holds parent ds [] d c h
          (IsDir-end ds (d ∷ []) m.is_dir) (entry_of-Lacks name ds absent) tt (some_ne m.empty)
          (λ s. some_ne v (ap (view e) (sym s) ∙ m.fresh)) m.listed m.good in
      rw u.0 (
        p,
        run,
        refl,
        (
          λ j. u.1 j ∙ elim (Bool-cases (j == parent)) [
            | inl s ↦
                if_true _ s
                ∙ ap (λ l. some (dir_bytes l)) (append_nil ds)
                ∙ sym v
                ∙ ap (view e) (sym (==_eq j parent s))
            | inr o ↦ if_false _ o ∙ elim (Bool-cases (j == p.e_ino)) [
              | inl s ↦ if_true _ s ∙ sym m.fresh ∙ ap (view e) (sym (==_eq j p.e_ino s))
              | inr other ↦ if_false none other ∙ m.others j (λ q. ground arith) (λ q. ground arith)
            ]
          ],
          u.2,
        ),
      )

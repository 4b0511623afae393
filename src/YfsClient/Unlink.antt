-- ===== src/YfsClient/Unlink.antt =====
-- `unlink` of yfs_client.cc on a directory as a list of entries.
use naive_file_system.Prelude.{
  ==_refl, ℕ, ◌≡◌, ◌≢◌, refl, sym, ap, ◌∙◌, Bool, true, false, Option, none, some, List, [], ◌∷◌,
  ◌++◌, ◌==◌, if◌then◌else◌, if_true, if_false, ==_ne,
}
use naive_file_system.Inodes.Files.{Attr}
use naive_file_system.YfsClient.Text.{encode, uncode, filename, entries}
use naive_file_system.YfsClient.Codec.{uncode-encode, n2i-filename}
use naive_file_system.YfsClient.Operations.{Extents, unlink_loop, unlink_entry, unlink}
use naive_file_system.YfsClient.Values.{Dirent, same_bytes, enoent}
use naive_file_system.YfsClient.Holds.{Keeps, Holds, Keeps-trans, some_ne}
use naive_file_system.YfsClient.Entries.{IsDir, pairs, dir_bytes, append_assoc, entries-dir_bytes}

-- No entry has the name.
abbrev pub Lacks : List ℕ → List Dirent → Type 0
Lacks name [] = Unit
Lacks name (d ∷ ds) = (same_bytes d.name name ≡ false) × Lacks name ds

pub append_nil {ℓ} : {A : Type ℓ} (a : List A) → a ++ [] ≡ a
append_nil [] = refl
append_nil (x ∷ a) = ap (λ r. x ∷ r) (append_nil a)

pub same_bytes_refl : (s : List ℕ) → same_bytes s s ≡ true
same_bytes_refl [] = refl
same_bytes_refl (c ∷ s) = rw (==_refl c) (same_bytes_refl s)

pairs-append : (ds es : List Dirent) → pairs (ds ++ es) ≡ pairs ds ++ pairs es
unfolding pairs
pairs-append [] es = refl
pairs-append (d ∷ ds) es = ap (λ r. (encode d.name, filename d.inum) ∷ r) (pairs-append ds es)

dir_bytes-join : (ds es : List Dirent) → dir_bytes ds ++ dir_bytes es ≡ dir_bytes (ds ++ es)
unfolding dir_bytes pairs
dir_bytes-join [] es = refl
dir_bytes-join (d ∷ ds) es =
    append_assoc (encode d.name) (32 ∷ (filename d.inum ++ 32 ∷ dir_bytes ds)) (dir_bytes es)
    ∙ ap (λ r. encode d.name ++ 32 ∷ r)
        (append_assoc (filename d.inum) (32 ∷ dir_bytes ds) (dir_bytes es)
          ∙ ap (λ r. filename d.inum ++ 32 ∷ r) (dir_bytes-join ds es))

IsDir-join : (ds es : List Dirent) → IsDir ds → IsDir es → IsDir (ds ++ es)
IsDir-join [] es h k = k
IsDir-join (d ∷ ds) es h k = (h.0, h.1, IsDir-join ds es h.2 k)

module _ {E : Type 0} (x : Extents E) (unset : Attr) where
  -- The loop copies the entries that do not have the name.
  unlink_loop-Lacks :
      (name : List ℕ) (ds : List Dirent) (rest : List (List ℕ × List ℕ)) (flag : Bool)
      (acc : List ℕ) (e : E)
      → IsDir ds
      → Lacks name ds
      → unlink_loop x unset name (pairs ds ++ rest) flag acc e
        ≡ unlink_loop x unset name rest flag (acc ++ dir_bytes ds) e
  unfolding unlink_loop pairs dir_bytes
  unlink_loop-Lacks name [] rest flag acc e h l =
      ap (λ r. unlink_loop x unset name rest flag r e) (sym (append_nil acc))
  unlink_loop-Lacks name (d ∷ ds) rest flag acc e h l =
      let other : same_bytes (uncode (encode d.name)) name ≡ false =
        ap (λ s. same_bytes s name) (uncode-encode d.name h.0.0) ∙ l.0 in
      if_false _ other
      ∙ unlink_loop-Lacks name ds rest flag _ e h.2 l.1
      ∙ ap (λ r. unlink_loop x unset name rest flag r e)
          (append_assoc (acc ++ encode d.name) (32 ∷ (filename d.inum ++ 32 ∷ [])) (dir_bytes ds)
            ∙ append_assoc acc (encode d.name) (32 ∷ ((filename d.inum ++ 32 ∷ []) ++ dir_bytes ds))
            ∙ ap (λ r. acc ++ (encode d.name ++ 32 ∷ r))
                (append_assoc (filename d.inum) (32 ∷ []) (dir_bytes ds)))

  -- The loop over a directory in which one entry has the name.
  unlink_loop-once :
      (name : List ℕ) (before after : List Dirent) (d : Dirent) (e : E)
      → IsDir before
      → IsDir (d ∷ after)
      → Lacks name before
      → Lacks name after
      → d.name ≡ name
      → unlink_loop x unset name (pairs (before ++ d ∷ after)) false [] e
        ≡ (true, dir_bytes (before ++ after), (x.ec_remove d.inum e).1)
  unlink_loop-once name before after d e h k l m same =
      ap (λ r. unlink_loop x unset name r false [] e) (pairs-append before (d ∷ after))
      ∙ unlink_loop-Lacks name before (pairs (d ∷ after)) false [] e h l
      ∙ found
      ∙ ap (λ r. unlink_loop x unset name r true (dir_bytes before) (x.ec_remove d.inum e).1)
          (sym (append_nil (pairs after)))
      ∙ unlink_loop-Lacks name after [] true (dir_bytes before) (x.ec_remove d.inum e).1 k.2 m
      ∙ (unfold unlink_loop in
          ap (λ r. (true, r, (x.ec_remove d.inum e).1)) (dir_bytes-join before after))
    where
      found :
          unlink_loop x unset name (pairs (d ∷ after)) false (dir_bytes before) e
          ≡ unlink_loop x unset name (pairs after) true (dir_bytes before) (x.ec_remove d.inum e).1
      found =
          unfold unlink_loop in
          unfold pairs in
          if_true _
            (ap (λ s. same_bytes s name) (uncode-encode d.name k.0.0 ∙ same) ∙ same_bytes_refl name)
          ∙ ap
              (λ n.
                unlink_loop x unset name (pairs after) true (dir_bytes before) (x.ec_remove n e).1)
              (n2i-filename d.inum k.1)

module _ {E : Type 0} (x : Extents E) (unset : Attr) (view : E → ℕ → Option (List ℕ))
    (IsGood : E → Type 0) (type_of : E → ℕ → ℕ) (HasRoom : ℕ → E → Type 0) (Fits : E → ℕ → Type 0)
    (holds : Holds view IsGood x type_of HasRoom Fits) where
  -- Over clients that keep the laws, `unlink` of a name that one entry of the directory has, whose
  -- file is seen and is not the directory, answers `OK`. The directory loses that entry and keeps
  -- the others in their order, the file is removed, and nothing else that is seen changes.
  pub unlink-removes :
      (parent : ℕ) (before after : List Dirent) (d : Dirent) (e : E)
      → IsDir before
      → IsDir (d ∷ after)
      → Lacks d.name before
      → Lacks d.name after
      → view e d.inum ≢ none
      → d.inum ≢ parent
      → view e parent ≡ some (dir_bytes (before ++ d ∷ after))
      → IsGood e
      → let r = unlink x unset parent d.name e in
        (r.0 ≡ 0)
        × ((j : ℕ)
            → view r.1 j ≡ (
                if j == parent
                then some (dir_bytes (before ++ after))
                else if j == d.inum
                then none
                else view e j))
        × IsGood r.1
  unfolding unlink unlink_entry
  unlink-removes parent before after d e h k l m seen ne v good =
      let q = holds.acquire_keeps parent e good in
      let a = x.lc_acquire parent e in
      let g = holds.get_ok parent [] (dir_bytes (before ++ d ∷ after)) a (q.0 parent ∙ v) q.1 in
      let s = (x.ec_get parent [] a).2 in
      let loop : unlink_loop x unset d.name (entries (x.ec_get parent [] a).1) false [] s
          ≡ (true, dir_bytes (before ++ after), (x.ec_remove d.inum s).1) =
        ap (λ b. unlink_loop x unset d.name (entries b) false [] s) g.0
        ∙ ap (λ b. unlink_loop x unset d.name b false [] s)
            (entries-dir_bytes (before ++ d ∷ after) (IsDir-join before (d ∷ after) h k))
        ∙ unlink_loop-once x unset d.name before after d s h k l m refl in
      let same : (j : ℕ) → view s j ≡ view e j = λ j. g.1.0 j ∙ q.0 j in
      let gone = holds.remove_ok d.inum s (λ n. seen (sym (same d.inum) ∙ n)) g.1.1 in
      let t = (x.ec_remove d.inum s).1 in
      let dir : view t parent ≡ some (dir_bytes (before ++ d ∷ after)) =
        gone.0 parent ∙ if_false none (==_ne parent d.inum (λ p. ne (sym p))) ∙ same parent ∙ v in
      let put = holds.put_ok parent (dir_bytes (before ++ after)) t (some_ne dir) gone.1 in
      let p = (x.ec_put parent (dir_bytes (before ++ after)) t).1 in
      let f = holds.release_keeps parent p put.1 in
      rw loop (
        refl,
        λ j.
            f.0 j
            ∙ put.0 j
            ∙ ap (λ w. if j == parent then some (dir_bytes (before ++ after)) else w)
                (gone.0 j ∙ ap (λ w. if j == d.inum then none else w) (same j)),
        f.1,
      )

  -- Over clients that keep the laws, `unlink` of a name that no entry of the directory has answers
  -- `ENOENT` and changes nothing that is seen.
  pub unlink-Lacks :
      (parent : ℕ) (name : List ℕ) (ds : List Dirent) (e : E)
      → IsDir ds
      → Lacks name ds
      → view e parent ≡ some (dir_bytes ds)
      → IsGood e
      → ((unlink x unset parent name e).0 ≡ enoent)
        × Keeps view IsGood e (unlink x unset parent name e).1
  unfolding unlink unlink_entry
  unlink-Lacks parent name ds e h l v good =
      let q = holds.acquire_keeps parent e good in
      let a = x.lc_acquire parent e in
      let g = holds.get_ok parent [] (dir_bytes ds) a (q.0 parent ∙ v) q.1 in
      let s = (x.ec_get parent [] a).2 in
      let loop : unlink_loop x unset name (entries (x.ec_get parent [] a).1) false [] s
          ≡ (false, dir_bytes ds, s) =
        ap (λ b. unlink_loop x unset name (entries b) false [] s) g.0
        ∙ ap (λ b. unlink_loop x unset name b false [] s) (entries-dir_bytes ds h)
        ∙ ap (λ b. unlink_loop x unset name b false [] s) (sym (append_nil (pairs ds)))
        ∙ unlink_loop-Lacks x unset name ds [] false [] s h l
        ∙ (unfold unlink_loop in refl) in
      rw loop (
        refl,
        Keeps-trans view IsGood e s (x.lc_release parent s) (Keeps-trans view IsGood e a s q g.1)
            (holds.release_keeps parent s g.1.1),
      )

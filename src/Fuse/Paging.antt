-- ===== src/Fuse/Paging.antt =====
-- `readdir` of fuse.cc: a long listing of a directory goes to the kernel in several replies.
use naive_file_system.Prelude.{
  ℕ, zero, suc, ◌+◌, ◌-◌, ◌≡◌, refl, sym, ap, ◌∙◌, arith, Bool, true, false, Option, some, List, [],
  ◌∷◌, ◌++◌, length, length-append, length-drop, take, drop, ltb, ◌==◌, if◌then◌else◌, if_true,
  if_false, Bool-cases, inl, inr,
}
use naive_file_system.Inodes.Files.{Attr}
use naive_file_system.YfsClient.Operations.{Extents, isdir, has_type, readdir}
use naive_file_system.YfsClient.Values.{t_dir, Dirent}
use naive_file_system.YfsClient.Holds.{Keeps, Holds, HasTypes, Keeps-trans}
use naive_file_system.YfsClient.Bytes.{take_all, drop_all}
use naive_file_system.YfsClient.Directory.{readdir-entries}
use naive_file_system.YfsClient.Entries.{IsDir, dir_bytes, append_assoc}
use naive_file_system.YfsClient.Unlink.{append_nil}
use naive_file_system.Fuse.Handlers.{fuseserver_readdir}
use naive_file_system.Fuse.Replies.{
  reply_buf, FuseLib, c_str, dirbuf_add, add_all, reply_buf_limited,
}
use naive_file_system.Fuse.Attributes.{has_type_lem}

-- A reply is the slice of the buffer from the offset on, of at most the size that is asked for.
reply_buf_limited_lem :
    (buf : List ℕ) (off maxsize : ℕ)
    → reply_buf_limited buf off maxsize ≡ reply_buf (take maxsize (drop off buf))
unfolding reply_buf_limited
reply_buf_limited_lem buf off maxsize = elim (Bool-cases (ltb off (length buf))) [
  | inl inside ↦
      if_true (reply_buf []) inside ∙ ap reply_buf (by_size (ltb (length buf - off) maxsize) refl)
  | inr outside ↦
      if_false _ outside
      ∙ ap reply_buf (
          sym (
            ap (take maxsize) (drop_all off buf (ground arith))
            ∙ take_all maxsize [] (omega arith)))
]
  where
    by_size :
        (b : Bool)
        → ltb (length buf - off) maxsize ≡ b
        → take (if b then length buf - off else maxsize) (drop off buf)
          ≡ take maxsize (drop off buf)
    by_size true e =
        take_all (length buf - off) (drop off buf) (omega (arith, length-drop off buf))
        ∙ sym (take_all maxsize (drop off buf) (ground (arith, length-drop off buf)))
    by_size false e = refl

-- The library writes as many bytes for an entry as it says.
abbrev pub IsSized : FuseLib → Type 0
IsSized lib =
    (name : List ℕ) (inum off : ℕ)
    → length (lib.add_dirent name inum off) ≡ lib.dirent_size (length name)

-- The listing of entries from a place in the buffer on, and how long it is.
unfoldable pub listing : FuseLib → ℕ → List Dirent → List ℕ
listing lib n [] = []
listing lib n (d ∷ ds) =
    let m = n + lib.dirent_size (length (c_str d.name)) in
    lib.add_dirent (c_str d.name) d.inum m ++ listing lib m ds

unfoldable pub width : FuseLib → List Dirent → ℕ
width lib [] = 0
width lib (d ∷ ds) = lib.dirent_size (length (c_str d.name)) + width lib ds

module _ (lib : FuseLib) (sized : IsSized lib) where
  add_all-listing :
      (b : List ℕ) (ds : List Dirent) → add_all lib b ds ≡ b ++ listing lib (length b) ds
  unfolding add_all dirbuf_add listing
  add_all-listing b [] = sym (append_nil b)
  add_all-listing b (d ∷ ds) =
      let m = length b + lib.dirent_size (length (c_str d.name)) in
      let s = lib.add_dirent (c_str d.name) d.inum m in
      add_all-listing (b ++ s) ds
      ∙ append_assoc b s (listing lib (length (b ++ s)) ds)
      ∙ ap (λ k. b ++ (s ++ listing lib k ds))
          (omega (arith, length-append b s, sized (c_str d.name) d.inum m))

  drop-append : (b c : List ℕ) (n k : ℕ) → n ≡ length b + k → drop n (b ++ c) ≡ drop k c
  unfolding drop
  drop-append [] c n k e = ap (λ m. drop m c) (omega (arith, e))
  drop-append (x ∷ b) c zero k e = absurd (omega arith)
  drop-append (x ∷ b) c (suc n) k e = drop-append b c n k (omega arith)

  -- Behind the first entries stands the listing of the others.
  drop-listing :
      (n : ℕ) (ds es : List Dirent)
      → drop (width lib ds) (listing lib n (ds ++ es)) ≡ listing lib (n + width lib ds) es
  unfolding listing width
  drop-listing n [] es = (unfold drop in ap (λ m. listing lib m es) (omega arith))
  drop-listing n (d ∷ ds) es =
      let m = n + lib.dirent_size (length (c_str d.name)) in
      let b = lib.add_dirent (c_str d.name) d.inum m in
      drop-append b (listing lib m (ds ++ es)) (width lib (d ∷ ds)) (width lib ds)
        (omega (arith, sized (c_str d.name) d.inum m))
      ∙ drop-listing m ds es
      ∙ ap (λ k. listing lib k es) (omega arith)

  module _ {E : Type 0} (x : Extents E) (unset : Attr) (unset_ino : ℕ)
      (view : E → ℕ → Option (List ℕ)) (IsGood : E → Type 0) (type_of : E → ℕ → ℕ)
      (HasRoom : ℕ → E → Type 0) (Fits : E → ℕ → Type 0)
      (holds : Holds view IsGood x type_of HasRoom Fits)
      (types : HasTypes view IsGood x type_of HasRoom) where
    -- Over clients that keep the laws and a library that writes the bytes that it says, `readdir`
    -- from the offset behind the first entries of a directory on, which is the offset that is
    -- written with the last of them, replies with the listing of the other entries, cut off at the
    -- size; from 0 on with the whole one. It changes nothing that is seen.
    pub readdir-listing :
        (ino size : ℕ) (ds es : List Dirent) (e : E)
        → IsDir (ds ++ es)
        → type_of e ino ≡ t_dir
        → view e ino ≡ some (dir_bytes (ds ++ es))
        → IsGood e
        → let r = fuseserver_readdir x unset unset_ino lib ino size (width lib ds) e in
          (r.0 ≡ reply_buf (take size (listing lib (width lib ds) es))) × Keeps view IsGood e r.1
    unfolding fuseserver_readdir isdir
    readdir-listing ino size ds es e h t v good =
        let d =
          has_type_lem x unset unset_ino view IsGood type_of HasRoom Fits holds types t_dir ino
            (dir_bytes (ds ++ es)) e v good in
        let c = (has_type x unset t_dir ino e).1 in
        let r =
          readdir-entries x unset view IsGood type_of HasRoom Fits holds ino [] (ds ++ es) c h
            (d.1.0 ino ∙ t) (d.1.1.0 ino ∙ v) d.1.1.1 in
        let dir : (has_type x unset t_dir ino e).0 ≡ true = d.0 ∙ ap (λ n. n == t_dir) t in
        let text : add_all lib [] (readdir x unset ino [] c).0.1 ≡ listing lib 0 (ds ++ es) =
          ap (λ q. add_all lib [] q.1) r.0 ∙ add_all-listing [] (ds ++ es) in
        rw dir (
          reply_buf_limited_lem _ (width lib ds) size
              ∙ ap (λ b. reply_buf (take size (drop (width lib ds) b))) text
              ∙ ap (λ b. reply_buf (take size b))
                  (drop-listing 0 ds es ∙ ap (λ n. listing lib n es) (omega arith)),
          Keeps-trans view IsGood e c (readdir x unset ino [] c).1 d.1.1 r.1,
        )

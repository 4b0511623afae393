-- ===== src/YfsClient/Operations.antt =====
-- The operations of yfs_client.cc over the virtual classes `extent_client` and `lock_client`, with
-- the state of both. The messages that are printed are left out. A status is a number: 0 is `OK`.
use naive_file_system.Prelude.{
  ℕ, Bool, true, false, ◌&&◌, Option, none, some, List, [], ◌∷◌, ◌++◌, ◌==◌, if◌then◌else◌,
}
use naive_file_system.Inodes.Files.{Attr}
use naive_file_system.ExtentCache.{Status, is_ok}
use naive_file_system.YfsClient.Values.{
  DirInfo, Dirent, FileInfo, code, dirents, enoent, entry_text, find_entry, read_of, resized,
  same_bytes, t_dir, t_file, t_symlk, written, yfs_exist, yfs_ioerr,
}
use naive_file_system.YfsClient.Text.{uncode, n2i, entries}

-- What the operations call: a buffer or an attribute that is passed by reference goes in and out.
pub record Extents (E : Type 0) : Type 0 where
  pub ec_create : ℕ → ℕ → E → Status × ℕ × E
  pub ec_get : ℕ → List ℕ → E → Status × List ℕ × E
  pub ec_getattr : ℕ → Attr → E → Status × Attr × E
  pub ec_put : ℕ → List ℕ → E → Status × E
  pub ec_remove : ℕ → E → Status × E
  pub ec_flush : ℕ → E → Status × E
  pub lc_acquire : ℕ → E → E
  pub lc_release : ℕ → E → E

module _ {E : Type 0} (x : Extents E) (unset : Attr) where
  -- A `LockGuard` for the time of an operation.
  abbrev pub guarded {ℓ} : {A : Type ℓ} → ℕ → (E → A × E) → E → A × E
  guarded ino op e = let r = op (x.lc_acquire ino e) in (r.0, x.lc_release ino r.1)

  unfoldable pub new_yfs_client : E → E
  new_yfs_client e = (guarded 1 (x.ec_put 1 []) e).1

  unfoldable pub has_type : ℕ → ℕ → E → Bool × E
  unfolding is_ok
  has_type type ino e = let r = x.ec_getattr ino unset e in (is_ok r.0 && r.1.type == type, r.2)

  unfoldable pub isfile : ℕ → E → Bool × E
  unfolding has_type
  isfile ino e = has_type t_file ino e

  unfoldable pub issymlink : ℕ → E → Bool × E
  unfolding has_type
  issymlink ino e = has_type t_symlk ino e

  unfoldable pub isdir : ℕ → E → Bool × E
  unfolding has_type
  isdir ino e = has_type t_dir ino e

  unfoldable pub file_info : ℕ → FileInfo → E → (ℕ × FileInfo) × E
  unfolding is_ok
  file_info ino fin e =
      let r = x.ec_getattr ino unset e in
      let a = r.1 in
      (
        if is_ok r.0
            then (0, record { size = a.size; atime = a.atime; mtime = a.mtime; ctime = a.ctime })
            else (yfs_ioerr, fin),
        r.2,
      )

  unfoldable pub getfile : ℕ → FileInfo → E → (ℕ × FileInfo) × E
  unfolding file_info
  getfile ino fin e = guarded ino (file_info ino fin) e

  unfoldable pub getsymlink : ℕ → FileInfo → E → (ℕ × FileInfo) × E
  unfolding file_info
  getsymlink ino sin e = guarded ino (file_info ino sin) e

  unfoldable pub dir_info : ℕ → DirInfo → E → (ℕ × DirInfo) × E
  unfolding is_ok
  dir_info ino din e =
      let r = x.ec_getattr ino unset e in
      let a = r.1 in
      (
        if is_ok r.0
            then (0, record { atime = a.atime; mtime = a.mtime; ctime = a.ctime })
            else (yfs_ioerr, din),
        r.2,
      )

  unfoldable pub getdir : ℕ → DirInfo → E → (ℕ × DirInfo) × E
  unfolding dir_info
  getdir ino din e = guarded ino (dir_info ino din) e

  unfoldable pub set_size : ℕ → ℕ → E → ℕ × E
  unfolding is_ok resized
  set_size ino size e =
      let r = x.ec_getattr ino unset e in
      let g = x.ec_get ino [] r.2 in
      if is_ok r.0 then (0, (x.ec_put ino (resized size r.1.size g.1) g.2).1) else (code r.0, r.2)

  unfoldable pub setattr : ℕ → ℕ → E → ℕ × E
  unfolding set_size
  setattr ino size e = guarded ino (set_size ino size) e

  -- `addfile`: the number of the new file, after `ino` was passed in.
  unfoldable pub add_entry : ℕ → List ℕ → ℕ → ℕ → E → (ℕ × ℕ) × E
  add_entry parent name ino type e =
      let r = x.ec_create type ino e in
      let g = x.ec_get parent [] r.2 in
      ((0, r.1), (x.ec_put parent (g.1 ++ entry_text name r.1) g.2).1)

  unfoldable pub addfile : ℕ → List ℕ → ℕ → ℕ → E → (ℕ × ℕ) × E
  unfolding add_entry
  addfile parent name ino type e = guarded parent (add_entry parent name ino type) e

  unfoldable pub create : ℕ → List ℕ → ℕ → E → (ℕ × ℕ) × E
  unfolding addfile
  create parent name ino e = addfile parent name ino t_file e

  unfoldable pub mkdir : ℕ → List ℕ → ℕ → E → (ℕ × ℕ) × E
  unfolding addfile
  mkdir parent name ino e = addfile parent name ino t_dir e

  -- What `find` answers: the status, `found`, and the number of the file.
  abbrev pub find_result : Option ℕ → ℕ → ℕ × Bool × ℕ
  find_result none ino = (yfs_ioerr, false, ino)
  find_result (some n) ino = (0, true, n)

  unfoldable pub find : ℕ → List ℕ → Bool → ℕ → E → (ℕ × Bool × ℕ) × E
  unfolding find_entry entries
  find parent name found ino e =
      let r = x.ec_getattr parent unset e in
      let g = x.ec_get parent [] r.2 in
      if r.1.type == t_dir
      then (find_result (find_entry name (entries g.1)) ino, g.2)
      else ((yfs_exist, found, ino), r.2)

  unfoldable pub lookup : ℕ → List ℕ → Bool → ℕ → E → (ℕ × Bool × ℕ) × E
  unfolding find
  lookup parent name found ino e = guarded parent (find parent name found ino) e

  unfoldable pub list_dir : ℕ → List Dirent → E → (ℕ × List Dirent) × E
  unfolding isdir dirents entries
  list_dir dir list e =
      let r = isdir dir e in
      let g = x.ec_get dir [] r.1 in
      if r.0 then ((0, list ++ dirents (entries g.1)), g.2) else ((yfs_exist, list), r.1)

  unfoldable pub readdir : ℕ → List Dirent → E → (ℕ × List Dirent) × E
  unfolding list_dir
  readdir dir list e = guarded dir (list_dir dir list) e

  unfoldable pub read : ℕ → ℕ → ℕ → List ℕ → E → List ℕ × E
  unfolding read_of
  read ino size off bytes e =
      guarded ino (λ d. let g = x.ec_get ino bytes d in (read_of size off g.1, g.2)) e

  -- `write`: the number of bytes written, or nothing if it throws.
  unfoldable pub write : ℕ → ℕ → ℕ → List ℕ → E → Option ℕ × E
  unfolding written
  write ino size off bytes e = guarded ino (λ d. write_bytes (x.ec_get ino [] d)) e
    where
      stored : Option (List ℕ) → E → Option ℕ × E
      stored none d = (none, d)
      stored (some buf) d = (some size, (x.ec_flush ino (x.ec_put ino buf d).1).1)

      write_bytes : Status × List ℕ × E → Option ℕ × E
      write_bytes g = stored (written size off bytes g.1) g.2

  -- The loop of `unlink`: whether the name was there, the entries that stay, and the files removed.
  unfoldable pub unlink_loop :
      List ℕ → List (List ℕ × List ℕ) → Bool → List ℕ → E → Bool × List ℕ × E
  unlink_loop name [] flag result e = (flag, result, e)
  unlink_loop name (p ∷ es) flag result e =
      let gone = unlink_loop name es true result (x.ec_remove (n2i p.1) e).1 in
      let kept = unlink_loop name es flag (result ++ p.0 ++ 32 ∷ (p.1 ++ 32 ∷ [])) e in
      if same_bytes (uncode p.0) name then gone else kept

  unfoldable pub unlink_entry : ℕ → List ℕ → E → ℕ × E
  unfolding unlink_loop entries
  unlink_entry parent name e =
      let g = x.ec_get parent [] e in
      let r = unlink_loop name (entries g.1) false [] g.2 in
      if r.0 then (0, (x.ec_put parent r.1 r.2).1) else (enoent, r.2)

  unfoldable pub unlink : ℕ → List ℕ → E → ℕ × E
  unfolding unlink_entry
  unlink parent name e = guarded parent (unlink_entry parent name) e

  unfoldable pub symlink : ℕ → List ℕ → List ℕ → ℕ → E → (ℕ × ℕ) × E
  unfolding addfile
  symlink parent link name ino e =
      let r = addfile parent name ino t_symlk e in
      guarded r.0.1 (λ d. (r.0, (x.ec_flush r.0.1 (x.ec_put r.0.1 link d).1).1)) r.1

  unfoldable pub readlink : ℕ → List ℕ → E → List ℕ × E
  readlink ino result e = guarded ino (λ d. let g = x.ec_get ino result d in (g.1, g.2)) e

-- ===== src/Fuse/Handlers.antt =====
-- The handlers of fuse.cc as functions to a reply. The constants of the system's headers are
-- constructors, a bitmap of attributes is a record of its bits, and timeouts, which are always 0,
-- are left out. What the FUSE library writes for an entry of a directory is a parameter.
use naive_file_system.Prelude.{ℕ, false, ◌||◌, Option, none, some, List, [], ◌==◌, if◌then◌else◌}
use naive_file_system.Inodes.Files.{Attr}
use naive_file_system.YfsClient.Operations.{
  Extents, isfile, issymlink, isdir, getfile, getsymlink, getdir, setattr, create, mkdir, lookup,
  readdir, read, write, unlink, symlink, readlink,
}
use naive_file_system.YfsClient.Values.{t_dir, t_file, yfs_exist, enoent, FileInfo, DirInfo}
use naive_file_system.Fuse.Replies.{
  EntryParam, FuseLib, Kind, Reply, Stat, ToSet, add_all, blank, c_str, crashes, directory, exists,
  link, mode, no_entry, no_error, no_system, not_dir, not_empty, regular, reply_attr, reply_buf,
  reply_buf_limited, reply_create, reply_entry, reply_err, reply_open, reply_readlink, reply_statfs,
  reply_write,
}

-- Set before it is read.
abbrev pub no_info : FileInfo
no_info = record { size = 0; atime = 0; mtime = 0; ctime = 0 }

abbrev pub no_dir_info : DirInfo
no_dir_info = record { atime = 0; mtime = 0; ctime = 0 }

abbrev pub stat_of : ℕ → Kind → ℕ → FileInfo → Stat
stat_of inum kind perm info = record {
  ino = inum;
  st_mode = mode kind perm;
  nlink = 1;
  st_atime = info.atime;
  st_mtime = info.mtime;
  st_ctime = info.ctime;
  st_size = info.size;
}

abbrev pub stat_of_dir : ℕ → DirInfo → Stat
stat_of_dir inum info = record (blank inum) {
  st_mode = mode directory 511;
  nlink = 2;
  st_atime = info.atime;
  st_mtime = info.mtime;
  st_ctime = info.ctime;
}

-- The numbers and attributes that the handlers pass on unset are arguments.
module _ {E : Type 0} (x : Extents E) (unset : Attr) (unset_ino : ℕ) where
  -- A branch of `getattr`: an answer that is not `OK` leaves the number alone set.
  abbrev filled {ℓ} : {I : Type ℓ} → ℕ → (I → Stat) → (ℕ × I) × E → (ℕ × Stat) × E
  filled inum st r = ((r.0.0, if r.0.0 == 0 then st r.0.1 else blank inum), r.1)

  unfoldable pub stat_file : ℕ → E → (ℕ × Stat) × E
  unfolding getfile
  stat_file inum e = filled inum (stat_of inum regular 438) (getfile x unset inum no_info e)

  unfoldable pub stat_link : ℕ → E → (ℕ × Stat) × E
  unfolding getsymlink
  stat_link inum e = filled inum (stat_of inum link 511) (getsymlink x unset inum no_info e)

  unfoldable pub stat_dir : ℕ → E → (ℕ × Stat) × E
  unfolding getdir
  stat_dir inum e = filled inum (stat_of_dir inum) (getdir x unset inum no_dir_info e)

  -- `getattr`; the first call of `isfile` is for the message that is printed.
  unfoldable pub getattr : ℕ → E → (ℕ × Stat) × E
  unfolding stat_file stat_link stat_dir isfile issymlink isdir
  getattr inum e =
      let p = isfile x unset inum e in
      let f = isfile x unset inum p.1 in
      let l = issymlink x unset inum f.1 in
      let d = isdir x unset inum l.1 in
      if f.0
      then stat_file inum f.1
      else if l.0
      then stat_link inum l.1
      else if d.0
      then stat_dir inum d.1
      else ((0, blank inum), d.1)

  unfoldable pub fuseserver_getattr : ℕ → E → Reply × E
  unfolding getattr
  fuseserver_getattr ino e =
      let r = getattr ino e in (if r.0.0 == 0 then reply_attr r.0.1 else reply_err no_entry, r.1)

  unfoldable pub fuseserver_setattr : ℕ → ℕ → ToSet → E → Reply × E
  unfolding getattr setattr
  fuseserver_setattr ino size to_set e =
      let changed = if to_set.set_size then (setattr x unset ino size e).1 else e in
      let r = getattr ino changed in
      if to_set.set_size || (to_set.set_atime || to_set.set_mtime)
      then (reply_attr r.0.1, r.1)
      else (reply_err no_system, e)

  unfoldable pub fuseserver_read : ℕ → ℕ → ℕ → E → Reply × E
  unfolding read
  fuseserver_read ino size off e = let r = read x unset ino size off [] e in (reply_buf r.0, r.1)

  -- An exception that `write` throws is caught by nobody.
  abbrev pub write_reply : ℕ → Option ℕ → Reply
  write_reply size none = crashes
  write_reply size (some n) = reply_write size

  unfoldable pub fuseserver_write : ℕ → List ℕ → ℕ → ℕ → E → Reply × E
  unfolding write
  fuseserver_write ino buf size off e =
      let r = write x unset ino size off buf e in (write_reply size r.0, r.1)

  -- The status, and the entry for the kernel.
  unfoldable pub fuseserver_createhelper : ℕ → List ℕ → ℕ → E → (ℕ × EntryParam) × E
  unfolding getattr create mkdir
  fuseserver_createhelper parent name type e =
      let r =
        if type == t_file
        then create x unset parent name unset_ino e
        else mkdir x unset parent name unset_ino e in
      let a = getattr r.0.1 r.1 in
      let old : EntryParam = record { e_ino = unset_ino; generation = 0; attr = blank 0 } in
      if r.0.0 == 0
      then ((a.0.0, record { e_ino = r.0.1; generation = 0; attr = a.0.1 }), a.1)
      else ((r.0.0, old), r.1)

  abbrev pub created : (EntryParam → Reply) → (ℕ × EntryParam) × E → Reply × E
  created reply r = (
    if r.0.0 == 0
        then reply r.0.1
        else if r.0.0 == yfs_exist
        then reply_err exists
        else reply_err no_entry,
    r.1,
  )

  unfoldable pub fuseserver_create : ℕ → List ℕ → E → Reply × E
  unfolding fuseserver_createhelper
  fuseserver_create parent name e =
      created reply_create (fuseserver_createhelper parent name t_file e)

  unfoldable pub fuseserver_mknod : ℕ → List ℕ → E → Reply × E
  unfolding fuseserver_createhelper
  fuseserver_mknod parent name e =
      created reply_entry (fuseserver_createhelper parent name t_file e)

  unfoldable pub fuseserver_mkdir : ℕ → List ℕ → E → Reply × E
  unfolding fuseserver_createhelper
  fuseserver_mkdir parent name e = created reply_entry (fuseserver_createhelper parent name t_dir e)

  unfoldable pub fuseserver_lookup : ℕ → List ℕ → E → Reply × E
  unfolding getattr lookup
  fuseserver_lookup parent name e =
      let r = lookup x unset parent name false unset_ino e in
      let ino = r.0.2 in
      let a = getattr ino r.1 in
      if r.0.1
      then (reply_entry (record { e_ino = ino; generation = 0; attr = a.0.1 }), a.1)
      else (reply_err no_entry, r.1)

  unfoldable pub fuseserver_readdir : FuseLib → ℕ → ℕ → ℕ → E → Reply × E
  unfolding isdir readdir add_all reply_buf_limited
  fuseserver_readdir lib ino size off e =
      let d = isdir x unset ino e in
      let r = readdir x unset ino [] d.1 in
      if d.0
      then (reply_buf_limited (add_all lib [] r.0.1) off size, r.1)
      else (reply_err not_dir, d.1)

  unfoldable pub fuseserver_open : ℕ → E → Reply × E
  fuseserver_open ino e = (reply_open, e)

  unfoldable pub fuseserver_unlink : ℕ → List ℕ → E → Reply × E
  unfolding unlink
  fuseserver_unlink parent name e =
      let r = unlink x unset parent name e in
      (
        if r.0 == 0
            then reply_err no_error
            else if r.0 == enoent
            then reply_err no_entry
            else reply_err not_empty,
        r.1,
      )

  unfoldable pub fuseserver_symlink : List ℕ → ℕ → List ℕ → E → Reply × E
  unfolding getattr symlink
  fuseserver_symlink target parent name e =
      let r = symlink x unset parent target name unset_ino e in
      let a = getattr r.0.1 r.1 in
      if r.0.0 == 0
      then (reply_entry (record { e_ino = r.0.1; generation = 0; attr = a.0.1 }), a.1)
      else (
        if r.0.0 == enoent
            then reply_err no_entry
            else if r.0.0 == yfs_exist
            then reply_err exists
            else reply_err not_empty,
        r.1,
      )

  unfoldable pub fuseserver_readlink : ℕ → E → Reply × E
  unfolding readlink c_str
  fuseserver_readlink ino e = let r = readlink x unset ino [] e in (reply_readlink (c_str r.0), r.1)

  -- The length of a name and the size of a block.
  unfoldable pub fuseserver_statfs : E → Reply × E
  fuseserver_statfs e = (reply_statfs 255 512, e)

-- ===== src/Fuse/Replies.antt =====
-- What the handlers of fuse.cc pass to the kernel: `struct stat`, `struct fuse_entry_param` and the
-- calls of `fuse_reply_*`, with the listing of a directory. The FUSE library's writing of an entry of
-- a listing is a parameter.
use naive_file_system.Prelude.{
  ℕ, ◌+◌, ◌-◌, Bool, List, [], ◌∷◌, ◌++◌, length, take, drop, ltb, ◌==◌, if◌then◌else◌,
}
use naive_file_system.YfsClient.Values.{Dirent}

pub data Errno : Type 0 where
  no_error no_entry exists no_system not_dir not_empty : Errno

-- `st_mode`: nothing, or the kind of the file and its permissions.
pub data Kind : Type 0 where
  regular link directory : Kind

pub data Mode : Type 0 where
  no_mode : Mode
  mode : Kind → ℕ → Mode

-- The fields of `struct stat` that are set.
pub record Stat : Type 0 where
  pub ino : ℕ
  pub st_mode : Mode
  pub nlink : ℕ
  pub st_atime : ℕ
  pub st_mtime : ℕ
  pub st_ctime : ℕ
  pub st_size : ℕ

-- `bzero`, and the number of the file.
abbrev pub blank : ℕ → Stat
blank inum = record {
  ino = inum;
  st_mode = no_mode;
  nlink = 0;
  st_atime = 0;
  st_mtime = 0;
  st_ctime = 0;
  st_size = 0;
}

pub record EntryParam : Type 0 where
  pub e_ino : ℕ
  pub generation : ℕ
  pub attr : Stat

pub data Reply : Type 0 where
  reply_err : Errno → Reply
  reply_attr : Stat → Reply
  reply_entry : EntryParam → Reply
  reply_create : EntryParam → Reply
  reply_buf : List ℕ → Reply
  reply_write : ℕ → Reply
  reply_readlink : List ℕ → Reply
  reply_statfs : ℕ → ℕ → Reply
  reply_open crashes : Reply

-- `FUSE_SET_ATTR_SIZE`, `FUSE_SET_ATTR_ATIME` and `FUSE_SET_ATTR_MTIME` in `to_set`.
pub record ToSet : Type 0 where
  pub set_size : Bool
  pub set_atime : Bool
  pub set_mtime : Bool

-- A string as C code reads it, up to the first 0.
unfoldable pub c_str : List ℕ → List ℕ
c_str [] = []
c_str (c ∷ s) = if c == 0 then [] else c ∷ c_str s

-- `fuse_dirent_size` and the bytes that `fuse_add_dirent` writes for a name, a number and an offset.
pub record FuseLib : Type 0 where
  pub dirent_size : ℕ → ℕ
  pub add_dirent : List ℕ → ℕ → ℕ → List ℕ

unfoldable pub dirbuf_add : FuseLib → List ℕ → List ℕ → ℕ → List ℕ
dirbuf_add lib b name inum =
    b ++ lib.add_dirent name inum (length b + lib.dirent_size (length name))

unfoldable pub add_all : FuseLib → List ℕ → List Dirent → List ℕ
unfolding dirbuf_add c_str
add_all lib b [] = b
add_all lib b (d ∷ ds) = add_all lib (dirbuf_add lib b (c_str d.name) d.inum) ds

abbrev pub min_of : ℕ → ℕ → ℕ
min_of a b = if ltb a b then a else b

unfoldable pub reply_buf_limited : List ℕ → ℕ → ℕ → Reply
reply_buf_limited buf off maxsize =
    if ltb off (length buf)
    then reply_buf (take (min_of (length buf - off) maxsize) (drop off buf))
    else reply_buf []

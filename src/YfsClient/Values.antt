-- ===== src/YfsClient/Values.antt =====
-- The values of yfs_client.cc: statuses as numbers, the records of yfs_client.h, and what the
-- operations make of the bytes of a file or a directory.
use naive_file_system.Prelude.{
  ℕ, ◌+◌, ◌-◌, ◌%◌, ◌^◌, Bool, true, false, ◌&&◌, Option, none, some, List, [], ◌∷◌, ◌++◌, length,
  take, drop, replicate, ltb, leb, ◌==◌, if◌then◌else◌,
}
use naive_file_system.ExtentCache.{Status, ok, rpcerr, noent, ioerr, other}
use naive_file_system.YfsClient.Text.{encode, uncode, filename, n2i}

abbrev pub t_dir : ℕ
t_dir = 1

abbrev pub t_file : ℕ
t_file = 2

abbrev pub t_symlk : ℕ
t_symlk = 3

abbrev pub yfs_ioerr : ℕ
yfs_ioerr = 3

abbrev pub yfs_exist : ℕ
yfs_exist = 4

abbrev pub enoent : ℕ
enoent = 2

abbrev pub code : Status → ℕ
code ok = 0
code rpcerr = 1
code noent = 2
code ioerr = 3
code (other n) = n

pub record FileInfo : Type 0 where
  pub size : ℕ
  pub atime : ℕ
  pub mtime : ℕ
  pub ctime : ℕ

pub record DirInfo : Type 0 where
  pub atime : ℕ
  pub mtime : ℕ
  pub ctime : ℕ

pub record Dirent : Type 0 where
  pub name : List ℕ
  pub inum : ℕ

-- `str.replace(off, size, bytes)`, for an `off` in the string.
abbrev pub replace : List ℕ → ℕ → ℕ → List ℕ → List ℕ
replace buf off size bytes = take off buf ++ (bytes ++ drop (off + size) buf)

abbrev pub resize : List ℕ → ℕ → List ℕ
resize buf n = take n buf ++ replicate (n - length buf) 0

-- What `setattr`, `read` and `write` make of the bytes of a file. Sums are of `size_t`. `write`
-- throws where the offset is not in the string after all.
unfoldable pub resized : ℕ → ℕ → List ℕ → List ℕ
resized size old buf =
    if ltb old size
    then buf ++ replicate (size - old) 0
    else if ltb size old
    then take size buf
    else buf

unfoldable pub read_of : ℕ → ℕ → List ℕ → List ℕ
read_of size off bytes =
    if leb off (length bytes)
    then if leb ((off + size) % 2 ^ 64) (length bytes)
      then take size (drop off bytes)
      else take (length bytes - off) (drop off bytes)
    else []

unfoldable pub written : ℕ → ℕ → List ℕ → List ℕ → Option (List ℕ)
written size off bytes old =
    let end = (size + off) % 2 ^ 64 in
    let buf = if ltb (length old) end then resize old end else old in
    if leb off (length buf) then some (replace buf off size bytes) else none

-- The entry that `addfile` appends to a directory.
abbrev pub entry_text : List ℕ → ℕ → List ℕ
entry_text name ino = encode name ++ 32 ∷ (filename ino ++ 32 ∷ [])

-- The loop of `find`: the first entry with the name.
abbrev pub same_bytes : List ℕ → List ℕ → Bool
same_bytes [] [] = true
same_bytes [] (y ∷ t) = false
same_bytes (x ∷ s) [] = false
same_bytes (x ∷ s) (y ∷ t) = x == y && same_bytes s t

unfoldable pub find_entry : List ℕ → List (List ℕ × List ℕ) → Option ℕ
find_entry name [] = none
find_entry name (e ∷ es) =
    if same_bytes (uncode e.0) name then some (n2i e.1) else find_entry name es

unfoldable pub dirents : List (List ℕ × List ℕ) → List Dirent
dirents [] = []
dirents (e ∷ es) = record { name = uncode e.0; inum = n2i e.1 } ∷ dirents es

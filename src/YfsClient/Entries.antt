-- ===== src/YfsClient/Entries.antt =====
-- The bytes of a directory of yfs_client.cc as a list of entries.
use naive_file_system.Prelude.{
  ℕ, suc, ◌^◌, ◌<◌, ◌≡◌, ◌≢◌, refl, ap, ◌∙◌, arith, false, Option, none, some, List, [], ◌∷◌, ◌++◌,
  if◌then◌else◌,
}
use naive_file_system.YfsClient.Text.{high, low, encode, filename, entries, is_space}
use naive_file_system.YfsClient.Codec.{
  IsBytes, uncode-encode, IsDigits, digits-IsDigits, filename_ne, n2i-filename,
}
use naive_file_system.YfsClient.Words.{NoSpace, IsWord, text, AllWords, entries-text}
use naive_file_system.YfsClient.Values.{Dirent, entry_text, same_bytes, find_entry, dirents}

-- A directory: names that are not empty, and numbers of 64 bits.
abbrev pub IsDir : List Dirent → Type 0
IsDir [] = Unit
IsDir (d ∷ ds) = (IsBytes d.name × (d.name ≢ [])) × (d.inum < 2 ^ 64) × IsDir ds

unfoldable pub pairs : List Dirent → List (List ℕ × List ℕ)
pairs [] = []
pairs (d ∷ ds) = (encode d.name, filename d.inum) ∷ pairs ds

-- The bytes of a directory.
unfoldable pub dir_bytes : List Dirent → List ℕ
unfolding pairs
dir_bytes ds = text (pairs ds)

-- The first entry with a name.
abbrev pub entry_of : List ℕ → List Dirent → Option ℕ
entry_of name [] = none
entry_of name (d ∷ ds) = if same_bytes d.name name then some d.inum else entry_of name ds

encode-NoSpace : (s : List ℕ) → IsBytes s → NoSpace (encode s)
unfolding encode
encode-NoSpace [] h = tt
encode-NoSpace (c ∷ s) h = (high_space c h.0, (low_space c h.0, encode-NoSpace s h.1))
  where
    high_space : (c : ℕ) → c < 256 → is_space (high c) ≡ false
    high_space c h = unfold high in ground arith

    low_space : (c : ℕ) → c < 256 → is_space (low c) ≡ false
    low_space c h = unfold low in ground arith

encode_ne : (s : List ℕ) → s ≢ [] → encode s ≢ []
unfolding encode
encode_ne [] ne e = ne refl
encode_ne (c ∷ s) ne e = cc

digits-NoSpace : (s : List ℕ) → IsDigits s → NoSpace s
digits-NoSpace [] h = tt
digits-NoSpace (c ∷ s) h = (ground arith, digits-NoSpace s h.2)

filename-IsWord : (n : ℕ) → IsWord (filename n)
filename-IsWord n = (
  digits-NoSpace (filename n) (unfold filename in digits-IsDigits (suc n) n [] tt),
  filename_ne n,
)

pairs-AllWords : (ds : List Dirent) → IsDir ds → AllWords (pairs ds)
unfolding pairs
pairs-AllWords [] h = tt
pairs-AllWords (d ∷ ds) h = (
  (encode-NoSpace d.name h.0.0, encode_ne d.name h.0.1),
  filename-IsWord d.inum,
  pairs-AllWords ds h.2,
)

pub entries-dir_bytes : (ds : List Dirent) → IsDir ds → entries (dir_bytes ds) ≡ pairs ds
unfolding dir_bytes
entries-dir_bytes ds h = entries-text (pairs ds) (pairs-AllWords ds h)

pub dirents-pairs : (ds : List Dirent) → IsDir ds → dirents (pairs ds) ≡ ds
unfolding dirents pairs
dirents-pairs [] h = refl
dirents-pairs (d ∷ ds) h =
    let n = uncode-encode d.name h.0.0 in
    let m = n2i-filename d.inum h.1 in
    let rest = dirents-pairs ds h.2 in λ i. record { name = n i; inum = m i } ∷ rest i

pub find_entry-pairs :
    (name : List ℕ) (ds : List Dirent) → IsDir ds → find_entry name (pairs ds) ≡ entry_of name ds
unfolding find_entry pairs
find_entry-pairs name [] h = refl
find_entry-pairs name (d ∷ ds) h = rw (uncode-encode d.name h.0.0) (
    rw (n2i-filename d.inum h.1)
      (ap (λ r. if same_bytes d.name name then some d.inum else r) (find_entry-pairs name ds h.2)))

pub append_assoc : (a b c : List ℕ) → (a ++ b) ++ c ≡ a ++ (b ++ c)
append_assoc [] b c = refl
append_assoc (x ∷ a) b c = ap (λ r. x ∷ r) (append_assoc a b c)

pub IsDir-append :
    (ds : List Dirent) (d : Dirent) → IsDir ds → IsDir (d ∷ []) → IsDir (ds ++ d ∷ [])
IsDir-append [] d h k = k
IsDir-append (c ∷ ds) d h k = (h.0, h.1, IsDir-append ds d h.2 k)

pub dir_bytes-append :
    (ds : List Dirent) (d : Dirent)
    → dir_bytes ds ++ entry_text d.name d.inum ≡ dir_bytes (ds ++ d ∷ [])
unfolding dir_bytes pairs
dir_bytes-append [] d = refl
dir_bytes-append (c ∷ ds) d =
    append_assoc (encode c.name) (32 ∷ (filename c.inum ++ 32 ∷ dir_bytes ds))
      (entry_text d.name d.inum)
    ∙ ap (λ r. encode c.name ++ 32 ∷ r)
        (append_assoc (filename c.inum) (32 ∷ dir_bytes ds) (entry_text d.name d.inum)
          ∙ ap (λ r. filename c.inum ++ 32 ∷ r) (dir_bytes-append ds d))

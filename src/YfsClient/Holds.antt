-- ===== src/YfsClient/Holds.antt =====
-- What the operations of yfs_client.cc rely on: an extent client shows bytes for each file, and the
-- locks keep other clients away, so that no lock call changes what is seen.
use naive_file_system.Prelude.{
  ◌%◌, length, ==_refl, ap, if_true, ◌^◌, ◌<◌, ℕ, ◌≡◌, ◌≢◌, ◌∙◌, Option, none, some, List, [], ◌==◌,
  if◌then◌else◌,
}
use naive_file_system.Inodes.Files.{Attr}
use naive_file_system.ExtentCache.{ok}
use naive_file_system.YfsClient.Operations.{Extents}

module _ {E : Type 0} (view : E → ℕ → Option (List ℕ)) (IsGood : E → Type 0) where
  -- A step after which the same bytes are seen, and a step that changes those of one file.
  abbrev pub Keeps : E → E → Type 0
  Keeps e d = ((j : ℕ) → view d j ≡ view e j) × IsGood d

  abbrev pub Sets : ℕ → Option (List ℕ) → E → E → Type 0
  Sets id v e d = ((j : ℕ) → view d j ≡ (if j == id then v else view e j)) × IsGood d

  -- The laws, for files that are seen; `type_of` is the type of a file, and `HasRoom` says that one
  -- more file of a type can be made, and `Fits` that there is room for the bytes of a file, by their
  -- number.
  pub record Holds (x : Extents E) (type_of : E → ℕ → ℕ) (HasRoom : ℕ → E → Type 0)
      (Fits : E → ℕ → Type 0) : Type 0 where
    pub acquire_room : (id type : ℕ) (e : E) → HasRoom type e → HasRoom type (x.lc_acquire id e)
    pub acquire_fits : (id n : ℕ) (e : E) → Fits e n → Fits (x.lc_acquire id e) n
    pub release_fits : (id n : ℕ) (e : E) → Fits e n → Fits (x.lc_release id e) n
    pub get_fits :
        (id : ℕ) (buf : List ℕ) (n : ℕ) (e : E)
        → view e id ≢ none
        → IsGood e
        → Fits e n
        → Fits (x.ec_get id buf e).2 n
    pub put_fits : (id : ℕ) (d : List ℕ) (n : ℕ) (e : E) → Fits e n → Fits (x.ec_put id d e).1 n
    pub create_fits :
        (type ino n : ℕ) (e : E)
        → HasRoom type e
        → IsGood e
        → Fits e n
        → Fits (x.ec_create type ino e).2 n
    pub acquire_keeps : (id : ℕ) (e : E) → IsGood e → Keeps e (x.lc_acquire id e)
    pub release_keeps : (id : ℕ) (e : E) → IsGood e → Keeps e (x.lc_release id e)
    pub acquire_type : (id j : ℕ) (e : E) → type_of (x.lc_acquire id e) j ≡ type_of e j
    pub get_ok :
        (id : ℕ) (buf d : List ℕ) (e : E)
        → view e id ≡ some d
        → IsGood e
        → ((x.ec_get id buf e).1 ≡ d) × Keeps e (x.ec_get id buf e).2
    pub put_ok :
        (id : ℕ) (d : List ℕ) (e : E)
        → view e id ≢ none
        → IsGood e
        → Sets id (some d) e (x.ec_put id d e).1
    pub remove_ok :
        (id : ℕ) (e : E) → view e id ≢ none → IsGood e → Sets id none e (x.ec_remove id e).1
    pub flush_ok :
        (id : ℕ) (d : List ℕ) (e : E)
        → view e id ≡ some d
        → Fits e (length d)
        → IsGood e
        → Keeps e (x.ec_flush id e).1
    pub getattr_ok :
        (id : ℕ) (a : Attr) (e : E)
        → view e id ≢ none
        → IsGood e
        → ((x.ec_getattr id a e).0 ≡ ok)
          × ((x.ec_getattr id a e).1.type ≡ type_of e id)
          × Keeps e (x.ec_getattr id a e).2
    pub getattr_size :
        (id : ℕ) (a : Attr) (d : List ℕ) (e : E)
        → view e id ≡ some d
        → IsGood e
        → (x.ec_getattr id a e).1.size ≡ length d % 2 ^ 32
    pub create_ok :
        (type ino : ℕ) (e : E)
        → HasRoom type e
        → IsGood e
        → ((x.ec_create type ino e).1 < 2 ^ 64)
          × (view e (x.ec_create type ino e).1 ≡ none)
          × Sets (x.ec_create type ino e).1 (some []) e (x.ec_create type ino e).2

  -- The laws on the types: a file has the type that it is made with, and keeps it while it is read,
  -- while other files are changed and when it is changed just after it was read.
  pub record HasTypes (x : Extents E) (type_of : E → ℕ → ℕ) (HasRoom : ℕ → E → Type 0)
      : Type 0 where
    pub type_release : (id j : ℕ) (e : E) → type_of (x.lc_release id e) j ≡ type_of e j
    pub type_get :
        (id j : ℕ) (b : List ℕ) (e : E)
        → view e id ≢ none
        → IsGood e
        → type_of (x.ec_get id b e).2 j ≡ type_of e j
    pub type_getattr :
        (id j : ℕ) (a : Attr) (e : E)
        → view e id ≢ none
        → IsGood e
        → type_of (x.ec_getattr id a e).2 j ≡ type_of e j
    pub type_put :
        (id j : ℕ) (b : List ℕ) (e : E) → j ≢ id → type_of (x.ec_put id b e).1 j ≡ type_of e j
    pub type_got :
        (id : ℕ) (buf b : List ℕ) (e : E)
        → view e id ≢ none
        → IsGood e
        → type_of (x.ec_put id b (x.ec_get id buf e).2).1 id ≡ type_of e id
    pub type_create :
        (type ino : ℕ) (e : E)
        → type_of (x.ec_create type ino e).2 (x.ec_create type ino e).1 ≡ type
    pub type_create_other :
        (type ino j : ℕ) (e : E)
        → HasRoom type e
        → IsGood e
        → j ≢ (x.ec_create type ino e).1
        → type_of (x.ec_create type ino e).2 j ≡ type_of e j

  pub Keeps-trans : (a b c : E) → Keeps a b → Keeps b c → Keeps a c
  Keeps-trans a b c p q = (λ j. q.0 j ∙ p.0 j, q.1)

  pub Sets-between :
      (id : ℕ) (v : Option (List ℕ)) (a b c d : E)
      → Keeps a b
      → Sets id v b c
      → Keeps c d
      → Sets id v a d
  Sets-between id v a b c d p q r =
      (λ j. r.0 j ∙ q.0 j ∙ ap (λ w. if j == id then v else w) (p.0 j), r.1)

  -- A file whose bytes were set is seen.
  pub Sets-seen :
      (id : ℕ) (bytes : List ℕ) (a b : E) → Sets id (some bytes) a b → view b id ≡ some bytes
  Sets-seen id bytes a b s = s.0 id ∙ if_true (view a id) (==_refl id)

pub some_ne : {v : Option (List ℕ)} {bytes : List ℕ} → v ≡ some bytes → v ≢ none
some_ne e n = cc

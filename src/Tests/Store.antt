-- ===== src/Tests/Store.antt =====
-- A plain store of files as a client of extents and locks, with a directory and a file in it.
use naive_file_system.Prelude.{
  ==_ne, ==_refl, if_true, ◌%◌, length, if_false, ◌∙◌, ==_eq, sym, inr, inl, ap, Option-cases,
  Bool-cases, ℕ, suc, ◌^◌, ◌≤◌, ◌<◌, ◌≡◌, ◌≢◌, refl, arith, Option, none, some, List, [], ◌∷◌, ◌==◌,
  if◌then◌else◌,
}
use naive_file_system.Inodes.Files.{Attr}
use naive_file_system.ExtentCache.{Status, ok, noent}
use naive_file_system.YfsClient.Operations.{Extents}
use naive_file_system.YfsClient.Values.{Dirent}
use naive_file_system.YfsClient.Holds.{Sets, Holds, HasTypes}
use naive_file_system.YfsClient.Entries.{IsDir, dir_bytes}

pub record Store : Type 0 where
  pub next : ℕ
  pub file : ℕ → Option (List ℕ)
  pub kind : ℕ → ℕ

abbrev pub attr_of : ℕ → Attr
attr_of id = record { type = 1; atime = 0; mtime = 0; ctime = 0; size = 0 }

abbrev pub status_of : Option (List ℕ) → Status
status_of none = noent
status_of (some d) = ok

abbrev pub bytes_of : Option (List ℕ) → List ℕ → List ℕ
bytes_of none buf = buf
bytes_of (some d) buf = d

abbrev pub set_file : ℕ → Option (List ℕ) → Store → Store
set_file id v e = record e { file = λ j. if j == id then v else e.file j }

abbrev pub put_file : ℕ → List ℕ → Option (List ℕ) → Store → Store
put_file id d none e = e
put_file id d (some b) e = set_file id (some d) e

abbrev pub plain : Extents Store
plain = record {
  ec_create = λ type ino e. (
    ok,
    e.next,
    record {
      next = suc e.next;
      file = λ j. if j == e.next then some [] else e.file j;
      kind = λ j. if j == e.next then type else e.kind j;
    },
  );
  ec_get = λ id buf e. (status_of (e.file id), bytes_of (e.file id) buf, e);
  ec_getattr = λ id a e. (
    status_of (e.file id),
    record (attr_of id) { type = e.kind id; size = length (bytes_of (e.file id) []) % 2 ^ 32 },
    e,
  );
  ec_put = λ id d e. (ok, put_file id d (e.file id) e);
  ec_remove = λ id e. (ok, set_file id none e);
  ec_flush = λ id e. (ok, e);
  lc_acquire = λ id e. e;
  lc_release = λ id e. e;
}

abbrev pub view : Store → ℕ → Option (List ℕ)
view e id = e.file id

-- Numbers from the next one on are not in use.
abbrev pub IsGood : Store → Type 0
IsGood e = (j : ℕ) → e.next ≤ j → e.file j ≡ none

abbrev pub type_of : Store → ℕ → ℕ
type_of e id = e.kind id

-- There is always room for bytes.
abbrev pub Fits : Store → ℕ → Type 0
Fits e n = Unit {0}

abbrev pub HasRoom : ℕ → Store → Type 0
HasRoom type e = e.next < 2 ^ 64

set-Sets :
    (id : ℕ) (v : Option (List ℕ)) (e : Store)
    → e.file id ≢ none
    → IsGood e
    → Sets view IsGood id v e (set_file id v e)
set-Sets id v e ne g = (
  λ j. refl,
  λ j h. elim (Bool-cases (j == id)) [
    | inl s ↦ absurd (ne (ap e.file (sym (==_eq j id s)) ∙ g j h))
    | inr o ↦ if_false v o ∙ g j h
  ],
)

put-Sets :
    (id : ℕ) (d : List ℕ) (e : Store)
    → e.file id ≢ none
    → IsGood e
    → Sets view IsGood id (some d) e (put_file id d (e.file id) e)
put-Sets id d e ne g = elim (Option-cases (e.file id)) [
  | inl gone ↦ absurd (ne gone)
  | inr there ↦ rw there.1 (set-Sets id (some d) e ne g)
]

pub plain-Holds : Holds view IsGood plain type_of HasRoom Fits
plain-Holds = record {
  acquire_room = λ id type e r. r;
  acquire_fits = λ id n e r. r;
  release_fits = λ id n e r. r;
  get_fits = λ id buf n e ne g r. r;
  put_fits = λ id d n e r. r;
  create_fits = λ type ino n e room g r. r;
  acquire_keeps = λ id e g. (λ j. refl, g);
  release_keeps = λ id e g. (λ j. refl, g);
  acquire_type = λ id j e. refl;
  get_ok = λ id buf d e v g. (ap (λ o. bytes_of o buf) v, (λ j. refl, g));
  put_ok = λ id d e ne g. put-Sets id d e ne g;
  remove_ok = λ id e ne g. set-Sets id none e ne g;
  flush_ok = λ id d e v f g. (λ j. refl, g);
  getattr_ok = λ id a e ne g. (seen (e.file id) ne, refl, (λ j. refl, g));
  getattr_size = λ id a d e v g. ap (λ o. length (bytes_of o []) % 2 ^ 32) v;
  create_ok =
      λ type ino e r g. (r, g e.next (omega arith), (λ j. refl, λ j h. ground (arith, g j)));
}
  where
    seen : (o : Option (List ℕ)) → o ≢ none → status_of o ≡ ok
    seen none ne = absurd (ne refl)
    seen (some d) ne = refl

pub plain-HasTypes : HasTypes view IsGood plain type_of HasRoom
plain-HasTypes = record {
  type_release = λ id j e. refl;
  type_get = λ id j b e n g. refl;
  type_getattr = λ id j a e n g. refl;
  type_put = λ id j b e n. kept id b (e.file id) e j;
  type_got = λ id buf b e n g. kept id b (e.file id) e id;
  type_create_other = λ type ino j e r g ne. if_false type (==_ne j e.next ne);
  type_create = λ type ino e. if_true (e.kind e.next) (==_refl e.next);
}
  where
    kept :
        (id : ℕ) (b : List ℕ) (o : Option (List ℕ)) (e : Store) (j : ℕ)
        → type_of (put_file id b o e) j ≡ type_of e j
    kept id b none e j = refl
    kept id b (some d) e j = refl

-- Directory 1 has the file `a` with the number 2, whose bytes are `hi`.
abbrev pub root : List Dirent
root = record { name = 97 ∷ []; inum = 2 } ∷ []

pub root-IsDir : IsDir root
root-IsDir = (((omega arith, tt), λ e. cc), omega arith, tt)

abbrev pub hi : List ℕ
hi = 104 ∷ 105 ∷ []

abbrev pub store : Store
store = record {
  next = 3;
  file = λ j. if j == 1 then some (dir_bytes root) else if j == 2 then some hi else none;
  kind = λ j. if j == 2 then 2 else 1;
}

pub store-IsGood : IsGood store
store-IsGood j h = ground arith

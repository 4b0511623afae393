-- ===== src/Fuse/Attributes.antt =====
-- `getattr` of fuse.cc: the attributes that the kernel is told of a file.
use naive_file_system.Prelude.{
  ℕ, ◌%◌, ◌^◌, ◌≡◌, refl, ap, ◌∙◌, arith, Bool, true, false, Option, some, List, length, ◌==◌,
  if◌then◌else◌,
}
use naive_file_system.Inodes.Files.{Attr}
use naive_file_system.ExtentCache.{ok, is_ok}
use naive_file_system.YfsClient.Operations.{
  Extents, has_type, isfile, issymlink, isdir, file_info, dir_info, getfile, getsymlink, getdir,
}
use naive_file_system.YfsClient.Values.{t_dir, t_file, t_symlk}
use naive_file_system.YfsClient.Holds.{Keeps, Holds, HasTypes, Keeps-trans, some_ne}
use naive_file_system.Fuse.Handlers.{stat_file, stat_link, stat_dir, getattr}
use naive_file_system.Fuse.Replies.{Stat, mode, Kind, regular, link, directory, blank}

-- What `stat` says of a file with a type and bytes.
pub record Describes (inum type : ℕ) (d : List ℕ) (st : Stat) : Type 0 where
  pub number : st.ino ≡ inum
  pub of_file :
      type ≡ t_file
      → (st.st_mode ≡ mode regular 438) × (st.nlink ≡ 1) × (st.st_size ≡ length d % 2 ^ 32)
  pub of_link :
      type ≡ t_symlk
      → (st.st_mode ≡ mode link 511) × (st.nlink ≡ 1) × (st.st_size ≡ length d % 2 ^ 32)
  pub of_dir : type ≡ t_dir → (st.st_mode ≡ mode directory 511) × (st.nlink ≡ 2)

module _ {E : Type 0} (x : Extents E) (unset : Attr) (unset_ino : ℕ)
    (view : E → ℕ → Option (List ℕ)) (IsGood : E → Type 0) (type_of : E → ℕ → ℕ)
    (HasRoom : ℕ → E → Type 0) (Fits : E → ℕ → Type 0)
    (holds : Holds view IsGood x type_of HasRoom Fits)
    (types : HasTypes view IsGood x type_of HasRoom) where
  -- A step that changes neither bytes nor types.
  abbrev pub KeepsAll : E → E → Type 0
  KeepsAll e d = ((j : ℕ) → type_of d j ≡ type_of e j) × Keeps view IsGood e d

  pub KeepsAll-trans : (a b c : E) → KeepsAll a b → KeepsAll b c → KeepsAll a c
  KeepsAll-trans a b c p q = (λ j. q.0 j ∙ p.0 j, Keeps-trans view IsGood a b c p.1 q.1)

  -- The test of a file's type is right, and changes nothing.
  pub has_type_lem :
      (t id : ℕ) (d : List ℕ) (e : E)
      → view e id ≡ some d
      → IsGood e
      → ((has_type x unset t id e).0 ≡ (type_of e id == t)) × KeepsAll e (has_type x unset t id e).1
  unfolding has_type is_ok
  has_type_lem t id d e v good =
      let a = holds.getattr_ok id unset e (some_ne v) good in
      (
        rw a.0 (ap (λ n. n == t) a.1),
        ((λ j. types.type_getattr id j unset e (some_ne v) good), a.2),
      )

  -- What a branch of `getattr` answers: the kind of the file, its links, and its size unless it is a
  -- directory.
  pub record Stats (id : ℕ) (kind : Kind) (perm links size : ℕ) (e : E) (r : (ℕ × Stat) × E)
      : Type 0 where
    pub answer : r.0.0 ≡ 0
    pub numbered : r.0.1.ino ≡ id
    pub kept_mode : r.0.1.st_mode ≡ mode kind perm
    pub links_of : r.0.1.nlink ≡ links
    pub sized : r.0.1.st_size ≡ size
    pub keeps : KeepsAll e r.1

  -- The attributes are read under the lock.
  locked_attr :
      (id : ℕ) (d : List ℕ) (e : E)
      → view e id ≡ some d
      → IsGood e
      → let r = x.ec_getattr id unset (x.lc_acquire id e) in
        (r.0 ≡ ok) × (r.1.size ≡ length d % 2 ^ 32) × KeepsAll e (x.lc_release id r.2)
  locked_attr id d e v good =
      let l = holds.acquire_keeps id e good in
      let c = x.lc_acquire id e in
      let a = holds.getattr_ok id unset c (some_ne (l.0 id ∙ v)) l.1 in
      let b = (x.ec_getattr id unset c).2 in
      let r = holds.release_keeps id b a.2.1 in
      (
        a.0,
        holds.getattr_size id unset d c (l.0 id ∙ v) l.1,
        (
          λ j.
              types.type_release id j b
              ∙ types.type_getattr id j unset c (some_ne (l.0 id ∙ v)) l.1
              ∙ holds.acquire_type id j e,
          Keeps-trans view IsGood e b (x.lc_release id b) (Keeps-trans view IsGood e c b l a.2) r,
        ),
      )

  stat_file-Stats :
      (id : ℕ) (d : List ℕ) (e : E)
      → view e id ≡ some d
      → IsGood e
      → Stats id regular 438 1 (length d % 2 ^ 32) e (stat_file x unset unset_ino id e)
  unfolding stat_file getfile file_info is_ok
  stat_file-Stats id d e v good =
      let a = locked_attr id d e v good in
      rw a.0 (record {
        answer = refl;
        numbered = refl;
        kept_mode = refl;
        links_of = refl;
        sized = a.1;
        keeps = a.2;
      })

  stat_link-Stats :
      (id : ℕ) (d : List ℕ) (e : E)
      → view e id ≡ some d
      → IsGood e
      → Stats id link 511 1 (length d % 2 ^ 32) e (stat_link x unset unset_ino id e)
  unfolding stat_link getsymlink file_info is_ok
  stat_link-Stats id d e v good =
      let a = locked_attr id d e v good in
      rw a.0 (record {
        answer = refl;
        numbered = refl;
        kept_mode = refl;
        links_of = refl;
        sized = a.1;
        keeps = a.2;
      })

  stat_dir-Stats :
      (id : ℕ) (d : List ℕ) (e : E)
      → view e id ≡ some d
      → IsGood e
      → Stats id directory 511 2 0 e (stat_dir x unset unset_ino id e)
  unfolding stat_dir getdir dir_info is_ok
  stat_dir-Stats id d e v good =
      let a = locked_attr id d e v good in
      rw a.0 (record {
        answer = refl;
        numbered = refl;
        kept_mode = refl;
        links_of = refl;
        sized = refl;
        keeps = a.2;
      })

  -- One branch describes the file.
  Stats-Describes :
      (id type : ℕ) (d : List ℕ) (kind : Kind) (perm links size : ℕ) (e : E) (r : (ℕ × Stat) × E)
      → Stats id kind perm links size e r
      → (type ≡ t_file → (kind ≡ regular) × (perm ≡ 438) × (links ≡ 1) × (size ≡ length d % 2 ^ 32))
      → (type ≡ t_symlk → (kind ≡ link) × (perm ≡ 511) × (links ≡ 1) × (size ≡ length d % 2 ^ 32))
      → (type ≡ t_dir → (kind ≡ directory) × (perm ≡ 511) × (links ≡ 2))
      → Describes id type d r.0.1
  Stats-Describes id type d kind perm links size e r s f l g = record {
    number = s.numbered;
    of_file = λ t.
        let c = f t in (s.kept_mode ∙ (λ i. mode (c.0 i) (c.1 i)), s.links_of ∙ c.2, s.sized ∙ c.3);
    of_link = λ t.
        let c = l t in (s.kept_mode ∙ (λ i. mode (c.0 i) (c.1 i)), s.links_of ∙ c.2, s.sized ∙ c.3);
    of_dir = λ t. let c = g t in (s.kept_mode ∙ (λ i. mode (c.0 i) (c.1 i)), s.links_of ∙ c.2);
  }

  -- Over clients that keep the laws, `getattr` of a file that is seen answers `OK`, with the mode and
  -- the links of the file's type and, unless it is a directory, its length; nothing that is seen
  -- changes.
  pub getattr-Describes :
      (id : ℕ) (d : List ℕ) (e : E)
      → view e id ≡ some d
      → IsGood e
      → let r = getattr x unset unset_ino id e in
        (r.0.0 ≡ 0) × Describes id (type_of e id) d r.0.1 × KeepsAll e r.1
  unfolding getattr isfile issymlink isdir
  getattr-Describes id d e v good =
      let p = has_type_lem t_file id d e v good in
      let c = (has_type x unset t_file id e).1 in
      let f = has_type_lem t_file id d c (p.1.1.0 id ∙ v) p.1.1.1 in
      let c1 = (has_type x unset t_file id c).1 in
      let kf = KeepsAll-trans e c c1 p.1 f.1 in
      let l = has_type_lem t_symlk id d c1 (kf.1.0 id ∙ v) kf.1.1 in
      let c2 = (has_type x unset t_symlk id c1).1 in
      let kl = KeepsAll-trans e c1 c2 kf l.1 in
      let g = has_type_lem t_dir id d c2 (kl.1.0 id ∙ v) kl.1.1 in
      let c3 = (has_type x unset t_dir id c2).1 in
      let kd = KeepsAll-trans e c2 c3 kl g.1 in
      by_type (has_type x unset t_file id c).0 (has_type x unset t_symlk id c1).0
        (has_type x unset t_dir id c2).0 c1 c2 c3 kf kl kd (f.0 ∙ ap (λ n. n == t_file) (p.1.0 id))
        (l.0 ∙ ap (λ n. n == t_symlk) (kf.0 id)) (g.0 ∙ ap (λ n. n == t_dir) (kl.0 id))
    where
      done :
          (kind : Kind) (perm links size : ℕ) (c : E) (r : (ℕ × Stat) × E)
          → KeepsAll e c
          → Stats id kind perm links size c r
          → (type_of e id ≡ t_file
              → (kind ≡ regular) × (perm ≡ 438) × (links ≡ 1) × (size ≡ length d % 2 ^ 32))
          → (type_of e id ≡ t_symlk
              → (kind ≡ link) × (perm ≡ 511) × (links ≡ 1) × (size ≡ length d % 2 ^ 32))
          → (type_of e id ≡ t_dir → (kind ≡ directory) × (perm ≡ 511) × (links ≡ 2))
          → (r.0.0 ≡ 0) × Describes id (type_of e id) d r.0.1 × KeepsAll e r.1
      done kind perm links size c r k s a b g = (
        s.answer,
        Stats-Describes id (type_of e id) d kind perm links size c r s a b g,
        KeepsAll-trans e c r.1 k s.keeps,
      )

      by_type :
          (bf bl bd : Bool) (c1 c2 c3 : E)
          → KeepsAll e c1
          → KeepsAll e c2
          → KeepsAll e c3
          → bf ≡ (type_of e id == t_file)
          → bl ≡ (type_of e id == t_symlk)
          → bd ≡ (type_of e id == t_dir)
          → let r =
              if bf
              then stat_file x unset unset_ino id c1
              else if bl
              then stat_link x unset unset_ino id c2
              else if bd
              then stat_dir x unset unset_ino id c3
              else ((0, blank id), c3) in
            (r.0.0 ≡ 0) × Describes id (type_of e id) d r.0.1 × KeepsAll e r.1
      by_type true bl bd c1 c2 c3 k1 k2 k3 a b g =
          done regular 438 1 (length d % 2 ^ 32) c1 (stat_file x unset unset_ino id c1) k1
            (stat_file-Stats id d c1 (k1.1.0 id ∙ v) k1.1.1) (λ t. (refl, refl, refl, refl))
            (λ t. absurd (ground arith)) (λ t. absurd (ground arith))
      by_type false true bd c1 c2 c3 k1 k2 k3 a b g =
          done link 511 1 (length d % 2 ^ 32) c2 (stat_link x unset unset_ino id c2) k2
            (stat_link-Stats id d c2 (k2.1.0 id ∙ v) k2.1.1) (λ t. absurd (ground arith))
            (λ t. (refl, refl, refl, refl)) (λ t. absurd (ground arith))
      by_type false false true c1 c2 c3 k1 k2 k3 a b g =
          done directory 511 2 0 c3 (stat_dir x unset unset_ino id c3) k3
            (stat_dir-Stats id d c3 (k3.1.0 id ∙ v) k3.1.1) (λ t. absurd (ground arith))
            (λ t. absurd (ground arith)) (λ t. (refl, refl, refl))
      by_type false false false c1 c2 c3 k1 k2 k3 a b g = (
        refl,
        record {
          number = refl;
          of_file = λ t. absurd (ground arith);
          of_link = λ t. absurd (ground arith);
          of_dir = λ t. absurd (ground arith);
        },
        k3,
      )

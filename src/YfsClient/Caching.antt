-- ===== src/YfsClient/Caching.antt =====
-- The caching extent client of extent_client_cache.cc behind yfs_client.cc: the calls that
-- yfs_client.cc makes of `ec` and `lc`, on a client, its server and a clock.
use naive_file_system.Prelude.{
  subst, sym, ◌∙◌, ap, length, ℕ, suc, ◌≡◌, ◌≢◌, refl, Option, none, some, List,
}
use naive_file_system.Inodes.{Times}
use naive_file_system.Inodes.Files.{Attr}
use naive_file_system.ExtentCache.{
  set_cached, Rpc, Client, create, get, getattr, put, remove, flush,
}
use naive_file_system.ExtentCache.View.{
  shown, view_at, some-injective, Contents, Serves, view, IsCoherent,
}
use naive_file_system.ExtentCache.Get.{get-view}
use naive_file_system.ExtentCache.Reread.{put-got-type}
use naive_file_system.ExtentCache.Room.{get-KeepsRoom, put-server}
use naive_file_system.ExtentCache.Put.{put-view, remove-view}
use naive_file_system.ExtentCache.Flush.{flush-Same}
use naive_file_system.ExtentCache.Attributes.{entry_type, getattr-Attributes}
use naive_file_system.ExtentCache.Create.{create-types, Creates, create-Sets}
use naive_file_system.YfsClient.Operations.{Extents}
use naive_file_system.ExtentCache.Types.{get-type, getattr-type, put-type, create-type}
use naive_file_system.YfsClient.Holds.{some_ne, HasTypes, Keeps, Holds}

-- The client with its server, and what `time(0)` gives at each call.
pub record World (S : Type 0) : Type 0 where
  pub client : Client S
  pub clock : ℕ → Times
  pub ticks : ℕ

abbrev pub now : {S : Type 0} → World S → Times
now w = w.clock w.ticks

abbrev pub stepped : {S : Type 0} → World S → Client S → World S
stepped w c = record w { client = c; ticks = suc w.ticks }

-- The calls of a caching client. The calls of the lock client, whose `lock_user` flushes this cache,
-- are parameters, which are to keep the laws Locks below.
unfoldable pub caching :
    {S : Type 0}
    → Rpc S
    → Attr
    → (ℕ → World S → World S)
    → (ℕ → World S → World S)
    → Extents (World S)
unfolding create get getattr put remove flush
caching rpc unset acquire release = record {
  ec_create =
      λ type id w. let r = create rpc unset type id (now w) w.client in (r.0, r.1, stepped w r.2);
  ec_get = λ id buf w. let r = get rpc unset id buf (now w) w.client in (r.0, r.1, stepped w r.2);
  ec_getattr = λ id a w. let r = getattr rpc unset id a w.client in (r.0, r.1, stepped w r.2);
  ec_put = λ id d w. let r = put rpc unset id d (now w) w.client in (r.0, stepped w r.1);
  ec_remove = λ id w. let r = remove rpc unset id w.client in (r.0, stepped w r.1);
  ec_flush = λ id w. let r = flush rpc unset id w.client in (r.0, stepped w r.1);
  lc_acquire = acquire;
  lc_release = release;
}

bytes_of : (o : Option (List ℕ)) → o ≢ none → (d : List ℕ) × (o ≡ some d)
bytes_of none n = absurd (n refl)
bytes_of (some d) n = (d, refl)

module _ {S : Type 0} (rpc : Rpc S) (unset : Attr) (held : Contents S) (HasRoom : ℕ → S → Type 0)
    (serves : Serves rpc held) (creates : Creates rpc held HasRoom) where
  abbrev pub seen : World S → ℕ → Option (List ℕ)
  seen w id = view held w.client id

  abbrev pub IsGood : World S → Type 0
  IsGood w = IsCoherent held w.client

  abbrev pub type_of : World S → ℕ → ℕ
  type_of w id = entry_type (w.client.table id) (held.type_at w.client.server id)

  abbrev pub HasSpace : ℕ → World S → Type 0
  HasSpace type w = HasRoom type w.client.server

  abbrev FitsIn : S → ℕ → Type 0
  FitsIn s n = (j : ℕ) (d : List ℕ) → length d ≡ n → held.CanPut s j d

  abbrev pub Fits : World S → ℕ → Type 0
  Fits w n = FitsIn w.client.server n

  -- What the locks promise: no other client changes the files meanwhile.
  pub record Locks (acquire release : ℕ → World S → World S) : Type 0 where
    pub acquire_room : (id type : ℕ) (w : World S) → HasSpace type w → HasSpace type (acquire id w)
    pub acquire_fits : (id n : ℕ) (w : World S) → Fits w n → Fits (acquire id w) n
    pub release_fits : (id n : ℕ) (w : World S) → Fits w n → Fits (release id w) n
    pub acquire_keeps : (id : ℕ) (w : World S) → IsGood w → Keeps seen IsGood w (acquire id w)
    pub release_keeps : (id : ℕ) (w : World S) → IsGood w → Keeps seen IsGood w (release id w)
    pub acquire_type : (id j : ℕ) (w : World S) → type_of (acquire id w) j ≡ type_of w j
    pub release_type : (id j : ℕ) (w : World S) → type_of (release id w) j ≡ type_of w j

  caching-Holds :
      (acquire release : ℕ → World S → World S)
      → Locks acquire release
      → Holds seen IsGood (caching rpc unset acquire release) type_of HasSpace Fits
  unfolding caching set_cached
  caching-Holds acquire release locks = record {
    acquire_room = locks.acquire_room;
    acquire_fits = locks.acquire_fits;
    release_fits = locks.release_fits;
    get_fits = λ id buf n w ne g f j d e.
        let (b, v) = bytes_of (seen w id) ne in
        get-KeepsRoom rpc unset held serves id buf b (now w) w.client g.sound v j d (f j d e);
    put_fits = λ id d n w f.
        subst (λ s. FitsIn s n) (put-server rpc unset held serves id d (now w) w.client) f;
    create_fits = λ type ino n w room g f j d e.
        creates.keeps_room type w.client.server room g.sound j d (f j d e);
    acquire_keeps = locks.acquire_keeps;
    release_keeps = locks.release_keeps;
    acquire_type = locks.acquire_type;
    get_ok = λ id buf d w v g.
        let r = get-view rpc unset held serves w.client id buf d (now w) v g in (r.1, r.2);
    put_ok =
        λ id d w ne g. let r = put-view rpc unset held w.client id d (now w) ne g in (r.1, r.2);
    remove_ok = λ id w ne g. let r = remove-view rpc unset held w.client id ne g in (r.1, r.2);
    flush_ok = λ id d w v f g.
        flush-Same rpc unset held serves id w.client (some_ne v)
          (λ e x m. f id e.data_of (
            ap length (
              some-injective (
                sym (
                  view_at held w.client id (some e) x
                  ∙ ap (λ s. shown s e.data_of (held.file w.client.server id)) m)
                ∙ v))))
          g;
    getattr_ok = λ id a w ne g.
        let (d, v) = bytes_of (seen w id) ne in
        let r = getattr-Attributes rpc unset held serves id a d w.client v g in (r.0, r.1, r.3);
    getattr_size = λ id a d w v g. (getattr-Attributes rpc unset held serves id a d w.client v g).2;
    create_ok = λ type ino w room g.
        let r = create-Sets rpc unset held HasRoom creates type w.client room g ino (now w) in
        (r.0, r.1, (r.2, r.3));
  }

  caching-HasTypes :
      (acquire release : ℕ → World S → World S)
      → Locks acquire release
      → HasTypes seen IsGood (caching rpc unset acquire release) type_of HasSpace
  unfolding caching
  caching-HasTypes acquire release locks = record {
    type_release = locks.release_type;
    type_get = λ id j buf w ne g.
        let (d, v) = bytes_of (seen w id) ne in
        get-type rpc unset held serves id j buf d (now w) w.client g.sound v;
    type_getattr = λ id j a w ne g.
        let (d, v) = bytes_of (seen w id) ne in
        getattr-type rpc unset held serves id j a d w.client g.sound v;
    type_put = λ id j d w ne. put-type rpc unset held serves id j d (now w) w.client ne;
    type_got = λ id buf b w ne g.
        let (d, v) = bytes_of (seen w id) ne in
        put-got-type rpc unset held serves id buf b d (now w) (w.clock (suc w.ticks)) w.client
          g.sound v;
    type_create_other = λ type ino j w room g.
        create-types rpc unset held HasRoom creates type w.client room g ino j (now w);
    type_create = λ type ino w. create-type rpc unset held serves type ino (now w) w.client;
  }

  -- Over a server that keeps its promises, and with locks that keep other clients away, the caching
  -- client, with any clock and whatever its memory held, keeps all laws that yfs_client.cc and
  -- fuse.cc rely on: those on the bytes and sizes of files, on the room for them and on their
  -- types.
  pub caching_implements :
      (acquire release : ℕ → World S → World S)
      → Locks acquire release
      → Holds seen IsGood (caching rpc unset acquire release) type_of HasSpace Fits
        × HasTypes seen IsGood (caching rpc unset acquire release) type_of HasSpace
  caching_implements acquire release locks =
      (caching-Holds acquire release locks, caching-HasTypes acquire release locks)

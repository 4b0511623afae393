-- ===== src/Tests/Cache.antt =====
-- A caching client over a server that is a plain store.
use naive_file_system.ExtentCache.Create.{Creates}
use naive_file_system.Tests.Store.{Store, status_of, bytes_of, set_file, put_file}
use naive_file_system.YfsClient.Holds.{Holds, HasTypes}
use naive_file_system.YfsClient.Caching.{
  World, Locks, caching, caching_implements, seen, IsGood, type_of, HasSpace, Fits,
}
use naive_file_system.Prelude.{
  inr, inl, ◌^◌, Option-cases, suc, ◌<◌, ap, ℕ, ◌≡◌, refl, none, some, List, [], ◌∷◌, ◌==◌,
  if◌then◌else◌, if_false,
}
use naive_file_system.Inodes.{Times}
use naive_file_system.Inodes.Files.{Attr}
use naive_file_system.ExtentCache.{
  set_cached, size_of, getattr, ok, rpcerr, modified, Entry, Rpc, Client, get, put, remove,
}
use naive_file_system.ExtentCache.View.{
  Contents, some-injective, set_cached-IsCoherent, Serves, view, IsCoherent, Same,
}
use naive_file_system.ExtentCache.Get.{get-view, get_hides_failure}
use naive_file_system.ExtentCache.Put.{put-view, remove-view}
use naive_file_system.ExtentCache.Unset.{put_unset_type}

abbrev noon : Times
noon = record { a = 7; m = 8; c = 9 }

abbrev no_attr : Attr
no_attr = record { type = 2; atime = 0; mtime = 0; ctime = 0; size = 0 }

abbrev server : Rpc Store
server = record {
  call_create = λ type s. (
    ok,
    some s.next,
    record {
      next = suc s.next;
      file = λ j. if j == s.next then some [] else s.file j;
      kind = λ j. if j == s.next then type else s.kind j;
    },
  );
  call_get = λ id s. (status_of (s.file id), s.file id, s);
  call_getattr = λ id s. (
    status_of (s.file id),
    some (record no_attr { type = s.kind id; size = size_of (bytes_of (s.file id) []) }),
    s,
  );
  call_put = λ id d s. (status_of (s.file id), put_file id d (s.file id) s);
  call_remove = λ id s. (ok, id, set_file id none s);
}

abbrev held : Contents Store
held = record {
  file = λ s. s.file;
  type_at = λ s. s.kind;
  IsSound = λ s. Unit;
  CanPut = λ s id d. Unit;
}

server-Serves : Serves server held
server-Serves = record {
  get_ok = λ id d s u f. (ap status_of f, f);
  get_keeps = λ id d s u f. ((λ j. refl), (λ j. refl), tt, λ j b w. w);
  getattr_ok = λ id d s u f. (ap status_of f, (_, refl, refl, ap (λ o. size_of (bytes_of o [])) f));
  getattr_keeps = λ id d s u f. ((λ j. refl), (λ j. refl), tt, λ j b w. w);
  put_ok = λ id d s u ne r. elim (Option-cases (s.file id)) [
    | inl n ↦ absurd (ne n)
    | inr (b, e) ↦ (ap status_of e, (λ j. ap (λ o. (put_file id d o s).file j) e), tt)
  ];
}

abbrev HasRoom : ℕ → Store → Type 0
HasRoom type s = (s.next < 2 ^ 64) × (s.file s.next ≡ none)

server-Creates : Creates server held HasRoom
server-Creates = record {
  number = λ type s r. s.next;
  replies = λ type s r u. refl;
  small = λ type s r u. r.0;
  unused = λ type s r u. r.1;
  makes = λ type s r u. ((λ j. refl), tt);
  keeps_room = λ type s r u j b w. w;
  keeps_types = λ type s r u j o. if_false type o;
}

abbrev locks : ℕ → World Store → World Store
locks id w = w

locks-Locks : Locks server no_attr held HasRoom server-Serves server-Creates locks locks
locks-Locks = record {
  acquire_room = λ id type w r. r;
  acquire_fits = λ id n w r. r;
  release_fits = λ id n w r. r;
  acquire_keeps = λ id w g. (λ j. refl, g);
  release_keeps = λ id w g. (λ j. refl, g);
  acquire_type = λ id j w. refl;
  release_type = λ id j w. refl;
}

caching_implements_example :
    Holds
      (seen server no_attr held HasRoom server-Serves server-Creates)
      (IsGood server no_attr held HasRoom server-Serves server-Creates)
      (caching server no_attr locks locks)
      (type_of server no_attr held HasRoom server-Serves server-Creates)
      (HasSpace server no_attr held HasRoom server-Serves server-Creates)
      (Fits server no_attr held HasRoom server-Serves server-Creates)
    × HasTypes
        (seen server no_attr held HasRoom server-Serves server-Creates)
        (IsGood server no_attr held HasRoom server-Serves server-Creates)
        (caching server no_attr locks locks)
        (type_of server no_attr held HasRoom server-Serves server-Creates)
        (HasSpace server no_attr held HasRoom server-Serves server-Creates)
caching_implements_example =
    caching_implements server no_attr held HasRoom server-Serves server-Creates locks locks
      locks-Locks

abbrev text : List ℕ
text = 104 ∷ 105 ∷ []

-- File 3 has the bytes `hi` and is not cached; file 4 is changed in the cache.
abbrev changed : Entry
changed = record { data_of = 33 ∷ []; m_state = modified; attr = record no_attr { size = 1 } }

abbrev kept : Client Store
kept = record {
  table = λ j. none;
  server = record {
    next = 5;
    file = λ j. if j == 3 then some text else if j == 4 then some [] else none;
    kind = λ j. 2;
  };
}

abbrev client : Client Store
client = record kept { table = λ j. if j == 4 then some changed else none }

client-IsCoherent : IsCoherent held client
unfolding set_cached
client-IsCoherent =
    set_cached-IsCoherent held kept 4 changed
      (record { there = λ n. cc; same = λ u. cc; sized = λ d e. ap size_of (some-injective e) })
      (record { sound = tt; fresh = λ id e t. cc })

get_from_cache :
    ((get server no_attr 3 [] noon client).0 ≡ ok)
    × ((get server no_attr 3 [] noon client).1 ≡ text)
    × Same held client (get server no_attr 3 [] noon client).2
get_from_cache =
    get-view server no_attr held server-Serves client 3 [] text noon (unfold view in refl)
      client-IsCoherent

put_in_cache :
    ((put server no_attr 3 (1 ∷ []) noon client).0 ≡ ok)
    × ((j : ℕ)
        → view held (put server no_attr 3 (1 ∷ []) noon client).1 j
          ≡ (if j == 3 then some (1 ∷ []) else view held client j))
    × IsCoherent held (put server no_attr 3 (1 ∷ []) noon client).1
put_in_cache =
    put-view server no_attr held client 3 (1 ∷ []) noon (unfold view in λ e. cc) client-IsCoherent

remove_in_cache :
    ((remove server no_attr 3 client).0 ≡ ok)
    × ((j : ℕ)
        → view held (remove server no_attr 3 client).1 j
          ≡ (if j == 3 then none else view held client j))
    × IsCoherent held (remove server no_attr 3 client).1
remove_in_cache =
    remove-view server no_attr held client 3 (unfold view in λ e. cc) client-IsCoherent

-- A server whose `get` is not answered.
abbrev broken : Rpc Store
broken = record server { call_get = λ id s. (rpcerr, none, s) }

get_hides_failure_example :
    let r = get broken no_attr 3 (9 ∷ []) noon client in
    let q = get broken no_attr 3 [] noon r.2 in
    (r.0 ≡ ok) × (r.1 ≡ 9 ∷ []) × (q.0 ≡ ok) × (q.1 ≡ 9 ∷ []) × (q.2.server ≡ r.2.server)
get_hides_failure_example =
    get_hides_failure broken no_attr client 3 (9 ∷ []) [] noon refl refl refl

-- File 3 has no entry; `no_attr` stands for what happens to be in the memory.
put_unset_type_example :
    let c1 = (put server no_attr 3 text noon client).1 in
    let c2 = (get server no_attr 3 [] noon c1).2 in
    ((getattr server no_attr 3 no_attr c1).0 ≡ ok)
    × ((getattr server no_attr 3 no_attr c1).1.type ≡ 2)
    × ((getattr server no_attr 3 no_attr c1).1.atime ≡ 0)
    × ((getattr server no_attr 3 no_attr c1).1.size ≡ size_of text)
    × ((getattr server no_attr 3 no_attr c1).2.server ≡ client.server)
    × ((getattr server no_attr 3 no_attr c2).1.type ≡ 2)
put_unset_type_example = put_unset_type server no_attr 3 text [] noon noon no_attr client refl

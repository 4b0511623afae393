-- ===== src/ExtentCache/Unset.antt =====
-- What extent_client_cache.cc makes of a file that it has no entry of when `put` is called.
use naive_file_system.Prelude.{ℕ, ◌≡◌, refl, ap, ◌∙◌, none, some, List, if_true, ==_refl}
use naive_file_system.Inodes.{Times}
use naive_file_system.Inodes.Files.{Attr}
use naive_file_system.ExtentCache.{
  getattr_entry, getattr_cached, get_cached, get_entry, u32, modified, ok, Entry, Rpc, Client,
  set_cached, is_removed, size_of, get, put, getattr,
}

at_set :
    {S : Type 0} (c d : Client S) (eid : ℕ) (e : Entry)
    → d ≡ set_cached c eid e
    → d.table eid ≡ some e
unfolding set_cached
at_set c d eid e p = ap (λ k. k.table eid) p ∙ if_true (c.table eid) (==_refl eid)

module _ {S : Type 0} (rpc : Rpc S) (unset : Attr) (eid : ℕ) where
  getattr-modified :
      (a : Attr) (c : Client S) (e : Entry)
      → c.table eid ≡ some e
      → e.m_state ≡ modified
      → getattr rpc unset eid a c ≡ (ok, e.attr, c)
  unfolding getattr
  getattr-modified a c e p m =
      ap (λ o. getattr_cached rpc unset o eid a c) p ∙ ap (λ x. getattr_entry rpc unset x a e c) m

  get-modified :
      (buf : List ℕ) (t : Times) (c : Client S) (e : Entry)
      → c.table eid ≡ some e
      → e.m_state ≡ modified
      → get rpc unset eid buf t c
        ≡ (ok, e.data_of, set_cached c eid (record e { attr = record e.attr { atime = u32 t.a } }))
  unfolding get get_entry
  get-modified buf t c e p m =
      ap (λ o. get_cached rpc unset o eid buf t c) p
      ∙ ap (λ x. get_entry rpc unset x eid buf t e c) m

  -- What `put` makes.
  abbrev made : List ℕ → Times → Entry
  made buf t = record {
    data_of = buf;
    m_state = modified;
    attr = record unset { mtime = u32 t.m; ctime = u32 t.c; size = size_of buf };
  }

  put-missing :
      (buf : List ℕ) (t : Times) (c : Client S)
      → c.table eid ≡ none
      → (put rpc unset eid buf t c).1 ≡ set_cached c eid (made buf t)
  unfolding put is_removed
  put-missing buf t c e = rw e refl

-- After a `put` on a file that has no entry in the cache, `getattr` answers `OK` without a call of
-- the server, with the length of the text as the size and with a type and an access time that
-- nobody has set. After a `get` of that file it still gives the type that nobody has set.
pub put_unset_type :
    {S : Type 0} (rpc : Rpc S) (unset : Attr) (eid : ℕ) (buf old : List ℕ) (t t' : Times)
    → (a : Attr) (c : Client S) → c.table eid ≡ none
    → let c1 = (put rpc unset eid buf t c).1 in
      let c2 = (get rpc unset eid old t' c1).2 in
      ((getattr rpc unset eid a c1).0 ≡ ok)
      × ((getattr rpc unset eid a c1).1.type ≡ unset.type)
      × ((getattr rpc unset eid a c1).1.atime ≡ unset.atime)
      × ((getattr rpc unset eid a c1).1.size ≡ size_of buf)
      × ((getattr rpc unset eid a c1).2.server ≡ c.server)
      × ((getattr rpc unset eid a c2).1.type ≡ unset.type)
put_unset_type rpc unset eid buf old t t' a c e =
    let c1 = (put rpc unset eid buf t c).1 in
    let c2 = (get rpc unset eid old t' c1).2 in
    let m = made rpc unset eid buf t in
    let p = put-missing rpc unset eid buf t c e in
    let at1 = at_set c c1 eid m p in
    let at2 =
      at_set c1 c2 eid (record m { attr = record m.attr { atime = u32 t'.a } })
        (ap (λ r. r.2) (get-modified rpc unset eid old t' c1 m at1 refl)) in
    let q = getattr-modified rpc unset eid a c1 m at1 refl in
    (
      ap (λ r. r.0) q,
      ap (λ r. r.1.type) q,
      ap (λ r. r.1.atime) q,
      ap (λ r. r.1.size) q,
      ap (λ r. r.2.server) q ∙ (unfold set_cached in ap (λ k. k.server) p),
      ap (λ r. r.1.type) (getattr-modified rpc unset eid a c2 _ at2 refl),
    )

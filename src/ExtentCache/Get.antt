-- ===== src/ExtentCache/Get.antt =====
-- `get` of extent_client_cache.cc against the view of the files.
use naive_file_system.Prelude.{
  ℕ, ◌≡◌, refl, sym, ap, ◌∙◌, Option, none, some, List, if_true, ==_refl,
}
use naive_file_system.Inodes.{Times}
use naive_file_system.Inodes.Files.{Attr}
use naive_file_system.ExtentCache.{
  u32, size_of, Status, ok, CacheState, unread, update, modified, removed, Entry, Rpc, Client,
  set_cached, is_ok, get, get_entry, get_unread, get_missing, get_cached,
}
use naive_file_system.ExtentCache.View.{
  Contents, Same-trans, view_at, Fresh, some-injective, Serves, shown, view, IsCoherent, Same,
  store-Same, serve-Same,
}

module _ {S : Type 0} (rpc : Rpc S) (unset : Attr) (held : Contents S)
    (serves : Serves rpc held) where
  -- What `get` answers for a file with the bytes `d`, and that nothing that is seen changes.
  abbrev Gets : Client S → List ℕ → Status × List ℕ × Client S → Type 0
  Gets c d r = (r.0 ≡ ok) × (r.1 ≡ d) × Same held c r.2

  -- An entry with the server's bytes.
  read-Fresh :
      (id : ℕ) (d : List ℕ) (s : S) (a : Attr)
      → held.file s id ≡ some d
      → a.size ≡ size_of d
      → Fresh (held.file s id) (record { data_of = d; m_state = update; attr = a })
  read-Fresh id d s a f z = record {
    there = λ n. cc;
    same = λ _. sym f;
    sized = λ x e. z ∙ ap size_of (some-injective e);
  }

  read-Same :
      (id : ℕ) (d : List ℕ) (s : S) (a : Attr) (c : Client S)
      → ((j : ℕ) → held.file s j ≡ held.file c.server j)
      → held.IsSound s
      → held.file c.server id ≡ some d
      → view held c id ≡ some d
      → a.size ≡ size_of d
      → IsCoherent held c
      → Same held c (
          set_cached
            (record c { server = s })
            id
            (record { data_of = d; m_state = update; attr = a }))
  read-Same id d s a c kept sound f v z h =
      let served : Same held c (record c { server = s }) = serve-Same held c s kept sound h in
      Same-trans held c (record c { server = s }) _ served
        (store-Same held (record c { server = s }) id _ (sym (served.0 id ∙ v))
          (read-Fresh id d s a (kept id ∙ f) z) served.1)

  get_unread-Gets :
      (id : ℕ) (buf d : List ℕ) (t : Times) (e : Entry) (c : Client S)
      → held.file c.server id ≡ some d
      → view held c id ≡ some d
      → IsCoherent held c
      → Gets c d (get_unread rpc unset id buf t e c)
  unfolding get_unread is_ok
  get_unread-Gets id buf d t e c f v h =
      let got = serves.get_ok id d c.server h.sound f in
      let kept = serves.get_keeps id d c.server h.sound f in
      rw got.0 (rw got.1 (refl, refl, read-Same id d _ _ c kept.0 kept.2 f v refl h))

  get_missing-Gets :
      (id : ℕ) (buf d : List ℕ) (t : Times) (c : Client S)
      → held.file c.server id ≡ some d
      → view held c id ≡ some d
      → IsCoherent held c
      → Gets c d (get_missing rpc unset id buf t c)
  unfolding get_missing is_ok
  get_missing-Gets id buf d t c f v h =
      let s1 = (rpc.call_get id c.server).2 in
      let got = serves.get_ok id d c.server h.sound f in
      let k1 = serves.get_keeps id d c.server h.sound f in
      let f1 : held.file s1 id ≡ some d = k1.0 id ∙ f in
      let k2 = serves.getattr_keeps id d s1 k1.2 f1 in
      let kept : (j : ℕ) → held.file (rpc.call_getattr id s1).2 j ≡ held.file c.server j =
        λ j. k2.0 j ∙ k1.0 j in
      let (good, (a, e, type, size)) = serves.getattr_ok id d s1 k1.2 f1 in
      rw good (rw got.1 (rw e (refl, refl, read-Same id d _ _ c kept k2.2 f v size h)))

  -- The access time changes.
  touched :
      (id : ℕ) (e : Entry) (t : Times) (c : Client S)
      → c.table id ≡ some e
      → IsCoherent held c
      → Fresh (held.file c.server id) (record e { attr = record e.attr { atime = u32 t.a } })
  touched id e t c x h =
      let f = h.fresh id e x in record { there = f.there; same = f.same; sized = f.sized }

  get_entry-Gets :
      (m : CacheState) (id : ℕ) (buf d : List ℕ) (t : Times) (e : Entry) (c : Client S)
      → e.m_state ≡ m
      → c.table id ≡ some e
      → view held c id ≡ some d
      → shown m e.data_of (held.file c.server id) ≡ some d
      → IsCoherent held c
      → Gets c d (get_entry rpc unset m id buf t e c)
  unfolding get_entry
  get_entry-Gets unread id buf d t e c m x v w h = get_unread-Gets id buf d t e c w v h
  get_entry-Gets update id buf d t e c m x v w h =
      (refl, some-injective w, store-Same held c id _ (rw m (w ∙ sym v)) (touched id e t c x h) h)
  get_entry-Gets modified id buf d t e c m x v w h =
      (refl, some-injective w, store-Same held c id _ (rw m (w ∙ sym v)) (touched id e t c x h) h)
  get_entry-Gets removed id buf d t e c m x v w h = cc

  -- Over a server that keeps its promises and on a coherent cache, `get` of a file that is seen
  -- answers `OK` and the bytes that are seen, whether they are cached or not and whatever the
  -- buffer of the caller holds; nothing that is seen changes, and the cache stays coherent.
  pub get-view :
      (c : Client S) (id : ℕ) (buf d : List ℕ) (t : Times)
      → view held c id ≡ some d
      → IsCoherent held c
      → Gets c d (get rpc unset id buf t c)
  unfolding get
  get-view c id buf d t v h = by_entry (c.table id) refl
    where
      by_entry : (o : Option Entry) → c.table id ≡ o → Gets c d (get_cached rpc unset o id buf t c)
      by_entry none x = get_missing-Gets id buf d t c (sym (view_at held c id none x) ∙ v) v h
      by_entry (some e) x =
          get_entry-Gets e.m_state id buf d t e c refl x v (sym (view_at held c id (some e) x) ∙ v)
            h

-- An entry that was read is answered from the cache.
get_read :
    {S : Type 0} (rpc : Rpc S) (unset : Attr) (c : Client S) (id : ℕ) (e : Entry) (buf : List ℕ)
    (t : Times)
    → c.table id ≡ some e
    → e.m_state ≡ update
    → ((get rpc unset id buf t c).0 ≡ ok)
      × ((get rpc unset id buf t c).1 ≡ e.data_of)
      × ((get rpc unset id buf t c).2.server ≡ c.server)
unfolding get get_entry set_cached
get_read rpc unset c id e buf t x u = rw x (rw u (refl, refl, refl))

get_missing_failed :
    {S : Type 0} (rpc : Rpc S) (unset : Attr) (c : Client S) (id : ℕ) (buf : List ℕ) (t : Times)
    → (rpc.call_get id c.server).1 ≡ none
    → (rpc.call_getattr id (rpc.call_get id c.server).2).0 ≡ ok
    → (e : Entry) × (e.m_state ≡ update)
      × (e.data_of ≡ buf)
      × ((get_missing rpc unset id buf t c).0 ≡ ok)
      × ((get_missing rpc unset id buf t c).1 ≡ buf)
      × ((get_missing rpc unset id buf t c).2.table id ≡ some e)
unfolding get_missing is_ok set_cached
get_missing_failed rpc unset c id buf t failed fine =
    rw fine (rw failed (_, refl, refl, refl, refl, if_true (c.table id) (==_refl id)))

-- When the call of `get` for a file that is not cached leaves the buffer as it was, and the call of
-- `getattr` after it answers `OK`, then `get` answers `OK` with the bytes of the caller's buffer
-- and caches them: the next `get` answers `OK` with them too, without a call of the server.
pub get_hides_failure :
    {S : Type 0} (rpc : Rpc S) (unset : Attr) (c : Client S) (id : ℕ) (buf next : List ℕ)
    (t : Times)
    → c.table id ≡ none
    → (rpc.call_get id c.server).1 ≡ none
    → (rpc.call_getattr id (rpc.call_get id c.server).2).0 ≡ ok
    → let r = get rpc unset id buf t c in
      let q = get rpc unset id next t r.2 in
      (r.0 ≡ ok) × (r.1 ≡ buf) × (q.0 ≡ ok) × (q.1 ≡ buf) × (q.2.server ≡ r.2.server)
get_hides_failure rpc unset c id buf next t e failed fine =
    let m = get_missing_failed rpc unset c id buf t failed fine in
    let is_missing : get rpc unset id buf t c ≡ get_missing rpc unset id buf t c =
      unfold get in ap (λ o. get_cached rpc unset o id buf t c) e in
    let q = get_read rpc unset (get_missing rpc unset id buf t c).2 id m.0 next t m.5 m.1 in
    rw is_missing (m.3, m.4, q.0, q.1 ∙ m.2, q.2)

-- ===== src/Handles/Lifetime.antt =====
-- The operations of handle.cc on counted entries: an entry that a handle refers to is never freed.
use naive_file_system.Prelude.{
  ℕ, suc, ◌+◌, ◌-◌, ◌%◌, ◌^◌, ◌<◌, ◌≡◌, refl, sym, ap, ◌∙◌, arith, Bool, true, false, Option, none,
  some, List, ◌∷◌, length, ◌==◌, if◌then◌else◌, if_true, if_false, Bool-cases, ◌⊎◌, inl, inr,
  ==_refl, ==_eq,
}
use naive_file_system.Outcome.{ret, Returns}
use naive_file_system.Handles.{
  Hinfo, Hmap, set_info, get_info, get_handle, delete_info, delete_handle_wo, done_info,
  done_handle, bind_info, safebind,
}
use naive_file_system.Handles.Counts.{
  occurrences, dropped, count_of, IsCounted, occurrences-le, occurrences-dropped, length-dropped,
  set_info-IsCounted, occurrences-cons, same-IsCounted,
}

-- A new handle, if there is one, is counted.
abbrev pub with_handle : Option ℕ → List ℕ → List ℕ
with_handle none live = live
with_handle (some m) live = m ∷ live

-- With fewer than 2 ^ 31 - 1 handles, `get_handle` keeps the counts right, the new handle counted;
-- it refers to the entry of the name, unless that entry is marked as deleted.
pub get_handle-IsCounted :
    (m : ℕ) (hmap : Hmap) (live : List ℕ)
    → suc (length live) < 2 ^ 31
    → IsCounted hmap live
    → IsCounted (get_handle m hmap).1 (with_handle (get_handle m hmap).0 live)
unfolding get_handle
get_handle-IsCounted m hmap live room h = by_entry (hmap m) refl
  where
    counted :
        (i : Option Hinfo)
        → count_of i ≡ suc (occurrences m live)
        → IsCounted (set_info m i hmap) (m ∷ live)
    counted i e =
        set_info-IsCounted m i hmap live (m ∷ live) h.0
          (λ j.
            occurrences-cons m j live ∙ ap (λ n. if j == m then n else occurrences j live) (sym e))
          room

    by_entry :
        (o : Option Hinfo)
        → hmap m ≡ o
        → IsCounted (get_info m hmap o).1 (with_handle (get_info m hmap o).0 live)
    by_entry none e = counted _ (ap suc (sym (h.0 m ∙ ap count_of e)))
    by_entry (some i) e = elim (Bool-cases i.deleted) [
      | inl d ↦ rw d h
      | inr d ↦
          let n : occurrences m live ≡ i.refcnt = h.0 m ∙ ap count_of e in
          rw d (counted _ (omega (arith, occurrences-le m live)))
    ]

-- `delete_handle_wo` keeps the counts right: an entry is freed only if no handle refers to it.
pub delete_handle_wo-IsCounted :
    (m : ℕ) (hmap : Hmap) (live : List ℕ)
    → IsCounted hmap live
    → IsCounted (delete_handle_wo m hmap) live
unfolding delete_handle_wo
delete_handle_wo-IsCounted m hmap live h = by_entry (hmap m) refl
  where
    freed :
        (i : Hinfo) (j : ℕ)
        → hmap m ≡ some i
        → i.refcnt ≡ 0
        → ((j == m) ≡ true) ⊎ ((j == m) ≡ false)
        → occurrences j live ≡ (if j == m then 0 else occurrences j live)
    freed i j e z (inl t) =
        ap (λ n. occurrences n live) (==_eq j m t)
        ∙ h.0 m
        ∙ ap count_of e
        ∙ z
        ∙ sym (if_true (occurrences j live) t)
    freed i j e z (inr f) = sym (if_false 0 f)

    by_entry : (o : Option Hinfo) → hmap m ≡ o → IsCounted (delete_info m hmap o) live
    by_entry none e = h
    by_entry (some i) e = elim (Bool-cases (i.refcnt == 0)) [
      | inl z ↦ rw z (
          set_info-IsCounted m none hmap live live h.0
            (λ j. freed i j e (==_eq i.refcnt 0 z) (Bool-cases (j == m))) h.1)
      | inr n ↦ rw n (same-IsCounted m i _ hmap live e refl h)
    ]

either :
    (a b : Bool) (x y : Hmap) (live : List ℕ)
    → IsCounted x live
    → IsCounted y live
    → IsCounted (if a then if b then x else y else y) live
either true true x y live p q = p
either true false x y live p q = q
either false b x y live p q = q

-- `done_handle` of a handle that exists finds its entry and keeps the counts right, that handle
-- taken away.
pub done_handle-IsCounted :
    (m : ℕ) (hmap : Hmap) (live : List ℕ)
    → 0 < occurrences m live
    → IsCounted hmap live
    → Returns (done_handle m hmap) λ after. IsCounted after (dropped m live)
unfolding done_handle
done_handle-IsCounted m hmap live has h = by_entry (hmap m) refl
  where
    less :
        (i : Hinfo)
        → hmap m ≡ some i
        → (j : ℕ) → ((j == m) ≡ true) ⊎ ((j == m) ≡ false)
        → (if j == m then occurrences j live - 1 else occurrences j live)
          ≡ (if j == m then (i.refcnt + 2 ^ 32 - 1) % 2 ^ 32 else occurrences j live)
    less i e j (inl t) =
        let n : occurrences m live ≡ i.refcnt = h.0 m ∙ ap count_of e in
        if_true (occurrences j live) t
        ∙ ap (λ k. occurrences k live - 1) (==_eq j m t)
        ∙ omega (arith, occurrences-le m live)
        ∙ sym (if_true (occurrences j live) t)
    less i e j (inr f) = if_false (occurrences j live - 1) f ∙ sym (if_false _ f)

    left :
        (i : Hinfo)
        → hmap m ≡ some i
        → IsCounted
            (set_info m (some (record i { refcnt = (i.refcnt + 2 ^ 32 - 1) % 2 ^ 32 })) hmap)
            (dropped m live)
    left i e =
        set_info-IsCounted m _ hmap live (dropped m live) h.0
          (λ j. occurrences-dropped m j live has ∙ less i e j (Bool-cases (j == m)))
          (omega (arith, h.1, length-dropped m live))

    by_entry :
        (o : Option Hinfo)
        → hmap m ≡ o
        → Returns (done_info m hmap o) λ after. IsCounted after (dropped m live)
    by_entry none e = absurd (omega (arith, h.0 m ∙ ap count_of e))
    by_entry (some i) e =
        let after =
          set_info m (some (record i { refcnt = (i.refcnt + 2 ^ 32 - 1) % 2 ^ 32 })) hmap in
        (
          _,
          refl,
          either ((i.refcnt + 2 ^ 32 - 1) % 2 ^ 32 == 0) i.deleted (delete_handle_wo m after) after
              (dropped m live) (delete_handle_wo-IsCounted m after (dropped m live) (left i e))
              (left i e),
        )

-- `safebind` of a handle that exists finds its entry, keeps the counts right, and gives a
-- connection only of an entry that is bound afterwards.
pub safebind-IsCounted :
    (m : ℕ) (binds : Bool) (hmap : Hmap) (live : List ℕ)
    → 0 < occurrences m live
    → IsCounted hmap live
    → Returns {A = Bool × Hmap}
        (safebind (some m) binds hmap)
        λ r. IsCounted r.1 live × (r.0 ≡ true → (i : Hinfo) × (r.1 m ≡ some i) × (i.bound ≡ true))
unfolding safebind
safebind-IsCounted m binds hmap live has h = by_entry (hmap m) refl
  where
    at : (i : Option Hinfo) → set_info m i hmap m ≡ i
    at i = unfold set_info in if_true (hmap m) (==_refl m)

    by_bind :
        (i : Hinfo) (d b c : Bool)
        → hmap m ≡ some i
        → i.bound ≡ b
        → Returns {A = Bool × Hmap}
            (if d
              then ret (false, hmap)
              else if b
              then ret (true, hmap)
              else if c
              then ret (true, set_info m (some (record i { bound = true })) hmap)
              else ret (false, set_info m (some (record i { deleted = true })) hmap))
            λ r.
              IsCounted r.1 live × (r.0 ≡ true → (k : Hinfo) × (r.1 m ≡ some k) × (k.bound ≡ true))
    by_bind i true b c e p = (_, refl, (h, λ f. cc))
    by_bind i false true c e p = (_, refl, (h, λ _. (i, e, p)))
    by_bind i false false true e p =
        (_, refl, (same-IsCounted m i _ hmap live e refl h, λ _. (_, at _, refl)))
    by_bind i false false false e p = (_, refl, (same-IsCounted m i _ hmap live e refl h, λ f. cc))

    by_entry :
        (o : Option Hinfo)
        → hmap m ≡ o
        → Returns {A = Bool × Hmap} (bind_info m binds hmap o) λ r.
          IsCounted r.1 live × (r.0 ≡ true → (i : Hinfo) × (r.1 m ≡ some i) × (i.bound ≡ true))
    by_entry none e = absurd (omega (arith, h.0 m ∙ ap count_of e))
    by_entry (some i) e = by_bind i i.deleted i.bound binds e refl

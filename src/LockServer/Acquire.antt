-- ===== src/LockServer/Acquire.antt =====
-- `acquire` of lock_server_cache.cc on a valid lock.
use naive_file_system.Prelude.{
  if_true, if_false, if◌then◌else◌, ==_eq, subst, ◌⊎◌, ℕ, ◌≡◌, ◌≢◌, refl, sym, ap, ◌∙◌, arith, true,
  false, none, some, List, [], ◌∷◌, ◌++◌, ◌==◌, ◌||◌, Bool-cases, inl, inr,
}
use naive_file_system.Outcome.{undefined, Returns}
use naive_file_system.LockServer.{
  Status, free, locked, waiting, Lock, no_client, count, erase, ok, retry, Handled, grant_front,
  join, acquire_waiting, acquire_known, acquire, front,
}
use naive_file_system.LockServer.Queue.{
  IsUnique, IsValid, count-append, count-insert, IsUnique-append, IsUnique-insert, count-erase,
  IsUnique-erase, count-cons, count-append_one,
}

-- What `acquire` by client `id` does to a valid lock.
pub record Acquires (id : ℕ) (l : Lock) (h : Handled) : Type 0 where
  pub valid : IsValid h.lock
  pub granted :
      h.reply ≡ ok
      → (h.lock.client_id ≡ id)
        × ((l.status ≡ free) ⊎ ((l.status ≡ waiting) × (front l.client_q ≡ id)))
  pub refused :
      h.reply ≡ retry
      → (h.lock.client_id ≡ l.client_id)
        × (h.lock.status ≡ waiting)
        × (count id h.lock.client_q ≡ true)
  pub called : (c : ℕ) → h.call ≡ some c → c ≡ h.lock.client_id
  pub fifo : h.reply ≡ retry → (x : ℕ) (q : List ℕ) → l.client_q ≡ x ∷ q → front h.lock.client_q ≡ x
  pub joined :
      h.reply ≡ retry
      → h.lock.client_q ≡ (if count id l.client_q then l.client_q else l.client_q ++ id ∷ [])
  pub advanced :
      h.reply ≡ ok
      → l.client_q ≡ (if count id l.client_q then id ∷ h.lock.client_q else h.lock.client_q)
  pub others : (j : ℕ) → j ≢ id → count j h.lock.client_q ≡ count j l.client_q
  pub left : h.reply ≡ ok → count id h.lock.client_q ≡ false

Acquires-free :
    (id : ℕ) (l : Lock)
    → id ≢ no_client
    → IsValid l
    → l.status ≡ free
    → Returns (acquire_known id free l) (Acquires id l)
unfolding acquire_known
Acquires-free id l named v e = (
  _,
  refl,
  record {
    valid = record {
      queue = λ _. v.queue (λ w. cc);
      waits = λ w. cc;
      unheld = λ w. cc;
      held = λ _. named;
      same = v.same;
      unique = v.unique;
      set = v.set;
    };
    granted = λ _. (refl, inl e);
    refused = λ r. cc;
    called = λ c r. cc;
    fifo = λ r x q e. cc;
    joined = λ r. cc;
    advanced = λ _. sym (if_false _ (ap (count id) (v.queue (λ w. cc)) ∙ (unfold count in refl)));
    others = λ j ne. refl;
    left = λ r. ap (count id) (v.queue (λ w. cc)) ∙ (unfold count in refl);
  },
)

Acquires-locked :
    (id : ℕ) (l : Lock)
    → IsValid l
    → l.status ≡ locked
    → Returns (acquire_known id locked l) (Acquires id l)
unfolding acquire_known count
Acquires-locked id l v e =
    let none_waits : l.client_q ≡ [] = v.queue (λ w. cc) in
    let none_set : (x : ℕ) → count x l.client_s ≡ false = λ x. v.same x ∙ ap (count x) none_waits in
    (
      _,
      refl,
      record {
        valid = record {
          queue = λ w. absurd (w refl);
          waits = λ _ n. ground arith;
          unheld = λ w. cc;
          held = λ w. cc;
          same = λ x.
              count-insert x id l.client_s
              ∙ ground (arith, none_set x, count-append x l.client_q (id ∷ []));
          unique = IsUnique-append id l.client_q v.unique (sym (v.same id) ∙ none_set id);
          set = IsUnique-insert id l.client_s v.set;
        };
        granted = λ r. cc;
        refused = λ _. (refl, refl, count-append id l.client_q (id ∷ []) ∙ ground arith);
        called = λ c r. ground arith;
        fifo = λ r x q e. ground arith;
        joined = λ _. sym (if_false l.client_q (sym (v.same id) ∙ none_set id));
        advanced = λ r. cc;
        others = λ j ne. count-append_one j id l.client_q ∙ ground arith;
        left = λ r. cc;
      },
    )

-- What `grant_front` returns.
abbrev fronted : ℕ → List ℕ → Lock → Handled
fronted id rest l = record {
  reply = ok;
  call = elim rest [ [] ↦ none | _ ∷ _ ↦ some id ];
  lock = record {
    client_id = id;
    client_q = rest;
    client_s = erase id l.client_s;
    status = elim rest [ [] ↦ locked | _ ∷ _ ↦ l.status ];
  };
}

headed : (id : ℕ) (rest q : List ℕ) → q ≡ id ∷ rest → q ≡ (if count id q then id ∷ rest else rest)
unfolding count
headed id rest q e = e ∙ sym (if_true rest (ap (count id) e ∙ ground arith))

fronted-Acquires :
    (id : ℕ) (rest : List ℕ) (l : Lock)
    → id ≢ no_client
    → l.status ≡ waiting
    → l.client_q ≡ id ∷ rest
    → ((x : ℕ) → count x (erase id l.client_s) ≡ count x rest)
    → IsUnique rest
    → IsUnique (erase id l.client_s)
    → ((j : ℕ) → j ≢ id → count j rest ≡ count j l.client_q)
    → count id rest ≡ false
    → Acquires id l (fronted id rest l)
fronted-Acquires id [] l named e f same unique set others left = record {
  valid = record {
    queue = λ _. refl;
    waits = λ w. cc;
    unheld = λ w. cc;
    held = λ _. named;
    same = same;
    unique = unique;
    set = set;
  };
  granted = λ _. (refl, inr (e, ap front f));
  refused = λ r. cc;
  called = λ c r. cc;
  fifo = λ r x q e. cc;
  joined = λ r. cc;
  advanced = λ _. headed id _ l.client_q f;
  others = others;
  left = λ _. left;
}
fronted-Acquires id (x ∷ rest) l named e f same unique set others left = record {
  valid = record {
    queue = λ w. absurd (w e);
    waits = λ _ n. ground arith;
    unheld = λ w. cc;
    held = λ w. cc;
    same = same;
    unique = unique;
    set = set;
  };
  granted = λ _. (refl, inr (e, ap front f));
  refused = λ r. cc;
  called = λ c r. ground arith;
  fifo = λ r x q e. cc;
  joined = λ r. cc;
  advanced = λ _. headed id _ l.client_q f;
  others = others;
  left = λ _. left;
}

Acquires-front :
    (id : ℕ) (rest : List ℕ) (l : Lock)
    → id ≢ no_client
    → IsValid l
    → l.client_q ≡ id ∷ rest
    → l.status ≡ waiting
    → Returns (grant_front id rest l) (Acquires id l)
unfolding grant_front
Acquires-front id rest l named v q e =
    let in_queue : (x : ℕ) → count x l.client_s ≡ (id == x || count x rest) =
      λ x. v.same x ∙ ap (count x) q ∙ count-cons x id rest in
    let alone : IsUnique (id ∷ rest) = subst IsUnique q v.unique in
    (
      fronted id rest l,
      if_true undefined (in_queue id ∙ ground arith),
      fronted-Acquires id rest l named e q
          (λ x. count-erase x id l.client_s v.set ∙ ground (arith, in_queue x)) alone.1
          (IsUnique-erase id l.client_s v.set)
          (λ j ne. ground (arith, ap (count j) q ∙ count-cons j id rest)) alone.0,
    )

Acquires-join : (id : ℕ) (l : Lock) → IsValid l → l.status ≡ waiting → Acquires id l (join id l)
unfolding join
Acquires-join id l v e = elim (Bool-cases (count id l.client_s)) [
  | inl there ↦ rw there (record {
    valid = v;
    granted = λ r. cc;
    refused = λ _. (refl, e, sym (v.same id) ∙ there);
    called = λ c r. cc;
    fifo = λ r x q e. ap front e;
    joined = λ _. sym (if_true _ (sym (v.same id) ∙ there));
    advanced = λ r. cc;
    others = λ j ne. refl;
    left = λ r. cc;
  })
  | inr new ↦ rw new (record {
    valid = record {
      queue = λ w. absurd (w e);
      waits = λ _ n. append-ne l.client_q n;
      unheld = λ w. cc;
      held = λ w. cc;
      same = λ x.
          count-insert x id l.client_s
          ∙ ap (λ b. id == x || b) (v.same x)
          ∙ sym (count-append_one x id l.client_q);
      unique = IsUnique-append id l.client_q v.unique (sym (v.same id) ∙ new);
      set = IsUnique-insert id l.client_s v.set;
    };
    granted = λ r. cc;
    refused = λ _. (refl, e, count-append_one id id l.client_q ∙ ground arith);
    called = λ c r. cc;
    fifo = λ r x q e. ap (λ p. front (p ++ id ∷ [])) e;
    joined = λ _. sym (if_false l.client_q (sym (v.same id) ∙ new));
    advanced = λ r. cc;
    others = λ j ne. count-append_one j id l.client_q ∙ ground arith;
    left = λ r. cc;
  })
]
  where
    append-ne : (q : List ℕ) → q ++ id ∷ [] ≢ []
    append-ne [] n = ground arith
    append-ne (x ∷ q) n = ground arith

Acquires-waiting :
    (id : ℕ) (q : List ℕ) (l : Lock)
    → id ≢ no_client
    → IsValid l
    → l.client_q ≡ q
    → l.status ≡ waiting
    → Returns (acquire_waiting id q l) (Acquires id l)
unfolding acquire_waiting
Acquires-waiting id [] l named v e w = absurd (v.waits w e)
Acquires-waiting id (x ∷ rest) l named v e w = elim (Bool-cases (x == id)) [
  | inl mine ↦
      let same : x ≡ id = ==_eq x id mine in
      rw mine (Acquires-front id rest l named v (subst (λ y. l.client_q ≡ y ∷ rest) same e) w)
  | inr other ↦ (join id l, rw other, Acquires-join id l v w)
]

pub acquire-Acquires :
    (id : ℕ) (l : Lock) → id ≢ no_client → IsValid l → Returns (acquire id (some l)) (Acquires id l)
unfolding acquire
acquire-Acquires id l named v = by_status l.status refl
  where
    by_status : (s : Status) → l.status ≡ s → Returns (acquire_known id s l) (Acquires id l)
    by_status free e = Acquires-free id l named v e
    by_status locked e = Acquires-locked id l v e
    by_status waiting e = unfold acquire_known in Acquires-waiting id l.client_q l named v refl e

-- ===== src/Extent/Serving.antt =====
-- The extent server of extent_server.cc keeps the promises that extent_client_cache.cc relies on.
use naive_file_system.Prelude.{
  ℕ, ◌≡◌, ◌≢◌, refl, sym, ap, ◌∙◌, none, some, List, if◌then◌else◌, if_true, Option-cases, inl, inr,
  ◌==◌,
}
use naive_file_system.Outcome.{ret}
use naive_file_system.Extent.{Attr, masked}
use naive_file_system.Extent.Laws.{get-stored, put-stored, getattr-stored}
use naive_file_system.Extent.Calls.{
  Server, serving, kind_of, file_in, kind_in, RoomIn, IsServing, contents,
}
use naive_file_system.ExtentCache.{Status, ok, Rpc, size_of}
use naive_file_system.Inodes.Files.{Attr}
use naive_file_system.ExtentCache.View.{Serves}
use naive_file_system.Extent.Named.{
  room_same, running, file_in-Names, IsInum-IsId, file_same, kind_same, kinds_same, file_set,
  kinds_set, sized,
}

-- After a call that changes no file.
abbrev Unchanged : Server → Server → Type 0
Unchanged s next =
    ((j : ℕ) → file_in next.state j ≡ file_in s.state j)
    × ((j : ℕ) → kind_in next.state j ≡ kind_in s.state j)
    × IsServing next
    × ((d : List ℕ) → RoomIn s.state d → RoomIn next.state d)

module _ (lost : Status) (removing : ℕ → Server → Status × ℕ × Server) where
  abbrev rpc : Rpc Server
  rpc = serving lost removing

  abbrev Gets : ℕ → List ℕ → Server → Type 0
  Gets id d s =
      file_in s.state id ≡ some d
      → ((rpc.call_get id s).0 ≡ ok)
        × ((rpc.call_get id s).1 ≡ some d)
        × Unchanged s (rpc.call_get id s).2

  get-Gets : (id : ℕ) (d : List ℕ) (s : Server) → IsServing s → Gets id d s
  unfolding serving
  get-Gets id d s h = running (Gets id d) s h λ e.
      let (f, n) = file_in-Names h.0 id d e in
      let (r, run, p) = get-stored h.0 id (s.clock s.ticks) f h.2 (IsInum-IsId id n.1 n.2) n.3 in
      rw run (
        refl,
        ap some (p.0 ∙ n.4),
        (
          file_same h.0 r.1 p.2,
          kind_same h.0 r.1 p.2,
          (r.1, refl, p.1, kinds_same h.0 r.1 p.2 h.3),
          room_same h.0 r.1 p.3,
        ),
      )

  abbrev Tells : ℕ → List ℕ → Server → Type 0
  Tells id d s =
      file_in s.state id ≡ some d
      → ((rpc.call_getattr id s).0 ≡ ok)
        × ((a : Attr) × ((rpc.call_getattr id s).1 ≡ some a)
            × (a.type ≡ kind_in s.state id)
            × (a.size ≡ size_of d))
        × Unchanged s (rpc.call_getattr id s).2

  getattr-Tells : (id : ℕ) (d : List ℕ) (s : Server) → IsServing s → Tells id d s
  unfolding serving
  getattr-Tells id d s h = running (Tells id d) s h λ e.
      let (f, n) = file_in-Names h.0 id d e in
      let small = h.3 (masked id) f (IsInum-IsId id n.1 n.2) n.3 in
      let (a, run, p) = getattr-stored h.0 id f h.2 (IsInum-IsId id n.1 n.2) n.3 small in
      rw run (
        refl,
        (a, refl, p.0 ∙ sym (if_true 0 n.0 ∙ ap kind_of n.3), p.1 ∙ sized h.0 id d f n),
        ((λ j. refl), (λ j. refl), (h.0, refl, h.2, h.3), λ d room. room),
      )

  abbrev Puts : ℕ → List ℕ → Server → Type 0
  Puts id d s =
      file_in s.state id ≢ none
      → RoomIn s.state d
      → ((rpc.call_put id d s).0 ≡ ok)
        × ((j : ℕ)
            → file_in (rpc.call_put id d s).1.state j
              ≡ (if j == id then some d else file_in s.state j))
        × IsServing (rpc.call_put id d s).1

  put-Puts : (id : ℕ) (d : List ℕ) (s : Server) → IsServing s → Puts id d s
  unfolding serving
  put-Puts id d s h = running (Puts id d) s h λ ne room.
      elim (Option-cases (file_in (ret h.0) id)) [
        | inl none_there ↦ absurd (ne none_there)
        | inr (old, e) ↦
            let (f, n) = file_in-Names h.0 id old e in
            let (next, run, p) =
              put-stored h.0 id d (s.clock s.ticks) f h.2 (IsInum-IsId id n.1 n.2) n.3 room.0
                room.1 in
            rw run (
              refl,
              file_set h.0 next id (record f { bytes = d }) n.0 p.1 p.2,
              (
                next,
                refl,
                p.0,
                kinds_set h.0 next id (record f { bytes = d }) n.0 p.1 p.2
                    (h.3 (masked id) f (IsInum-IsId id n.1 n.2) n.3) h.3,
              ),
            )
      ]

  pub serving-Serves : Serves (serving lost removing) contents
  serving-Serves = record {
    get_ok = λ id d s h e. let g = get-Gets id d s h e in (g.0, g.1);
    get_keeps = λ id d s h e. let g = get-Gets id d s h e in (g.2.0, g.2.1, g.2.2, λ j. g.2.3);
    getattr_ok = λ id d s h e. let g = getattr-Tells id d s h e in (g.0, g.1);
    getattr_keeps =
        λ id d s h e. let g = getattr-Tells id d s h e in (g.2.0, g.2.1, g.2.2, λ j. g.2.3);
    put_ok = λ id d s h ne room. put-Puts id d s h ne room;
  }

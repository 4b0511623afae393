-- ===== src/YfsClient/Resize.antt =====
-- `setattr` of yfs_client.cc, which sets the length of a file.
use naive_file_system.Prelude.{
  ◌⊎◌, ℕ, ◌-◌, ◌^◌, ◌<◌, ◌≡◌, refl, sym, ap, ◌∙◌, arith, true, false, Option, some, List, [], ◌++◌,
  length, take, replicate, ltb, if◌then◌else◌, if_true, if_false, Bool-cases, inl, inr,
}
use naive_file_system.Inodes.Files.{Attr}
use naive_file_system.ExtentCache.{is_ok}
use naive_file_system.YfsClient.Operations.{Extents, set_size, setattr}
use naive_file_system.YfsClient.Values.{resize, resized}
use naive_file_system.YfsClient.Holds.{Sets, Holds, Keeps-trans, Sets-between, some_ne}
use naive_file_system.YfsClient.Bytes.{take_all}
use naive_file_system.YfsClient.Unlink.{append_nil}

no_zeros : (n : ℕ) → n ≡ 0 → replicate {A = ℕ} n 0 ≡ []
unfolding replicate
no_zeros n e = ap (λ k. replicate {A = ℕ} k 0) e

resized-resize : (size : ℕ) (d : List ℕ) → resized size (length d) d ≡ resize d size
unfolding resized
resized-resize size d = elim (Bool-cases (ltb (length d) size)) [
  | inl longer ↦
      if_true _ longer
      ∙ ap (λ t. t ++ replicate (size - length d) 0) (sym (take_all size d (ground arith)))
  | inr other ↦
      if_false _ other
      ∙ cut (Bool-cases (ltb size (length d))) other
      ∙ sym (append_nil (take size d))
      ∙ ap (λ t. take size d ++ t) (sym (no_zeros (size - length d) (ground arith)))
]
  where
    cut :
        ((ltb size (length d)) ≡ true) ⊎ ((ltb size (length d)) ≡ false)
        → (ltb (length d) size ≡ false)
        → (if ltb size (length d) then take size d else d) ≡ take size d
    cut (inl shorter) o = if_true d shorter
    cut (inr same) o = if_false (take size d) same ∙ sym (take_all size d (ground arith))

module _ {E : Type 0} (x : Extents E) (unset : Attr) (view : E → ℕ → Option (List ℕ))
    (IsGood : E → Type 0) (type_of : E → ℕ → ℕ) (HasRoom : ℕ → E → Type 0) (Fits : E → ℕ → Type 0)
    (holds : Holds view IsGood x type_of HasRoom Fits) where
  -- Over clients that keep the laws, `setattr` on a file that is seen and has fewer than 2 ^ 32 bytes
  -- answers `OK` and cuts the file off at the size or fills it up with zeros; nothing that is seen of
  -- another file changes.
  pub setattr-resize :
      (ino size : ℕ) (d : List ℕ) (e : E)
      → length d < 2 ^ 32
      → view e ino ≡ some d
      → IsGood e
      → ((setattr x unset ino size e).0 ≡ 0)
        × Sets view IsGood ino (some (resize d size)) e (setattr x unset ino size e).1
  unfolding setattr set_size is_ok
  setattr-resize ino size d e short v good =
      let l = holds.acquire_keeps ino e good in
      let a = x.lc_acquire ino e in
      let va : view a ino ≡ some d = l.0 ino ∙ v in
      let q = holds.getattr_ok ino unset a (some_ne va) l.1 in
      let b = (x.ec_getattr ino unset a).2 in
      let g = holds.get_ok ino [] d b (q.2.0 ino ∙ va) q.2.1 in
      let s = (x.ec_get ino [] b).2 in
      let before = Keeps-trans view IsGood e b s (Keeps-trans view IsGood e a b l q.2) g.1 in
      let put = holds.put_ok ino (resize d size) s (some_ne (before.0 ino ∙ v)) before.1 in
      let p = (x.ec_put ino (resize d size) s).1 in
      let len : (x.ec_getattr ino unset a).1.size ≡ length d =
        holds.getattr_size ino unset d a va l.1 ∙ omega arith in
      let new : resized size (x.ec_getattr ino unset a).1.size (x.ec_get ino [] b).1
          ≡ resize d size =
        ap (λ n. resized size n (x.ec_get ino [] b).1) len
        ∙ ap (resized size (length d)) g.0
        ∙ resized-resize size d in
      rw q.0 (
        rw new (
          refl,
          Sets-between view IsGood ino (some (resize d size)) e s p (x.lc_release ino p) before put
              (holds.release_keeps ino p put.1),
        ))

-- ===== src/YfsClient/Content.antt =====
-- `read` and `write` of yfs_client.cc: what they do to a file.
use naive_file_system.Prelude.{
  subst, ℕ, ◌+◌, ◌^◌, ◌<◌, ◌≡◌, refl, sym, ap, ◌∙◌, Option, some, List, [], length, take, drop,
}
use naive_file_system.Inodes.Files.{Attr}
use naive_file_system.YfsClient.Holds.{
  Sets-between, Sets-seen, some_ne, Keeps, Sets, Holds, Keeps-trans,
}
use naive_file_system.YfsClient.Operations.{Extents, read, write}
use naive_file_system.YfsClient.Values.{read_of}
use naive_file_system.YfsClient.Bytes.{
  Overwrites, length-written, longer_of, read_of-slice, written-Overwrites,
}

module _ {E : Type 0} (x : Extents E) (unset : Attr) (view : E → ℕ → Option (List ℕ))
    (IsGood : E → Type 0) (type_of : E → ℕ → ℕ) (HasRoom : ℕ → E → Type 0) (Fits : E → ℕ → Type 0)
    (holds : Holds view IsGood x type_of HasRoom Fits) where
  -- Over clients that keep the laws, `read` of a file that is seen gives the slice of its bytes
  -- from the offset on, cut off at the end of the file, for every offset and size; it changes
  -- nothing that is seen.
  pub read-slice :
      (ino size off : ℕ) (buf d : List ℕ) (e : E)
      → view e ino ≡ some d
      → IsGood e
      → ((read x unset ino size off buf e).0 ≡ take size (drop off d))
        × Keeps view IsGood e (read x unset ino size off buf e).1
  unfolding read
  read-slice ino size off buf d e v good =
      let l = holds.acquire_keeps ino e good in
      let a = x.lc_acquire ino e in
      let g = holds.get_ok ino buf d a (l.0 ino ∙ v) l.1 in
      let s = (x.ec_get ino buf a).2 in
      (
        ap (read_of size off) g.0 ∙ read_of-slice size off d,
        Keeps-trans view IsGood e s (x.lc_release ino s) (Keeps-trans view IsGood e a s l g.1)
            (holds.release_keeps ino s g.1.1),
      )

  -- Over clients that keep the laws, `write` of `size` bytes to a file that is seen, whose end is
  -- below 2 ^ 64 and for whose new length there is room, writes them all: the file then has them at
  -- the offset, zeros in a gap before, and its old bytes elsewhere. Nothing that is seen of another
  -- file changes.
  pub write-Overwrites :
      (ino size off : ℕ) (bytes old : List ℕ) (e : E)
      → length bytes ≡ size
      → off + size < 2 ^ 64
      → view e ino ≡ some old
      → Fits e (longer_of (length old) (off + size))
      → IsGood e
      → (new : List ℕ) × Overwrites size off bytes old new
        × ((write x unset ino size off bytes e).0 ≡ some size)
        × Sets view IsGood ino (some new) e (write x unset ino size off bytes e).1
  unfolding write
  write-Overwrites ino size off bytes old e le fits v room good =
      let l = holds.acquire_keeps ino e good in
      let a = x.lc_acquire ino e in
      let g = holds.get_ok ino [] old a (l.0 ino ∙ v) l.1 in
      let s = (x.ec_get ino [] a).2 in
      let w = written-Overwrites size off bytes old le fits in
      let p = (x.ec_put ino w.0 s).1 in
      let seen : view s ino ≡ some old = g.1.0 ino ∙ l.0 ino ∙ v in
      let put = holds.put_ok ino w.0 s (some_ne seen) g.1.1 in
      let f = (x.ec_flush ino p).1 in
      let there = holds.put_fits ino w.0 (length w.0) s (
        holds.get_fits ino [] (length w.0) a (some_ne (l.0 ino ∙ v)) l.1 (
          holds.acquire_fits ino (length w.0) e
            (subst (Fits e) (sym (length-written size off bytes old w.0 w.2)) room))) in
      let flush = holds.flush_ok ino w.0 p (Sets-seen view IsGood ino w.0 s p put) there put.1 in
      let after =
        Keeps-trans view IsGood p f (x.lc_release ino f) flush
          (holds.release_keeps ino f flush.1) in
      let all =
        Sets-between view IsGood ino (some w.0) e s p (x.lc_release ino f)
          (Keeps-trans view IsGood e a s l g.1) put after in
      rw g.0 (rw w.1 (w.0, w.2, refl, all))

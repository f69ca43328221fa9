-- ===== src/Transport/Refine.antt =====
-- The reader of src/transport/mod.rs as a stream of bytes, whatever buffers they lie in.
use fuse_backend_rs.Prelude.{
  ℕ, ◌+◌, ◌≡◌, refl, sym, ap, ap₂, Option, none, some, List, [], ◌∷◌, length, take, arith,
}
use fuse_backend_rs.Prelude.{inl, inr}
use fuse_backend_rs.Prelude.Outcome.{Outcome, ok, err, panic, ◌>>=◌}
use fuse_backend_rs.Transport.{
  TransportError, IoBuffers, read, read_obj, split_at, unexpected_eof, split_out_of_bounds,
}
use fuse_backend_rs.Transport.Calls
use fuse_backend_rs.Transport.Calls.{ReaderCall, reads, reads_obj, splits_at, Stream}
use fuse_backend_rs.Prelude.{ltb_cases}
use fuse_backend_rs.Transport.Consume.{left_in, Fits, read-take, split_at-Parts, split_at_past}
use fuse_backend_rs.Transport.Exact.{read_obj-take, read_obj-eof, Fits-used}
use fuse_backend_rs.Transport.Stream.{content}
use fuse_backend_rs.Prelude.Parts.{length-take_le, length-take_bound, length-drop}
use fuse_backend_rs.Transport.Volatile.{VolatileSlices}

module _ (slices : VolatileSlices) where
  open slices use {Slice}

  -- The same calls of the code.
  unfoldable pub step :
      IoBuffers slices → ReaderCall → Option (Outcome TransportError (IoBuffers slices × List ℕ))
  step b (reads n) = some (do (b', (k, bytes)) ← read slices b n; ok (b', bytes))
  step b (reads_obj n) = read_obj slices b n
  step b (splits_at n) =
      some (do (b', other) ← split_at slices b n; ok (b', content slices other.buffers))

  abbrev put_first :
      List ℕ
      → Option (Outcome TransportError (List (List ℕ)))
      → Option (Outcome TransportError (List (List ℕ)))
  put_first bytes none = none
  put_first bytes (some answers) = some (do rest ← answers; ok (bytes ∷ rest))

  -- The answer of a call, before those of the others.
  abbrev then_run :
      Option (Outcome TransportError (IoBuffers slices × List ℕ))
      → (IoBuffers slices → Option (Outcome TransportError (List (List ℕ))))
      → Option (Outcome TransportError (List (List ℕ)))
  then_run none others = none
  then_run (some panic) others = some panic
  then_run (some (err e)) others = some (err e)
  then_run (some (ok (b, bytes))) others = put_first bytes (others b)

  unfoldable pub run :
      IoBuffers slices → List ReaderCall → Option (Outcome TransportError (List (List ℕ)))
  run b [] = some (ok [])
  run b (call ∷ calls) = then_run (step b call) (λ b'. run b' calls)

  -- A reader as a stream.
  abbrev pub stream : IoBuffers slices → Stream
  stream b = record { left = left_in slices b; bytes_read = b.bytes_consumed }

  -- The code's answer is the specification's.
  data Agrees
      : Option (Outcome TransportError (IoBuffers slices × List ℕ))
        → Outcome TransportError (Stream × List ℕ)
        → Type 0 where
    fails : (e : TransportError) → Agrees (some (err e)) (err e)
    gives :
        (b : IoBuffers slices) (s : Stream) (bytes : List ℕ)
        → Fits slices b
        → stream b ≡ s
        → Agrees (some (ok (b, bytes))) (ok (s, bytes))

  step-Agrees :
      (b : IoBuffers slices) (call : ReaderCall)
      → Fits slices b
      → Agrees (step b call) (Calls.step (stream b) call)
  unfolding step
  step-Agrees b (reads n) fits =
      let (rest, at, leaves) = read-take slices b n fits in
      rw at (
        gives _ _ _ (Fits-used slices b rest n fits leaves) (
          ap
            (λ l. record {
              left = l;
              bytes_read = b.bytes_consumed + length (take n (left_in slices b));
            })
            leaves))
  step-Agrees b (reads_obj n) fits = elim (ltb_cases (length (left_in slices b)) n) [
    | inl (t, lt) ↦ rw (t, read_obj-eof slices b n fits lt) (fails unexpected_eof)
    | inr (f, le) ↦
        let (rest, at, leaves) = read_obj-take slices b n fits le in
        rw (f, at)
          (gives _ _ _ (omega (arith, fits, ap length leaves, length-drop n (left_in slices b))) (
            ap₂ (λ l k. record { left = l; bytes_read = b.bytes_consumed + k }) leaves
              (sym (length-take_le n (left_in slices b) le))))
  ]
  step-Agrees b (splits_at n) fits = elim (ltb_cases (length (left_in slices b)) n) [
    | inl (t, lt) ↦ rw (t, split_at_past slices b n lt) (fails (split_out_of_bounds n))
    | inr (f, le) ↦
        let (front, back, at, first, second) = split_at-Parts slices b n le in
        rw (f, at, second)
          (gives _ _ _
            (omega (arith, fits, ap length first, length-take_bound n (left_in slices b)))
            (ap (λ l. record { left = l; bytes_read = b.bytes_consumed }) first))
  ]

  then_run_refines :
      {o : Option (Outcome TransportError (IoBuffers slices × List ℕ))}
      {o' : Outcome TransportError (Stream × List ℕ)} (calls : List ReaderCall)
      → Agrees o o'
      → ((b : IoBuffers slices) → Fits slices b → run b calls ≡ some (Calls.run (stream b) calls))
      → then_run o (λ b. run b calls)
        ≡ some (do (s, bytes) ← o'; rest ← Calls.run s calls; ok (bytes ∷ rest))
  then_run_refines calls (fails e) refines = refl
  then_run_refines calls (gives b s bytes fits e) refines = rw (refines b fits, e) refl

  -- While the bytes that a reader holds do not overflow its count, any sequence of `read`,
  -- `read_obj` and `split_at`, on whatever buffers hold the bytes, gives the answers of one stream of
  -- these bytes, up to the first error; the fuel of `read_obj` does not run out and nothing panics.
  pub run_refines :
      (calls : List ReaderCall) (b : IoBuffers slices)
      → Fits slices b
      → run b calls ≡ some (Calls.run (stream b) calls)
  unfolding run Calls.run
  run_refines [] b fits = refl
  run_refines (call ∷ calls) b fits =
      then_run_refines calls (step-Agrees b call fits) (λ b' fits'. run_refines calls b' fits')

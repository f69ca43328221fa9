-- ===== src/Server/Bodies.antt =====
-- `get_message_body` of src/api/server/mod.rs.
use fuse_backend_rs.Prelude.{
  ℕ, ◌+◌, ◌-◌, ◌<◌, ◌≡◌, ◌⊎◌, inl, inr, refl, Option, some, List, length, take, drop, arith,
  ltb_cases,
}
use native.Mathlib.Decide.{dec_lt}
use fuse_backend_rs.Prelude.Outcome.{Outcome, ok, err}
use fuse_backend_rs.Server.{Error, decode_message, invalid_header_length, get_message_body}
use fuse_backend_rs.Transport.{IoBuffers, read_obj, unexpected_eof}
use fuse_backend_rs.Transport.Consume.{left_in, used, Fits}
use fuse_backend_rs.Transport.Exact.{read_obj-take, read_obj-eof}
use fuse_backend_rs.Transport.Stream.{content}
use fuse_backend_rs.Transport.Volatile.{VolatileSlices}

module _ (slices : VolatileSlices) where
  open slices use {Slice}

  -- The results of `get_message_body`, and when they are given.
  abbrev pub Body :
      IoBuffers slices → ℕ → ℕ → Option (Outcome Error (IoBuffers slices × List ℕ)) → Type 0
  Body r header_len sub_hdr_sz result =
      let n = header_len - 40 - sub_hdr_sz in
      ((header_len < 40 + sub_hdr_sz) × (result ≡ some (err invalid_header_length)))
      ⊎ (((length (left_in slices r) < n)
            × (result ≡ some (err (decode_message (inl unexpected_eof)))))
          ⊎ ((rest : List Slice) × (result
                ≡ some (ok (used slices r rest n, take n (left_in slices r))))
              × (content slices rest ≡ drop n (left_in slices r))))

  -- While the bytes that the reader holds do not overflow its count, the body of a request is what
  -- the header's length leaves after the header and the structure before it: it is refused where the
  -- length is too small for these, it ends the request where the reader holds less, and otherwise
  -- it is the next bytes of the reader, which is left behind them.
  pub get_message_body-Body :
      (r : IoBuffers slices) (header_len sub_hdr_sz : ℕ)
      → Fits slices r
      → Body r header_len sub_hdr_sz (get_message_body slices r header_len sub_hdr_sz)
  unfolding get_message_body read_obj
  get_message_body-Body r header_len sub fits = elim (ltb_cases header_len 40) [
    | inl (t, lt) ↦ inl (omega arith, rw t refl)
    | inr (f, le) ↦ elim (ltb_cases (header_len - 40) sub) [
      | inl (t, lt) ↦ inl (omega arith, rw (f, t) refl)
      | inr (f', le') ↦ elim (dec_lt (length (left_in slices r)) (header_len - 40 - sub)) [
        | yes short ↦
            inr (
              inl
                (short, rw (f, f', read_obj-eof slices r (header_len - 40 - sub) fits short) refl))
        | no enough ↦
            let (rest, at, leaves) =
              read_obj-take slices r (header_len - 40 - sub) fits (omega arith) in
            inr (inr (rest, rw (f, f', at) refl, leaves))
      ]
    ]
  ]

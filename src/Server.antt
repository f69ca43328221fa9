-- ===== src/Server.antt =====
-- src/api/server/mod.rs and sync_io.rs: the bodies of requests, replies, and directory listings.
pub mod Wire
pub mod Reply
pub mod ReadDir
pub mod Notify
pub mod Init
pub mod Request
pub mod Outputs
pub mod Session
pub mod Handlers
pub mod Dispatch
mod Names
mod Bodies
mod Sending
mod Replies
mod Notices
mod Versions
mod Packing
mod NoRoom
mod Kept
mod Handled
mod Decoded
mod Once
mod Listing
mod Tests
use fuse_backend_rs.Prelude.{
  ℕ, zero, suc, ◌+◌, ◌-◌, Bool, true, false, ◌||◌, ◌⊎◌, inl, inr, Option, none, some, List, [], ◌∷◌,
  ◌++◌, ◌==◌, ltb, if◌then◌else◌, length,
}
use fuse_backend_rs.Prelude.Outcome.{Outcome, ok, err, panic, ◌>>=◌}
use fuse_backend_rs.Fusedev.{IoError, raw_os_error, of_kind}
use fuse_backend_rs.Fusedev
use fuse_backend_rs.Transport.{TransportError, IoBuffers, read_exact_loop}
use fuse_backend_rs.Transport
use fuse_backend_rs.Transport.Volatile.{VolatileSlices}

-- `Error` of src/lib.rs, as far as these functions give it; an error of the reader comes as it is.
pub data Error : Type 0 where
  decode_message : TransportError ⊎ IoError → Error
  encode_message : IoError → Error
  missing_parameter invalid_cstring invalid_header_length : Error
  invalid_message failed_to_write : IoError → Error
  failed_to_split_writer : TransportError → Error
  invalid_xattr_size failed_to_remap_id : ℕ → ℕ → Error

abbrev pub einval : ℕ
einval = 22

-- `position(|x| *x == 0)`, with the bytes before and behind it.
unfoldable pub at_zero : List ℕ → Option (List ℕ × List ℕ)
at_zero [] = none
at_zero (b ∷ bs) =
    let rest = at_zero bs in
    if b == 0
    then some ([], bs)
    else (elim rest [ none ↦ none | some (before, behind) ↦ some (b ∷ before, behind) ])

-- A CStr is its bytes without the closing zero.
unfoldable pub bytes_to_cstr : List ℕ → Outcome Error (List ℕ)
unfolding at_zero
bytes_to_cstr buf = elim (at_zero buf) [
  | none ↦ err invalid_cstring
  | some (before, behind) ↦ ok before
]

unfoldable pub extract_two_cstrs : List ℕ → Outcome Error (List ℕ × List ℕ)
unfolding at_zero bytes_to_cstr
extract_two_cstrs buf = elim (at_zero buf) [
  | none ↦ err (decode_message (inr (raw_os_error einval)))
  | some (first, []) ↦ err (decode_message (inr (raw_os_error einval)))
  | some (first, b ∷ behind) ↦ do second ← bytes_to_cstr (b ∷ behind); ok (first, second)
]

-- `size_of::<InHeader>()`
abbrev pub in_header_size : ℕ
in_header_size = 40

-- `none` is for fuel that ran out.
unfoldable pub get_message_body :
    (slices : VolatileSlices)
    → IoBuffers slices
    → ℕ
    → ℕ
    → Option (Outcome Error (IoBuffers slices × List ℕ))
unfolding read_exact_loop
get_message_body slices r header_len sub_hdr_sz =
    if ltb header_len in_header_size || ltb (header_len - in_header_size) sub_hdr_sz
    then some (err invalid_header_length)
    else let len = header_len - in_header_size - sub_hdr_sz in
      elim (read_exact_loop slices (suc len) r len []) [
        | none ↦ none
        | some panic ↦ some panic
        | some (err e) ↦ some (err (decode_message (inl e)))
        | some (ok (r', buf)) ↦ some (ok (r', buf))
      ]

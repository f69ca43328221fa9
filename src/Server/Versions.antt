-- ===== src/Server/Versions.antt =====
-- The agreement on a version and on options in `init` of src/api/server/sync_io.rs.
use fuse_backend_rs.Prelude.{
  ℕ, ◌<◌, ◌≡◌, ◌⊎◌, Option, some, List, [], length, ltb, if◌then◌else◌, bit_and,
}
use fuse_backend_rs.Prelude.Outcome.{Outcome}
use fuse_backend_rs.Prelude.Words.{field}
use fuse_backend_rs.Fusedev.{Dev}
use fuse_backend_rs.Server.{Error}
use fuse_backend_rs.Server.Init.{
  init_out, known_part, version_only, enabled_out, ServerVersion, eproto,
}
use fuse_backend_rs.Server.Replies.{Sends}
use fuse_backend_rs.Server.Wire.{negative}

-- The size of the structure by the minor version.
abbrev pub size_for : ℕ → ℕ
size_for minor = if ltb minor 5 then 8 else (if ltb minor 23 then 24 else 64)

-- What a kernel is shown of the options that both sides know.
abbrev pub agreed : (ℕ → ℕ) → ℕ → ℕ → List ℕ → List ℕ
agreed want fs_options page init_in =
    let capable = bit_and (field 12 4 init_in) fs_options in
    known_part (field 4 4 init_in)
      (init_out (enabled_out page (field 8 4 init_in) (bit_and capable (want capable))))

-- What becomes of the version, and which message is sent, for the fields of the request.
abbrev pub Negotiates :
    {F : Type 0}
    → (ℕ → ℕ)
    → ℕ
    → ℕ
    → List (List ℕ)
    → ℕ
    → ServerVersion
    → F
    → List ℕ
    → Option (ServerVersion × F × (Dev × Outcome Error ℕ))
    → Type 0
Negotiates want fs_options page sent unique vers fs init_in result =
    (vers' : ServerVersion) × (answer : Dev × Outcome Error ℕ) × (result ≡ some (vers', fs, answer))
    × (((field 0 4 init_in < 7) × (vers' ≡ vers) × Sends sent (negative eproto) unique [] answer)
        ⊎ (((7 < field 0 4 init_in)
              × (vers' ≡ vers)
              × Sends sent 0 unique (init_out version_only) answer)
            ⊎ ((field 0 4 init_in ≡ 7)
                × (vers' ≡ record { major = 7; minor = field 4 4 init_in })
                × (length (agreed want fs_options page init_in) ≡ size_for (field 4 4 init_in))
                × Sends sent 0 unique (agreed want fs_options page init_in) answer)))

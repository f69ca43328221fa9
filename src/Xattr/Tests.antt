-- ===== src/Xattr/Tests.antt =====
-- Extended attributes at concrete rules and names.
use fuse_backend_rs.Prelude.{ℕ, ◌≡◌, refl, some, List, [], ◌∷◌, ◌++◌, arith}
use fuse_backend_rs.Prelude.Outcome.{ok, panic}
use fuse_backend_rs.Prelude.Text.{codes}
use fuse_backend_rs.Xattr.{
  Rule, client, all, prefix, bad, starts_with, map_client_xattr, map_server_xattrlist, pass, deny,
  or_empty,
}
use fuse_backend_rs.Xattr.Parse.{expanded, try_from}
use fuse_backend_rs.Xattr.Prefixes.{listing}
use fuse_backend_rs.Xattr.Translate.{Passes, passes, none_left, map_server_xattrlist-Passes}
use fuse_backend_rs.Xattr.Total.{Returns, try_from-Returns}
use fuse_backend_rs.Xattr.Written.{AllWritable, write, try_from-write, try_from-panics}

program : Unit {0}
unfolding try_from map_client_xattr map_server_xattrlist expanded starts_with
program = tt

abbrev trusted : List ℕ
trusted = codes "trusted."

abbrev user : List ℕ
user = codes "user.vm."

abbrev rules : List Rule
rules = expanded trusted user

runs :
    (try_from (codes " :map:trusted.:user.vm.:") ≡ some (ok rules))
    × (map_client_xattr rules (codes "trusted.a") ≡ ok (pass (codes "user.vm.trusted.a")))
    × (map_client_xattr rules (codes "user.vm.b") ≡ ok deny)
    × (map_client_xattr rules (codes "c") ≡ ok (pass (codes "c")))
unfolding program
runs = (refl, refl, refl, refl)

abbrev own : List (List ℕ)
own = codes "trusted.a" ∷ codes "c" ∷ []

abbrev hosted : List (List ℕ)
hosted = codes "user.vm.trusted.a" ∷ codes "c" ∷ []

own-Passes : Passes rules own hosted
unfolding program
own-Passes =
    passes (codes "trusted.a") (codes "user.vm.trusted.a") (codes "c" ∷ []) (codes "c" ∷ [])
      (record { byte = b't'; others = codes "rusted.a"; is = refl; no_zero = refl })
      (record { byte = b'u'; others = codes "ser.vm.trusted.a"; is = refl; no_zero = refl }) refl
      (passes (codes "c") (codes "c") [] []
        (record { byte = b'c'; others = []; is = refl; no_zero = refl })
        (record { byte = b'c'; others = []; is = refl; no_zero = refl }) refl none_left)

map_server_xattrlist-Passes_example :
    map_server_xattrlist rules (listing hosted) ≡ ok (or_empty (listing own))
map_server_xattrlist-Passes_example =
    map_server_xattrlist-Passes trusted user refl own hosted own-Passes

abbrev hide : Rule
hide = record { scope = all; type_ = bad; key = []; prepend = trusted }

abbrev rules_of_client : List Rule
rules_of_client = record { scope = client; type_ = prefix; key = trusted; prepend = user } ∷ []

rest_writable : AllWritable 58 rules_of_client
rest_writable = (record { no_map = refl; key_plain = omega arith; prepend_plain = omega arith }, tt)

try_from-write_example :
    try_from (write 58 (hide ∷ rules_of_client)) ≡ some (ok (hide ∷ rules_of_client))
try_from-write_example =
    try_from-write 58 (omega arith) refl hide rules_of_client
      (record { no_map = refl; key_plain = tt; prepend_plain = omega arith }, rest_writable)

try_from-Returns_example : Returns (try_from (codes ":bad:all:::"))
try_from-Returns_example = try_from-Returns (codes ":bad:all:::")

abbrev wide_rule : Rule
wide_rule = record { scope = all; type_ = prefix; key = b'a' ∷ 256 ∷ 0x20AC ∷ []; prepend = user }

try_from-panics_example : try_from (write 58 (rules_of_client ++ wide_rule ∷ [])) ≡ some panic
try_from-panics_example =
    try_from-panics 58 (omega arith) refl rules_of_client [] wide_rule rest_writable refl
      (omega arith) refl

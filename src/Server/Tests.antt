-- ===== src/Server/Tests.antt =====
-- Replies, listings and requests' bodies at concrete bytes.
use fuse_backend_rs.Prelude.{
  ℕ, suc, ◌≡◌, ◌⊎◌, inl, inr, refl, true, false, none, List, [], ◌∷◌, ◌++◌, length, replicate,
  arith,
}
use fuse_backend_rs.Prelude.Outcome.{ok}
use fuse_backend_rs.Prelude.Text.{codes}
use fuse_backend_rs.Fusedev.{raw_os_error}
use fuse_backend_rs.Server.{get_message_body}
use fuse_backend_rs.Server.Decoded.Requests.{mkdir_in}
use fuse_backend_rs.Server.Decoded.Message.{
  CallMade, header_bytes, mkdir_of, handle_message-CallMade,
}
use fuse_backend_rs.Server.Dispatch.{Served, handle_message}
use fuse_backend_rs.Server.Handled.Message.{ServedOnce, handle_message-ServedOnce}
use fuse_backend_rs.Server.Request.{FileSystem, mkdir}
use fuse_backend_rs.Server.Session.{InHeader, in_header_from}
use fuse_backend_rs.Server.Bodies.{Body, get_message_body-Body}
use fuse_backend_rs.Server.Init.{init, ServerVersion}
use fuse_backend_rs.Prelude.{take, drop}
use fuse_backend_rs.Prelude.Words.{to_bytes}
use fuse_backend_rs.Transport.{IoBuffers}
use fuse_backend_rs.Transport.Consume.{left_in}
use fuse_backend_rs.Server.Listing.{accepted, Reads, parse-do_readdir}
use fuse_backend_rs.Server.Notices.{SaysNoLength, notify_resend-SaysNoLength}
use fuse_backend_rs.Server.Notify.{notify_resend}
use fuse_backend_rs.Server.Packing.{packed, encoded}
use fuse_backend_rs.Server.ReadDir.{DirEntry, Driver, finish, offers, ReadIn, do_readdir}
use fuse_backend_rs.Server.Replies.{Sends, reply_ok-Sends, do_reply_error-Sends}
use fuse_backend_rs.Server.Reply.{reply_ok, do_reply_error}
use fuse_backend_rs.Server.Sending.{Gives, fresh, listing_reply, do_readdir-Gives}
use fuse_backend_rs.Server.Wire.{dirent, negative}
use fuse_backend_rs.Transport.Stream.{content}
use fuse_backend_rs.Transport.Tests.{lists, three_buffers}

abbrev accepting : List (List ℕ) → List ℕ → ℕ ⊎ ℕ
accepting sent bytes = inr (length bytes)

abbrev room : List ℕ
room = replicate 96 0

abbrev entry : DirEntry
entry = record { ino = 7; offset = 1; type_ = 4; name = codes "sub" }

-- A file system that offers one entry until it is accepted twice, or fails.
abbrev two_entries : Driver
two_entries = offers entry none (λ first. offers entry none (λ second. finish (ok tt)))

abbrev listing : ReadIn → Driver
listing request = two_entries

abbrev request : ReadIn
request = record { fh = 0; offset = 0; size = 40 }

reply_ok-Sends_example : Sends [] 0 5 (codes "out" ++ codes "data") (
    reply_ok accepting 5
      (codes "out")
      (codes "data")
      (record { sent = []; writer = fresh false room }))
reply_ok-Sends_example =
    reply_ok-Sends accepting (λ sent bytes. refl) [] room 5 (codes "out") (codes "data")
      (omega arith) (omega arith) (omega arith)

do_reply_error-Sends_example :
    Sends []
      (negative 2)
      5
      []
      (do_reply_error accepting 5 (raw_os_error 2) (record { sent = []; writer = fresh true room }))
do_reply_error-Sends_example =
    do_reply_error-Sends accepting (λ sent bytes. refl) [] true room 5 (raw_os_error 2)
      (omega arith) (omega arith)

-- The second entry finds no room, and the listing ends.
ends_well : (packed 40 two_entries []).1 ≡ ok tt
unfolding packed encoded dirent to_bytes
ends_well = refl

do_readdir-Gives_example :
    Gives []
      (listing_reply 5 (packed 40 two_entries []))
      (do_readdir accepting 5 listing request (record { sent = []; writer = fresh false room }))
do_readdir-Gives_example =
    do_readdir-Gives accepting (λ sent bytes. refl) [] false room 5 listing request (omega arith)
      (omega arith)

parse-do_readdir_example :
    Reads []
      ((do_readdir accepting 5 listing request (record { sent = []; writer = fresh false room })).0)
      (accepted 40 two_entries 0)
parse-do_readdir_example =
    parse-do_readdir accepting (λ sent bytes. refl) [] false room 5 listing request (omega arith)
      (omega arith)
      (
        (omega arith, omega arith, omega arith),
        (λ first. ((omega arith, omega arith, omega arith), (λ second. tt))),
      )
      ends_well

notify_resend-SaysNoLength_example :
    SaysNoLength [] (notify_resend accepting (record { sent = []; writer = fresh false room }))
notify_resend-SaysNoLength_example =
    notify_resend-SaysNoLength accepting (λ sent bytes. refl) [] false room (omega arith)

get_message_body-Body_example :
    Body lists three_buffers 46 2 (get_message_body lists three_buffers 46 2)
unfolding content
get_message_body-Body_example = get_message_body-Body lists three_buffers 46 2 (omega arith)

-- A request of version 7.36 with some options, in two buffers.
abbrev init_in : List ℕ
init_in = 7 ∷ 0 ∷ 0 ∷ 0 ∷ 36 ∷ 0 ∷ 0 ∷ 0 ∷ 0 ∷ 16 ∷ 0 ∷ 0 ∷ 0x21 ∷ 0 ∷ 0 ∷ 0 ∷ []

abbrev init_reader : IoBuffers lists
init_reader = record {
  buffers = take 6 init_in ∷ drop 6 init_in ∷ [];
  bytes_consumed = 40;
  dirty = [];
}

abbrev old_version : ServerVersion
old_version = record { major = 7; minor = 33 }

-- A file system that counts its calls and refuses each.
abbrev counting : FileSystem
counting = record {
  State = ℕ;
  serve = λ context q calls. (suc calls, inl (raw_os_error 38));
  init = λ opts calls. (calls, ok opts);
  id_remap = λ calls context. inr context;
}

-- A getattr request with number 9 for inode 1, in two buffers.
abbrev getattr_message : List ℕ
getattr_message =
    56 ∷ 0 ∷ 0 ∷ 0 ∷ 3 ∷ 0 ∷ 0 ∷ 0 ∷ 9 ∷ replicate 7 0 ++ 1 ∷ replicate 23 0 ++ replicate 16 0

abbrev getattr_reader : IoBuffers lists
getattr_reader = record {
  buffers = take 30 getattr_message ∷ drop 30 getattr_message ∷ [];
  bytes_consumed = 0;
  dirty = [];
}

abbrev at_rest : Served counting
at_rest = record {
  vers = old_version;
  dev = record { sent = []; writer = fresh false room };
  fs = 0;
}

handle_message-ServedOnce_example :
    ServedOnce counting [] 0
      (in_header_from (take 40 (left_in lists getattr_reader)))
      (handle_message 0xff 4096 lists counting accepting at_rest getattr_reader)
unfolding content
handle_message-ServedOnce_example =
    handle_message-ServedOnce 0xff 4096 lists counting accepting (λ sent bytes. refl) old_version []
      room 0 (omega arith) (omega arith) getattr_reader (omega arith) (omega arith)

-- A mkdir request with number 7 for "sub" in inode 1, cut within its header.
abbrev mkdir_header : InHeader
mkdir_header = record {
  len = 52;
  opcode = 9;
  unique = 7;
  nodeid = 1;
  uid = 1000;
  gid = 1000;
  pid = 42;
}

abbrev mkdir_body : List ℕ
mkdir_body = mkdir_in 0x1ed 0x12 ++ (codes "sub" ++ 0 ∷ [])

abbrev mkdir_reader : IoBuffers lists
mkdir_reader = record {
  buffers =
      take 11 (header_bytes mkdir_header ++ mkdir_body)
      ∷ drop 11 (header_bytes mkdir_header ++ mkdir_body)
      ∷ [];
  bytes_consumed = 0;
  dirty = [];
}

handle_message-CallMade_example :
    CallMade counting [] mkdir_header 1
      (handle_message 0xff 4096 lists counting accepting at_rest mkdir_reader)
unfolding content to_bytes
handle_message-CallMade_example =
    handle_message-CallMade 0xff 4096 lists counting accepting (λ sent bytes. refl) old_version []
      room 0 mkdir_reader mkdir_header (record { uid = 1000; gid = 1000; pid = 42 })
      (mkdir 1 (codes "sub") 0x1ed 0x12) mkdir_body (omega arith) (omega arith)
      (record {
        len = omega arith;
        opcode = omega arith;
        unique = omega arith;
        nodeid = omega arith;
        uid = omega arith;
        gid = omega arith;
        pid = omega arith;
      })
      (mkdir_of (codes "sub") 0x1ed 0x12 ((λ p. cc p), ((λ p. cc p), ((λ p. cc p), tt)))
        (omega arith) (omega arith))
      refl (omega arith) refl (omega arith) refl

-- ===== src/Lib.antt =====
-- The virtual file system of fuse-backend-rs: a tree of pseudo directories in which backend file
-- systems are mounted, and the passing on of requests to them; with it, the server that serves the
-- kernel's requests from a file system, the reader of requests, the writer of replies to the FUSE
-- device, the inodes of the passthrough file system with its map of extended-attribute names, the
-- inode store and the merge of layers of the overlay file system, and the channel of messages.
--
-- The program takes requests of the FUSE protocol and serves them from file systems. `Vfs`
-- (src/api/vfs/) joins several backends into one file system: a pseudo file system (src/api/pseudo_fs.rs)
-- holds the directories that lead to the mount points, a table of super blocks holds up to 255
-- backends by their index, and an inode number of 64 bits carries the index in its high 8 bits and
-- the backend's own number in the low 56. A request on an inode number goes to the pseudo file
-- system (index 0) or to the backend, and the numbers in the answer are converted for the outside.
--
-- Files, and the code that they model:
--   Prelude, Prelude/*   shared notation, lists, maps, results and bit fields.
--   Fs                   Entry and DirEntry of src/api/filesystem/mod.rs, the attributes of
--                        src/abi/fuse_abi_linux.rs, and the errno values in use.
--   Pseudo               PseudoInode and PseudoFs of src/api/pseudo_fs.rs: new, mount, path_walk,
--                        get_parent_inode, evict_inode and their helpers.
--   Pseudo/Path          the components of a path as std::path gives them on Unix.
--   Pseudo/Serve         lookup, getattr, readdir and readdirplus of PseudoFs.
--   Pseudo/Invariant, New, Create, Steps, Walk, Mount, Evict, Listing
--                        the well-formed table, and what the operations keep and do.
--   Vfs/Inode            VfsInode and convert_inode of src/api/vfs/mod.rs.
--   Vfs/Ids              convert_entry and remap_attr_id.
--   Vfs/Alloc            allocate_fs_idx.
--   Vfs/State            Vfs with new, insert_mount_locked, mount and umount.
--   Vfs/Negotiate        init and destroy of src/api/vfs/sync_io.rs.
--   Vfs/Dispatch         the routing of inode numbers (get_rootfs, get_fs_by_idx, get_real_rootfs,
--                        lookup_pseudo, path validation), and lookup, getattr, setattr, mkdir,
--                        unlink, rename and link of src/api/vfs/sync_io.rs.
--   Vfs/Ops, Requests, Attributes, ReadDir
--                        the other requests of src/api/vfs/sync_io.rs.
--   Vfs/Consistent, Commit, Insert, Mount, Unmount, Started, Reach
--                        the tables' invariant, and what the calls that change them keep and do.
--   Vfs/Routing, Forward, Numbers, Unmounted, RootOwner
--                        where requests go, and what their answers show.
--   Overlay, Overlay/PathMap, Fresh, Remove, Reuse
--                        InodeStore of src/overlayfs/inode_store.rs, with its Trie of paths.
--   Overlay/Layers       Layer of src/api/filesystem/overlay.rs, and RealInode of
--                        src/overlayfs/mod.rs with its lookups and listings.
--   Overlay/Merge        new_from_real_inodes and scan_childrens of OverlayInode, which put the
--                        layers of a directory together.
--   Overlay/NameMap, Union, Answered, Listed, Trimmed, Joined, Gathered, Merged
--                        hash tables by name, the overlay of trees, and that the code makes it.
--   Passthrough, Passthrough/Store, Keeps
--                        InodeStore of src/passthrough/inode_store.rs.
--   Passthrough/Unique, Distinct
--                        UniqueInodeGenerator of src/passthrough/util.rs.
--   Passthrough/Inodes, Calls
--                        the inodes of PassthroughFs of src/passthrough/mod.rs: import, the part of
--                        do_lookup that finds or makes an inode, forget_one and batch_forget.
--   Passthrough/Counts, Lookup, Forget, Imported, Ledger
--                        what these do to the counts of lookups.
--   Passthrough/Replaced lookups with the host's inode numbers.
--   Xattr, Xattr/*       the rules of src/passthrough/xattrmap.rs, their parser, and the translation
--                        of names in both directions.
--   Transport            IoBuffers and Reader of src/transport/mod.rs.
--   Transport/Volatile   the slices of memory that they stand on, which another crate provides.
--   Transport/Stream, Lengths, Consume, Exact, Calls, Refine
--                        the bytes in the buffers, what each operation does to them, and the stream
--                        that a reader is for its callers.
--   Fusedev              FuseDevWriter of src/transport/fusedev/mod.rs.
--   Fusedev/Messages     what the writer keeps.
--   Server               get_message_body and extract_two_cstrs of src/api/server/mod.rs.
--   Server/Wire          the structures of replies, from src/abi/fuse_abi_linux.rs.
--   Server/Reply, ReadDir, Notify, Init
--                        reply_ok, do_reply_error, do_readdir, add_dirent, the notices and
--                        init of src/api/server/sync_io.rs.
--   Server/Names, Bodies, Sending, Replies, Notices, Versions, Packing, Listing
--                        what requests' bodies give and which messages are sent.
--   Server/Request, Outputs
--                        the calls of the FileSystem trait of src/api/filesystem/sync_io.rs as
--                        data, with their answers, and the structures that answers are written as.
--   Server/Session       what a handler is given and keeps: SrvContext, the message's reader, and
--                        the replies.
--   Server/Handlers/*    the handlers of src/api/server/sync_io.rs.
--   Server/Dispatch      handle_message.
--   Server/Once, Kept, NoRoom, Handled/*
--                        the handlers call the file system once at most, and reply once at most.
--   Server/Decoded, Decoded/*
--                        requests as the kernel writes them, and the calls that they come to.
--   Channel, Channel/*   the channel of src/common/mpmc.rs.
--   */Tests              runs at concrete backends and paths.
--
-- The model. An operation is a function from the state to the state and a result; a result is a
-- value, an errno, or a panic where the source unwraps or asserts. The source makes its changes to
-- the tables under a mutex and publishes them whole, so each call is one step here, but for the
-- channel, and readers beside a writer are not modelled. The inodes of the pseudo file system are
-- shared objects in the source; here the table holds each of them, and a child's entry is its
-- number and name. Backends are elements of a type `B`; what they answer is given by the records
-- Backends, BackendOps, FileOps and DirOps, on which the theorems put no more than their hypotheses
-- name, and the calls that change one (init, destroy, forget) are listed in the order made. Numbers
-- of 64, 32 and 8 bits wrap as the source's do in a release build; timeouts are whole seconds, and
-- names lists of bytes.
--
-- A device takes a write with an answer that is a parameter, and the messages that it took are
-- listed; a file system's answer to readdir is a tree of offers, each followed by what it does on
-- either answer. The server's file system is a state with a function that serves one request, which
-- changes the state and does not panic; the default methods of the trait are not modelled.
-- Structures lie in memory with the lowest byte first. In the passthrough file system the host's
-- answers on a name (its identity, file handle, descriptor and mode) are arguments of a lookup, and
-- its theorems on counts are for file systems that do not use the host's inode numbers. A layer of
-- the overlay file system is a record of its answers, which do not change while a directory is
-- read, and the calls of readdir on an open directory are a tree that comes to an end; that inodes
-- of layers are forgotten when they are dropped is left out. In the channel a look at the flag
-- `closed` and an operation on the queue are steps of their own, and those of senders and receivers
-- follow one another in any order; a receive is one round of its loop. A context that the Vfs
-- passes on unchanged is left out of its requests.
--
-- Bounds. The pseudo file system never reuses an inode number, so the theorems on mount ask that
-- the numbers last for the components of the path. The search for an index is on fuel of 257
-- rounds: it looks at each of the 256 indices at most once and at the first one again, and the fuel
-- is proved to be enough. The overlay's search for an inode number runs the source's own number of
-- rounds, 2^56 - 1, which is proved to be enough as well. The parser of attribute rules has fuel of
-- one round more than its text is long, and read_obj of one more than it is to read; both are proved
-- to be enough. write_all has one round more than there are bytes; on a writer that keeps its bytes
-- or takes them whole, the theorems on replies show that this is enough.
--
-- Not modelled: the saving and restoring of states, the asynchronous requests, the requests of
-- the overlay file system with the loading of directories and copy-up, the requests of the
-- passthrough file system over system calls, the mappings of virtio-fs and its writer, the hooks
-- that only look on at a request, the sessions of the transports, and the wrappers of system
-- calls.
mod Prelude
pub mod Fs
pub mod Channel
pub mod Fusedev
pub mod Pseudo
pub mod Vfs
pub mod Overlay
pub mod Passthrough
pub mod Xattr
pub mod Server
pub mod Transport

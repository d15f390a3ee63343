-- ===== src/Lib.antt =====
-- Verification library of homura: the 9p passthrough server, the guest's caches, mmap client and
-- client of the file server, the life and the slots of VMs, and the daemon.
--
-- homura runs coding agents in a VM and shares host files with it. The host side is the program
-- 9passthrough: a registry of exposed paths (Registry), a queue of requests from the guest for
-- further paths (Requests), both driven over a control socket, and a 9p file system that shows the
-- guest what the registry exposes.
--
-- Prelude, Bytes, Decimal, Paths: shared types and lemmas, Go maps as association lists
--   (Prelude/Dict), Go strings as lists of bytes (Bytes), `%d` (Decimal) and what is used of the
--   packages path and strings (Paths).
-- Registry: 9passthrough/pathregistry.go. `PathRegistry` has the trie `root` and the maps `exposed`
--   and `read_only`; `add_path`, `remove_path`, `check_path`, `list_paths`, `is_read_only` and
--   `get_exposed_children` are the methods. Registry/Trie has `PathNode` and the loops over the trie,
--   its children the effect of an update on the marked paths (Exposure), the trie's invariant
--   (WellFormed, Removal) and the walk of CheckPath (Walk). os.Stat is the argument `stat`.
-- Requests: 9passthrough/requests.go. `RequestQueue` with `create`, `approve`, `deny`, `wait`,
--   `list_requests` and `close_all`; a channel of capacity 1 is `ResultChan`. Requests/Valid has
--   the invariant, Requests/Lifecycle what holds over any sequence of calls.
-- Json, Control: 9passthrough/control.go. Control has the messages, authenticateRequest and the
--   handlers that answer at once; Control/Run has the other handlers, `handle_request`, and the
--   server as a machine: a request on the Unix or the TCP socket, or a blocked handler of the method
--   "request" that wakes up, is one step on the registry, the queue and the blocked handlers. Json
--   is the value that encoding/json gives for a request's parameters. Control/Safety is about the
--   requests of the guest, Control/Approval about a blocked handler that goes on.
-- VirtualFs: 9passthrough/virtualfs.go. The host's file system is the record `Os` of answers, each
--   to a call after a log of calls; an operation of VirtualFile is a function to a result and a log.
--   VirtualFs/Lookup has Walk and GetAttr, Mutate the operations that change files, Handles Open and
--   the opened files, Directory Readdir, StatFS and the reading of extended attributes. Guarded,
--   Walks, Pages and Xattrs have the proofs.
-- MmapRegistry: 9passthrough/mmapregistry.go, `register`, `unregister`, `region_at` (Get),
--   `write_to_mmap`, `read_from_mmap` and `list_regions`; Outcome is the result of code that can
--   panic, and MmapRegistry/Bounds is about the ranges of reads and writes.
-- Buffers, Wire: 9passthrough/protocol.go. Wire has ReadMessage and WriteMessage over a stream that is a
--   list of bytes, Wire/Codec the messages with their encoders and decoders, Wire/Words the
--   little-endian words of encoding/binary, and Buffers Go's slices, copies and stores of words, which
--   panic out of range. Wire/RoundTrip, with Fields and Content, and Wire/Panics are about the codecs.
-- Guest: guest/9pfuse. Guest/Mmap is mmap.go, the manager of mapped files as the client of the mmap
--   protocol: `register_mmap`, `bulk_read`, `write`, `unregister_mmap` and `info_of` over a connection
--   `Conn`. Its encoders and decoders are those of Wire/Codec, since guest/9pfuse/protocol.go has the
--   same text. Guest/AttrCache is attrcache.go, with the time of each call as an argument.
--   Guest/Client is client.go, P9Client over the library p9: `Remote` answers each call as any function
--   of the calls so far, a handle is a number, and `Client` has the table of files, the cache and the
--   handles that are open. Client/Names has parsePath and flagsToP9Create, Client/Ops the methods,
--   Client/Listing Readdir with prefetchAttrs. Owned, Held and Handles are about the handles, Listed
--   about Readdir against the pages of VirtualFs, and Parsed about parsePath. Guest/Fuse is fuse.go, the nodes and file
--   handles of the FUSE server over P9Client: a node is its path, and what the library go-fuse is told
--   is the result. Fuse/Nodes has the methods. Fuse/Changes and Fuse/Setattr are about what Setattr changes, Fuse/Released about
--   Open, Create and Release.
-- Vm: internal/vm/vm.go, virtiofsd.go, passt.go and qemu.go. `Host` has what the host answers to the
--   calls of one start, and `World` what the VM holds there: its directory, its slot, its processes and
--   the token file. A step returns the state also where it fails. Vm/Dirs has the state directory and
--   the SSH key, Vm/Share the managers of virtiofsd and 9passthrough, Vm/Passt that of passt, Vm/Qemu the
--   arguments of QEMU, and Vm/Lifecycle NewVM, Start, Shutdown and Cleanup. Vm/Left is about what each of them leaves.
-- VmSlots: internal/vm/globalstate.go. The SQL database is the interface `SlotDb` of VmSlots/Db, with
--   its laws `IsLawful`, and a world is a database with the directories removed so far. VmSlots has
--   CleanupStaleSlots, AllocateVMSlot, PeekNextSlotNumber, ReleaseVMSlot and the updates,
--   VmSlots/Lookup the queries. Cleanup and Stale are about transactions and the removal of dead VMs,
--   Allocate about the choice of a slot, Rows and Ports about addresses and ports. VmSlots/Memory is
--   a database that keeps the laws.
-- VmConfig: internal/vm/vmconfig.go, the paths that a configuration allows (`parse_path_spec`,
--   `dedupe_allow_paths`) and how they are written as arguments (`format_path_arg`) that
--   9passthrough/main.go reads (`parse_path_arg`).
-- Git: internal/git/git.go, where copies of branches stand, the root of a repository
--   (`get_repo_root`, by what git prints), the parsing of `git worktree list` and AddToGitExclude
--   (`add_to_git_exclude`, on the text of the file).
-- Commands: internal/commands/vm_run.go with resolveVMWorkDir of vm.go and LoadState of
--   internal/config/state.go. Commands/Run has splitRunArgs, shellQuote and buildRemoteCmd;
--   Commands/Target the directory of a command (`resolve_vm_work_dir`) and the VM that it runs in
--   (`resolve_vm_run_slot`, `vm_run`), where `Site` is what the host answers and `Vms` the interface
--   to VmSlots and to Daemon. Commands/Quoted is about the shell, which is any function with the
--   laws `IsPosix`, Commands/Places and Commands/Where about the place in which the command runs,
--   and Commands/Table fills `Vms` with the queries of VmSlots/Lookup.
-- ShareRequest: 9pvm-request/main.go, the command of the guest that asks for a path: `main` up to
--   the request, readKernelParams, and what the answers of the two servers come to. Words, Written
--   and Handed are about the kernel command line of Vm/Qemu that it reads.
-- Daemon: internal/daemon/server.go. Daemon/Events is the eventWriter, Daemon/Idle the idle timer with
--   the critical sections that arm and stop it, as a step relation. Daemon/Start has handleStartVM,
--   handleListVMs and supervise over Vm, with ParseShareMode of internal/vm/vmconfig.go, and Daemon/Stop
--   handleStopVM and handleShutdown; Daemon/Supervised is about the start.
--
-- Not modelled: the entry points, the tree of inodes of the library go-fuse, the goroutine that watches
-- mapped files, the build of images and the snapshots under internal/vm, CopyRepository, the other
-- commands and the test programs: they call other programs and libraries for the most part.
-- What is not in the repository is an argument: os.Stat for the registry, the host behind `Os`, the
-- constants of the package p9, the database `SlotDb`, which processes are alive, the library p9 and the
-- server behind it (`Remote`), and the programs that a VM runs (`Host`).
--
-- Locks are left out where every method of a type runs under one. Byte values are natural numbers.
-- Decimal.digits_from runs on fuel one above the number, which is enough since each round divides by
-- ten, and the loop of the event writer on one above the bytes held, since each round takes one at
-- least. The client's Readdir runs on fuel for its pages; one more than the files is enough.
-- The request sequence number is unbounded here, and so are times and sizes. The time of day is
-- an argument.
pub mod Prelude
pub mod Bytes
pub mod Buffers
pub mod Paths
pub mod Registry
pub mod MmapRegistry
pub mod Outcome
pub mod VmSlots
pub mod Vm
pub mod Git
pub mod VmConfig
pub mod Wire
pub mod Decimal
pub mod Requests
pub mod Guest
pub mod Json
pub mod ShareRequest
pub mod Commands
pub mod Control
pub mod Daemon
pub mod VirtualFs

-- ===== src/Lib.antt =====
-- LazyFS is a FUSE file system with a page cache of its own: what is written stays in the cache
-- until it is synchronised, and a command or a configured fault makes the cache forget it. This
-- library models the cache (libs/libpcache), the file system (lazyfs/src/lazyfs.cpp), and the start and
-- the worker for faults (lazyfs/src/main.cpp).
--
-- The parts and their files:
-- - Config.antt: the settings (libs/libpcache/src/config/config.cpp). Config/Load.antt reads them from a
--   parsed configuration file (`load_config`).
-- - Page.antt and Page/: a page of the cache, cut into blocks (src/engine/page/page.cpp), and the
--   offsets of its blocks (block_offsets.cpp, Page/Offsets.antt). Page/SyncData.antt writes a page
--   out. The children prove the invariant of a page (Slots, Places) and that a page is a map from
--   block ids to bytes (Blocks, Removal, Reads).
-- - Item.antt and Item/: what is known of one file, its metadata and where its blocks are
--   (src/item/*.cpp).
-- - Engine.antt and Engine/: the page cache engine (src/engine/backends/custom/custom_cache.cpp):
--   Lru the order of the pages' uses, Allocate putting and getting blocks, Release the removal,
--   the truncation and the renaming, SyncPages the writing of dirty blocks.
-- - Cache.antt and Cache/: the cache over all files (src/cache.cpp): Blocks putting and getting the
--   blocks of a file, Files the operations on whole files.
-- - Faults.antt: the faults that can be configured and their checks (src/faults.cpp).
--   Faults/Registry.antt the faults of each path, Faults/Load.antt the injections of a configuration
--   file (`load_config` of src/config/config.cpp).
-- - Inject/: what the file system does with the faults (lazyfs/src/lazyfs.cpp).
-- - Fs.antt and Fs/: the file system (lazyfs/src/lazyfs.cpp). Fs.antt is its state and the outcomes of
--   an operation: it ends, kills the process, or fails. Crash are the crash faults, SplitWrite the
--   torn-op and PersistWrite the torn-seq faults, Hooks the triggers with which operations begin and end.
--   Attributes is lfs_getattr, Writes and its child Operation lfs_write, Reads lfs_read, Sync lfs_fsync and
--   lfs_truncate, Opens lfs_open and lfs_create, Paths lfs_unlink, lfs_link, lfs_symlink and
--   lfs_access, Renames lfs_rename, Directories the walks through directories and lfs_readdir, Calls the
--   operations that only pass a call on, Commands the commands that add torn faults, Report the report
--   of unsynced data, and Frame and its children the rules by which operations keep the settings.
-- - Worker.antt and Worker/: the thread that takes commands from a FIFO (`fht_worker` of
--   lazyfs/src/main.cpp). Text takes a command apart, CrashCommand and TornCommands read attributes. A
--   command then calls what the files under Fs/ model.
-- - Main.antt: the command line, the FIFOs and the start (`main` of lazyfs/src/main.cpp).
-- - System.antt: the operations that FUSE calls (lazyfs/include/lazyfs/lazyfs.hpp) and the
--   commands of the worker, as steps in any order, and the states that these reach.
-- - Os.antt: the system calls and std::regex, a parameter of the model: any state and any functions on it.
-- - Base.antt and Base/: the helpers that the other files share. Tests/: runs at fixed inputs.
--
-- How the state corresponds. A method takes the object and returns the new one. A page or item
-- pointer is the page's number in `search_index` or the item's key in `contents`, so that a change
-- through a pointer is a change of the map. `int` values that are -1 for "none" are options. A
-- `std::map` or `std::unordered_map` is an association list, where `insert` keeps an entry and
-- `put` is `m[k] = v`; the code relies on no order of an unordered map. A vector's back is a
-- list's head. Code that throws (`at`), asserts, reads a null pointer or leaves an allocation
-- returns a fault. Unsigned differences are written modulo 2 ^ 64; an `int` that a `size_t` goes through,
-- and a `double`, are in Base/Words.antt. A list iterator is the identity of its node.
--
-- Bounds. The loops over slots have the page size as fuel, which is enough since each round adds
-- at least one byte for a sound configuration: the validity of a new page rests on it. The
-- blocks of a write or a read are counted before the loop over them. The walk through directories has a
-- depth, which is enough where it exceeds the height of the directory. The loop of the worker has a
-- number of rounds, since it ends only with the FIFO. All other loops are over lists. Counters do
-- not wrap.
--
-- The lock of commands is shared by the operations: `held` says that the thread has it. A thread that
-- takes it shared twice is taken to get it; one that takes it exclusively then waits for ever, which
-- is the fault `deadlock`. A variable that is read without a value is a parameter or a fault.
--
-- Not modelled: the other locks (each method of the cache holds `lock_cache_mtx` or the item's lock and
-- is one step), operations that overlap in time, logging and printing, and the FUSE binding.
-- Parameters: the operating system, std::regex of the users' expressions, toml11, and tolower and atof
-- of the C library.
pub mod Base
pub mod Config
pub mod Page
pub mod Item
pub mod Faults
pub mod Fs
pub mod Main
pub mod Worker
pub mod System
pub mod Inject
pub mod Os
pub mod Engine
pub mod Cache
pub mod Tests

-- ===== src/Fs.antt =====
-- lazyfs/include/lazyfs/lazyfs.hpp and lazyfs/src/lazyfs.cpp: the state of the file system, and
-- operations that end, kill the process or fail. An operation takes the state; SIGKILL leaves
-- what the operating system holds.
pub mod Crash
pub mod SplitWrite
pub mod PersistWrite
pub mod Hooks
pub mod Attributes
pub mod Writes
pub mod Sync
pub mod Paths
pub mod Opens
pub mod Commands
pub mod Report
pub mod Directories
pub mod Renames
pub mod Calls
pub mod Reads
pub mod Frame
use lazyfs.Base.{◌≡◌, refl, ℕ, String, Option, none, List, [], map, nat_eq, string_eq}
use lazyfs.Base.Run.{Run, ok, fault, Fault}
use lazyfs.Os.{Os}
use lazyfs.Config.{Config}
use lazyfs.Cache.{Cache}
use lazyfs.Faults.{allow_crash_fs_operations}
use lazyfs.Faults.Registry.{Registry}

-- A write that is put on hold.
pub record Write : Type 0 where
  pub path : String
  pub buf : List ℕ
  pub size : ℕ
  pub offset : ℕ

-- `crash_faults_before_map` and `crash_faults_after_map`: for each operation the expressions for
-- the first path and the texts for the second one.
abbrev pub CrashFaults : Os → Type 0
CrashFaults os = List (String × List (os.Regex × String))

pub record Fs (os : Os) : Type 0 where
  pub config : Config
  pub cache : Cache
  pub faults : Registry
  pub crash_faults_before_map : CrashFaults os
  pub crash_faults_after_map : CrashFaults os
  pub pending_write : Option Write
  pub injecting_fault : List String
  -- what the operating system holds
  pub world : os.State

unfoldable pub new : (os : Os) → Config → Cache → Registry → os.State → Fs os
new os config cache faults world = record {
  config = config;
  cache = cache;
  faults = faults;
  crash_faults_before_map = map (λ op. (op, [])) allow_crash_fs_operations;
  crash_faults_after_map = map (λ op. (op, [])) allow_crash_fs_operations;
  pending_write = none;
  injecting_fault = [];
  world = world;
}

pub data Outcome (os : Os) (A : Type 0) : Type 0 where
  done : A → Fs os → Outcome os A
  killed : os.State → Outcome os A
  failed : Fault → Outcome os A

abbrev pub Op : Os → Type 0 → Type 0
Op os A = Fs os → Outcome os A

abbrev pub and_then : {os : Os} {A B : Type 0} → Outcome os A → (A → Op os B) → Outcome os B
and_then (done a s) f = f a s
and_then (killed w) f = killed w
and_then (failed e) f = failed e

pub and_then_assoc :
    {os : Os} {A B C : Type 0} (o : Outcome os A) (f : A → Op os B) (g : B → Op os C)
    → and_then (and_then o f) g ≡ and_then o (λ a s. and_then (f a s) g)
and_then_assoc (done a s) f g = refl
and_then_assoc (killed w) f g = refl
and_then_assoc (failed e) f g = refl

infixl 5 ◌>>=◌
abbrev pub ◌>>=◌ : {os : Os} {A B : Type 0} → Op os A → (A → Op os B) → Op os B
(m >>= f) s = and_then (m s) f

abbrev pub give : {os : Os} {A : Type 0} → A → Op os A
give a s = done a s

abbrev pub get : {os : Os} → Op os (Fs os)
get s = done s s

abbrev pub modify : {os : Os} → (Fs os → Fs os) → Op os Unit
modify f s = done tt (f s)

abbrev pub fail : {os : Os} {A : Type 0} → Fault → Op os A
fail e s = failed e

-- A system call.
abbrev pub call : {os : Os} {A : Type 0} → (os.State → A × os.State) → Op os A
call f s = let (a, w) = f s.world in done a (record s { world = w })

-- A method of the cache, with and without system calls.
abbrev pub from_run : {os : Os} {A : Type 0} → Fs os → Run (A × Cache × os.State) → Outcome os A
from_run s (ok (a, c, w)) = done a (record s { cache = c; world = w })
from_run s (fault e) = failed e

abbrev pub with_cache :
    {os : Os} {A : Type 0} → (Config → Cache → os.State → Run (A × Cache × os.State)) → Op os A
with_cache f s = from_run s (f s.config s.cache s.world)

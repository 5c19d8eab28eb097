-- ===== src/System.antt =====
-- lazyfs/include/lazyfs/lazyfs.hpp and lazyfs/src/main.cpp: the system as a whole. FUSE calls the
-- operations and the worker carries out commands, in any order and with any arguments; each of
-- these is one step.
pub mod Running
use lazyfs.Base.{ℕ, String, Bool, false, Option, List, ◌≡◌}
use lazyfs.Os.{Os, Stat}
use lazyfs.Item.{Timespec}
use lazyfs.Faults.{ℤ}
use lazyfs.Fs.{Fs, Op, done}
use lazyfs.Fs.Attributes.{lfs_getattr}
use lazyfs.Fs.Calls.{
  lfs_mkdir, lfs_rmdir, lfs_chmod, lfs_chown, lfs_utimens, lfs_setxattr, lfs_removexattr,
  lfs_getxattr, lfs_listxattr, lfs_readlink, lfs_release, lfs_lseek,
}
use lazyfs.Fs.Directories.{lfs_readdir}
use lazyfs.Fs.Opens.{lfs_open, lfs_create}
use lazyfs.Fs.Paths.{lfs_unlink, lfs_link, lfs_symlink, lfs_access}
use lazyfs.Fs.Reads.{lfs_read}
use lazyfs.Fs.Renames.{lfs_rename}
use lazyfs.Fs.Sync.{lfs_fsync, lfs_truncate}
use lazyfs.Fs.Writes.{FileInfo, Reply}
use lazyfs.Fs.Writes.Operation.{lfs_write}
use lazyfs.Worker.{Answer, handle_command}

-- The operations, and the commands. FUSE knows all of them but `lfs_lseek`, which is not registered.
-- What an operation gets for a variable that it has not set is one of its arguments, and so is the
-- depth of the walk through directories.
pub data IsOperation (os : Os) : (A : Type 0) → Op os A → Type 1 where
  getattr : (path : String) → IsOperation os (Option Stat) (lfs_getattr os path)
  read :
      (unset : List ℕ) (fi : Option FileInfo) (path : String) (buf : List ℕ) (offset : ℕ)
      → IsOperation os (Reply × List ℕ) (lfs_read os unset fi path buf offset)
  write :
      (fi : Option FileInfo) (path : String) (buf : List ℕ) (offset : ℕ)
      → IsOperation os Reply (lfs_write os false fi path buf offset)
  fsync :
      (path : String) (isdatasync : Bool) (fh : Option ℕ)
      → IsOperation os Reply (lfs_fsync os false path isdatasync fh)
  truncate :
      (unset : Bool) (fi : Option FileInfo) (path : String) (size : ℕ)
      → IsOperation os Reply (lfs_truncate os unset false fi path size)
  open_file :
      (unset : Bool) (path : String) (fi : FileInfo)
      → IsOperation os (Reply × FileInfo) (lfs_open os unset path fi)
  create :
      (path : String) (mode : ℕ) (fi : FileInfo)
      → IsOperation os (Reply × FileInfo) (lfs_create os path mode fi)
  unlink : (path : String) → IsOperation os Reply (lfs_unlink os path)
  link : (from to : String) → IsOperation os Reply (lfs_link os from to)
  symlink : (from to : String) → IsOperation os Reply (lfs_symlink os from to)
  access : (path : String) (mask : ℕ) → IsOperation os Reply (lfs_access os path mask)
  rename :
      (depth : ℕ) (from to : String) (flags : ℕ)
      → IsOperation os (Option Reply) (lfs_rename os depth from to flags)
  readdir :
      (filler : String → ℕ → ℕ → os.State → Bool × os.State) (path : String)
      → IsOperation os Reply (lfs_readdir os filler path)
  mkdir : (path : String) (mode : ℕ) → IsOperation os Reply (lfs_mkdir os path mode)
  rmdir : (path : String) → IsOperation os Reply (lfs_rmdir os path)
  chmod : (path : String) (mode : ℕ) → IsOperation os Reply (lfs_chmod os path mode)
  chown : (path : String) (uid gid : ℕ) → IsOperation os Reply (lfs_chown os path uid gid)
  utimens :
      (path : String) (ts : Timespec × Timespec) → IsOperation os Reply (lfs_utimens os path ts)
  setxattr :
      (path name : String) (value : List ℕ) (flags : ℕ)
      → IsOperation os Reply (lfs_setxattr os path name value flags)
  removexattr : (path name : String) → IsOperation os Reply (lfs_removexattr os path name)
  getxattr :
      (path name : String) (size : ℕ)
      → IsOperation os (Reply × List ℕ) (lfs_getxattr os path name size)
  listxattr :
      (path : String) (size : ℕ) → IsOperation os (Reply × List ℕ) (lfs_listxattr os path size)
  readlink :
      (path : String) (size : ℕ) → IsOperation os (Reply × List ℕ) (lfs_readlink os path size)
  release : (fi : FileInfo) → IsOperation os Reply (lfs_release os fi)
  lseek :
      (fi : Option FileInfo) (path : String) (off : ℤ) (whence : ℕ)
      → IsOperation os Reply (lfs_lseek os fi path off whence)
  command :
      (fd : Option (Option ℕ)) (text : String) → IsOperation os Answer (handle_command os fd text)

-- The states that a state leads to by operations that end.
pub data Reachable {os : Os} (s : Fs os) : Fs os → Type 1 where
  start : Reachable s s
  step :
      {A : Type 0} {m : Op os A} {s1 : Fs os} (a : A) (s2 : Fs os)
      → Reachable s s1
      → IsOperation os A m
      → m s1 ≡ done a s2
      → Reachable s s2

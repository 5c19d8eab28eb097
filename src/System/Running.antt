-- ===== src/System/Running.antt =====
-- What holds of the system in every state that it reaches from its start.
use lazyfs.Base.{
  ◌≢◌, ℕ, String, ◌≡◌, refl, sym, ◌∙◌, Bool, true, false, Option, none, some, List, [], ◌∷◌, arith,
  elem, if◌then◌else◌, ◌==◌, nat_eq, string_eq,
}
use lazyfs.Base.Assoc.{find, contains, contains-find}
use lazyfs.Base.Run.{Run, ok, fault, out_of_range}
use lazyfs.Os.{Os}
use lazyfs.Config.Load.Sound.{IsUsable}
use lazyfs.Faults.{allow_crash_fs_operations, fs_op_multi_path}
use lazyfs.Fs.{killed, Fs, Op, done, failed}
use lazyfs.Fs.Report.{unsynced_bytes, report_injecting_ok, report_injecting_fault}
use lazyfs.Fs.Crash.{crash, crash_loop, trigger_crash_fault}
use lazyfs.Fs.Calls.{
  lfs_mkdir, lfs_rmdir, lfs_chmod, lfs_chown, lfs_utimens, lfs_setxattr, lfs_removexattr,
  lfs_getxattr, lfs_listxattr, lfs_release,
}
use lazyfs.Fs.Frame.{Same, Same-trans, same, Ends, ends, Keeps, call-Keeps}
use lazyfs.Fs.Frame.Calls.{
  lfs_getattr-Keeps, pass_on-Keeps, pass_bytes-Keeps, lfs_readlink-Keeps, lfs_lseek-Keeps,
  lfs_unlink-Keeps, lfs_link-Keeps, lfs_symlink-Keeps, lfs_access-Keeps,
}
use lazyfs.Fs.Frame.Operation.{lfs_write-Keeps}
use lazyfs.Fs.Frame.Sizes.{lfs_fsync-Keeps, lfs_truncate-Keeps, lfs_open-Keeps, lfs_create-Keeps}
use lazyfs.Fs.Frame.Directories.{lfs_readdir-Keeps, lfs_rename-Keeps}
use lazyfs.Fs.Frame.Reads.{lfs_read-Keeps}
use lazyfs.Fs.Writes.{success}
use lazyfs.Worker.Frame.{handle_command-Keeps}
use lazyfs.Main.Start.{IsReady}
use lazyfs.System.{
  IsOperation, getattr, read, write, fsync, truncate, open_file, create, unlink, link, symlink,
  access, rename, readdir, mkdir, rmdir, chmod, chown, utimens, setxattr, removexattr, getxattr,
  listxattr, readlink, release, lseek, command, Reachable, start, step,
}

contains-entries :
    {V : Type 0} (b : Bool) (op : String) (m : List (String × List V))
    → find op m ≡ (if b then some [] else none)
    → contains op m ≡ b
contains-entries true op m e = rw (contains-find op m, e) refl
contains-entries false op m e = rw (contains-find op m, e) refl

module _ {os : Os} where
  IsOperation-Keeps : {A : Type 0} {m : Op os A} → IsOperation os A m → Keeps m
  unfolding lfs_mkdir lfs_rmdir lfs_chmod lfs_chown lfs_utimens lfs_setxattr lfs_removexattr
      lfs_getxattr lfs_listxattr lfs_release
  IsOperation-Keeps (getattr path) = lfs_getattr-Keeps path
  IsOperation-Keeps (read unset fi path buf offset) = lfs_read-Keeps unset fi path buf offset
  IsOperation-Keeps (write fi path buf offset) = lfs_write-Keeps false fi path buf offset
  IsOperation-Keeps (fsync path isdatasync fh) = lfs_fsync-Keeps false path isdatasync fh
  IsOperation-Keeps (truncate unset fi path size) = lfs_truncate-Keeps unset false fi path size
  IsOperation-Keeps (open_file unset path fi) = lfs_open-Keeps unset path fi
  IsOperation-Keeps (create path mode fi) = lfs_create-Keeps path mode fi
  IsOperation-Keeps (unlink path) = lfs_unlink-Keeps path
  IsOperation-Keeps (link from to) = lfs_link-Keeps from to
  IsOperation-Keeps (symlink from to) = lfs_symlink-Keeps from to
  IsOperation-Keeps (access path mask) = lfs_access-Keeps path mask
  IsOperation-Keeps (rename depth from to flags) = lfs_rename-Keeps depth from to flags
  IsOperation-Keeps (readdir filler path) = lfs_readdir-Keeps filler path
  IsOperation-Keeps (mkdir path mode) = pass_on-Keeps (os.mkdir path mode)
  IsOperation-Keeps (rmdir path) = pass_on-Keeps (os.rmdir path)
  IsOperation-Keeps (chmod path mode) = pass_on-Keeps (os.chmod path mode)
  IsOperation-Keeps (chown path uid gid) = pass_on-Keeps (os.lchown path uid gid)
  IsOperation-Keeps (utimens path ts) = pass_on-Keeps (os.utimensat path ts)
  IsOperation-Keeps (setxattr path name value flags) =
      pass_on-Keeps (os.lsetxattr path name value flags)
  IsOperation-Keeps (removexattr path name) = pass_on-Keeps (os.lremovexattr path name)
  IsOperation-Keeps (getxattr path name size) = pass_bytes-Keeps (os.lgetxattr path name size)
  IsOperation-Keeps (listxattr path size) = pass_bytes-Keeps (os.llistxattr path size)
  IsOperation-Keeps (readlink path size) = lfs_readlink-Keeps path size
  IsOperation-Keeps (release fi) = call-Keeps (λ w. (success 0, os.close fi.fh w))
  IsOperation-Keeps (lseek fi path off whence) = lfs_lseek-Keeps fi path off whence
  IsOperation-Keeps (command fd text) = handle_command-Keeps fd text

  done-Same : {A : Type 0} {s s' : Fs os} {a : A} → Ends s (done a s') → Same s s'
  done-Same (ends a s' h) = h

  Reachable-Same : {s s' : Fs os} → Reachable s s' → Same s s'
  Reachable-Same {s} start = same s
  Reachable-Same (step {s1 = s1} a s2 r i e) =
      Same-trans (Reachable-Same r) (done-Same (rw e at (IsOperation-Keeps i s1)))

  -- In every state that a file system reaches from its start by operations that end and commands of the
  -- worker, in any order, the settings are those of the start, with which the cache can be
  -- built, and exactly the operations that may crash have entries for crash faults of either timing.
  pub Reachable-IsRunning :
      (s s' : Fs os)
      → IsReady os s
      → Reachable s s'
      → (s'.config ≡ s.config)
        × IsUsable s'.config
        × ((op : String)
            → contains op s'.crash_faults_before_map ≡ elem op allow_crash_fs_operations)
        × ((op : String)
            → contains op s'.crash_faults_after_map ≡ elem op allow_crash_fs_operations)
  Reachable-IsRunning s s' ready r =
      let kept = Reachable-Same r in
      (
        kept.config,
        rw kept.config ready.usable,
        λ op. kept.before op ∙ contains-entries _ op _ (ready.entries_before op),
        λ op. kept.after op ∙ contains-entries _ op _ (ready.entries_after op),
      )

  crash-range :
      (s : Fs os)
      → crash os s ≡ failed out_of_range
      → unsynced_bytes s.cache s.injecting_fault ≡ fault out_of_range
  unfolding crash
  crash-range s h = go (unsynced_bytes s.cache s.injecting_fault) refl
    where
      go :
          (r : Run ℕ)
          → unsynced_bytes s.cache s.injecting_fault ≡ r
          → unsynced_bytes s.cache s.injecting_fault ≡ fault out_of_range
      go (ok n) e =
          let bad : killed s.world ≡ failed out_of_range =
            rw (crash, report_injecting_ok os s n e) at h in
          cc
      go (fault f) e =
          let same : failed f ≡ failed out_of_range =
            rw (crash, report_injecting_fault os s f e) at h in
          rw e cc

  crash_loop-range :
      (is_multi_path : Bool) (from to : String) (list : List (os.Regex × String)) (s : Fs os)
      → crash_loop os is_multi_path from to list s ≡ failed out_of_range
      → unsynced_bytes s.cache s.injecting_fault ≡ fault out_of_range
  unfolding crash_loop
  crash_loop-range is_multi_path from to [] s = λ e. cc
  crash_loop-range is_multi_path from to (it ∷ rest) s =
      ground (arith, crash_loop-range is_multi_path from to rest s, crash-range s)

  look_up-range :
      (is_multi_path : Bool) (from to : String) (s : Fs os)
      (entry : Option (List (os.Regex × String)))
      → elim entry [ none ↦ false | some _ ↦ true ] ≡ true
      → elim entry [
        | none ↦ failed out_of_range
        | some list ↦ crash_loop os is_multi_path from to list s
      ]
        ≡ failed out_of_range
      → unsynced_bytes s.cache s.injecting_fault ≡ fault out_of_range
  look_up-range is_multi_path from to s none e = λ _. cc
  look_up-range is_multi_path from to s (some list) e =
      crash_loop-range is_multi_path from to list s

  -- In every reachable state the triggers of an operation that may crash find its entry: they throw
  -- `out_of_range` only if the report before a kill does.
  pub trigger_crash_fault-range :
      (s s' : Fs os) (op timing from to : String)
      → IsReady os s
      → Reachable s s'
      → elem op allow_crash_fs_operations ≡ true
      → unsynced_bytes s'.cache s'.injecting_fault ≢ fault out_of_range
      → ¬ (trigger_crash_fault os op timing from to s' ≡ failed out_of_range)
  unfolding trigger_crash_fault
  trigger_crash_fault-range s s' op timing from to ready r allowed reported thrown =
      reported
        (look_up-range (elem op fs_op_multi_path) from to s' _ (entry (timing == "before")) thrown)
    where
      entry :
          (b : Bool)
          → elim (find op (if b then s'.crash_faults_before_map else s'.crash_faults_after_map)) [
            | none ↦ false
            | some _ ↦ true
          ]
            ≡ true
      entry true = sym (contains-find op _) ∙ (Reachable-IsRunning s s' ready r).2 op ∙ allowed
      entry false = sym (contains-find op _) ∙ (Reachable-IsRunning s s' ready r).3 op ∙ allowed

-- ===== src/Fs/Frame/Calls.antt =====
-- lazyfs.cpp: what the operations leave alone that pass a call on, and those on paths and
-- directories.
use lazyfs.Base.{
  ℕ, String, Bool, true, false, ◌&&◌, ◌+◌, ◌-◌, ◌%◌, ◌^◌, ◌++◌, length, Option, some, List, [], ◌∷◌,
  ◌==◌, nat_eq, string_eq,
}
use lazyfs.Base.Run.{ok}
use lazyfs.Os.{Os}
use lazyfs.Faults.{ℤ}
use lazyfs.Cache.{get_original_inode, insert_inode_mapping}
use lazyfs.Fs.{Fs, Op, done}
use lazyfs.Fs.Writes.{FileInfo, success, error}
use lazyfs.Fs.Attributes.{lfs_getattr}
use lazyfs.Fs.Paths.{reply, remove_item, lfs_unlink, lfs_link, lfs_symlink, lfs_access}
use lazyfs.Fs.Calls.{pass_on, pass_bytes, lfs_readlink, lfs_lseek}
use lazyfs.Fs.Frame.{
  Keeps, ends, same, >>=-Keeps, if-Keeps, Option-Keeps, call-Keeps, give-Keeps, get-Keeps,
  with_cache-Keeps,
}
use lazyfs.Fs.Frame.Triggers.{trigger-Keeps, trigger_crash_fault-Keeps, trigger_configured-Keeps}

module _ {os : Os} where
  -- What ends an operation without a change of the state.
  pub stay-Keeps : {A : Type 0} (f : Fs os → A) → Keeps {os = os} (λ s. done (f s) s)
  stay-Keeps f s = ends (f s) s (same s)

  pub lfs_getattr-Keeps : (path : String) → Keeps (lfs_getattr os path)
  unfolding lfs_getattr
  lfs_getattr-Keeps path = with_cache-Keeps _

  pub failure-Keeps : Keeps {os = os} (λ s. done (error (os.errno s.world)) s)
  failure-Keeps = stay-Keeps (λ s. error (os.errno s.world))

  pub pass_on-Keeps : (f : os.State → Bool × os.State) → Keeps (pass_on os f)
  unfolding pass_on
  pass_on-Keeps f =
      >>=-Keeps (call-Keeps f) λ res. if-Keeps res (give-Keeps (success 0)) failure-Keeps

  pub pass_bytes-Keeps : (f : os.State → Option (List ℕ) × os.State) → Keeps (pass_bytes os f)
  unfolding pass_bytes
  pass_bytes-Keeps f = >>=-Keeps (call-Keeps f) λ res.
      Option-Keeps res (stay-Keeps λ s. (error (os.errno s.world), []))
        λ bytes. give-Keeps (success (length bytes), bytes)

  pub lfs_readlink-Keeps : (path : String) (size : ℕ) → Keeps (lfs_readlink os path size)
  unfolding lfs_readlink
  lfs_readlink-Keeps path size =
      >>=-Keeps (call-Keeps (os.readlink path ((size + (2 ^ 64 - 1)) % 2 ^ 64))) λ res.
        Option-Keeps res (stay-Keeps λ s. (error (os.errno s.world), []))
          λ bytes. give-Keeps (success 0, bytes ++ (0 ∷ []))

  pub lfs_lseek-Keeps :
      (fi : Option FileInfo) (path : String) (off : ℤ) (whence : ℕ)
      → Keeps (lfs_lseek os fi path off whence)
  unfolding lfs_lseek
  lfs_lseek-Keeps fi path off whence =
      >>=-Keeps (Option-Keeps fi (call-Keeps (os.open_read path)) λ i. give-Keeps i.fh) λ fd.
        Option-Keeps fd failure-Keeps λ n.
          >>=-Keeps (call-Keeps (os.lseek (some n) off whence)) λ res.
            >>=-Keeps (Option-Keeps res failure-Keeps λ position. give-Keeps (success position))
              λ r.
                >>=-Keeps
                  (Option-Keeps fi (call-Keeps (λ w. (tt, os.close (some n) w))) λ i. give-Keeps tt)
                  λ _. give-Keeps r

  reply-Keeps : (res : Bool) (end : Op os Unit) → Keeps end → Keeps (reply os res end)
  unfolding reply
  reply-Keeps res end k = if-Keeps res (>>=-Keeps k λ _. give-Keeps (success 0)) failure-Keeps

  remove_item-Keeps : (inode path : String) → Keeps (remove_item os inode path)
  unfolding remove_item
  remove_item-Keeps inode path = with_cache-Keeps _

  pub lfs_unlink-Keeps : (path : String) → Keeps (lfs_unlink os path)
  unfolding lfs_unlink
  lfs_unlink-Keeps path = >>=-Keeps (trigger-Keeps false "unlink" "before" path "") λ _.
      >>=-Keeps get-Keeps λ s.
        >>=-Keeps
          (if-Keeps (get_original_inode s.cache path == "") (give-Keeps tt)
            (remove_item-Keeps _ path))
          λ _. >>=-Keeps (call-Keeps (os.unlink path)) λ res.
            >>=-Keeps
              (if-Keeps (res && get_original_inode s.cache path == "")
                (remove_item-Keeps (get_original_inode s.cache path) path) (give-Keeps tt))
              λ _. reply-Keeps res _ (
                >>=-Keeps (trigger_crash_fault-Keeps "unlink" "after" path "")
                  λ _. trigger_configured-Keeps true "unlink" "before" path "")

  pub lfs_link-Keeps : (from to : String) → Keeps (lfs_link os from to)
  unfolding lfs_link
  lfs_link-Keeps from to = >>=-Keeps (trigger-Keeps false "link" "before" from to) λ _.
      >>=-Keeps (call-Keeps (os.link from to)) λ res. reply-Keeps res _ (
        >>=-Keeps get-Keeps λ s.
          >>=-Keeps
            (if-Keeps (get_original_inode s.cache from == "") (give-Keeps tt) (
              with_cache-Keeps λ c cache w.
                ok (tt, insert_inode_mapping cache to (get_original_inode s.cache from) true, w)))
            λ _. trigger-Keeps true "link" "after" from to)

  pub lfs_symlink-Keeps : (from to : String) → Keeps (lfs_symlink os from to)
  unfolding lfs_symlink
  lfs_symlink-Keeps from to = >>=-Keeps (trigger-Keeps false "symlink" "before" from to) λ _.
      >>=-Keeps (call-Keeps (os.symlink from to))
        λ res. reply-Keeps res _ (trigger-Keeps true "symlink" "after" from to)

  pub lfs_access-Keeps : (path : String) (mask : ℕ) → Keeps (lfs_access os path mask)
  unfolding lfs_access
  lfs_access-Keeps path mask = >>=-Keeps (trigger-Keeps false "access" "before" path "") λ _.
      >>=-Keeps (call-Keeps (os.access path mask))
        λ res. reply-Keeps res _ (trigger-Keeps true "access" "after" path "")

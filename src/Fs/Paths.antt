-- ===== src/Fs/Paths.antt =====
-- lazyfs.cpp: the operations on paths. A lock that a thread shares with itself is granted.
use lazyfs.Base.{ℕ, String, Bool, true, false, ◌&&◌, if◌then◌else◌, ◌==◌, nat_eq, string_eq}
use lazyfs.Base.Run.{ok, ◌>>=◌ as run_bind}
use lazyfs.Os.{Os}
use lazyfs.Cache.{get_original_inode, insert_inode_mapping}
use lazyfs.Cache.Files.{remove_cached_item}
use lazyfs.Fs.{Op, done, ◌>>=◌, give, get, call, with_cache}
use lazyfs.Fs.Crash.{trigger_crash_fault}
use lazyfs.Fs.Hooks.{trigger, trigger_configured}
use lazyfs.Fs.Writes.{Reply, success, error}

module _ (os : Os) where
  -- What an operation returns whose last call gave this; the triggers at the end belong to success.
  unfoldable pub reply : Bool → Op os Unit → Op os Reply
  reply res end =
      if res then end >>= (λ _. give (success 0)) else (λ s. done (error (os.errno s.world)) s)

  unfoldable pub remove_item : String → String → Op os Unit
  unfolding remove_cached_item
  remove_item inode path = with_cache λ c cache w.
      run_bind (remove_cached_item c cache inode path false) λ (_, cache'). ok (tt, cache', w)

  unfoldable pub lfs_unlink : String → Op os Reply
  unfolding trigger trigger_crash_fault trigger_configured get_original_inode remove_item reply
  lfs_unlink path = do
    _ ← trigger os false "unlink" "before" path ""
    s ← get
    let inode = get_original_inode s.cache path
    _ ← (if inode == "" then give tt else remove_item inode path)
    res ← call (os.unlink path)
    _ ← (if res && inode == "" then remove_item inode path else give tt)
    reply res (
        trigger_crash_fault os "unlink" "after" path "" >>= λ _.
        trigger_configured os true "unlink" "before" path "")

  unfoldable pub lfs_link : String → String → Op os Reply
  unfolding trigger get_original_inode insert_inode_mapping reply
  lfs_link from to = do
    _ ← trigger os false "link" "before" from to
    res ← call (os.link from to)
    reply res (do
      s ← get
      let inode = get_original_inode s.cache from
      _ ←
          (if inode == ""
            then give tt
            else with_cache λ c cache w. ok (tt, insert_inode_mapping cache to inode true, w))
      trigger os true "link" "after" from to)

  unfoldable pub lfs_symlink : String → String → Op os Reply
  unfolding trigger reply
  lfs_symlink from to = do
    _ ← trigger os false "symlink" "before" from to
    res ← call (os.symlink from to)
    reply res (trigger os true "symlink" "after" from to)

  unfoldable pub lfs_access : String → ℕ → Op os Reply
  unfolding trigger reply
  lfs_access path mask = do
    _ ← trigger os false "access" "before" path ""
    res ← call (os.access path mask)
    reply res (trigger os true "access" "after" path "")

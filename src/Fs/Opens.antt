-- ===== src/Fs/Opens.antt =====
-- lazyfs.cpp, `lfs_open` and `lfs_create`. Each returns the file information with the descriptor that
-- it sets. A lock that a thread shares with itself is granted.
use lazyfs.Base.{
  ℕ, String, Bool, true, false, not, ◌||◌, none, some, List, [], ◌∷◌, ◌++◌, if◌then◌else◌, ◌==◌,
  nat_eq, string_eq,
}
use lazyfs.Base.Run.{Run, ok, indeterminate, ◌>>=◌ as run_bind}
use lazyfs.Os.{Os}
use lazyfs.Config.{Config}
use lazyfs.Engine.{op_passthrough}
use lazyfs.Item.{Metadata, Timespec, new_metadata}
use lazyfs.Cache.{Cache, has_content_cached, update_content_metadata}
use lazyfs.Cache.Blocks.{put_data_blocks}
use lazyfs.Fs.{Op, done, ◌>>=◌, give, fail, call, with_cache}
use lazyfs.Fs.Attributes.{lfs_getattr}
use lazyfs.Fs.Hooks.{trigger}
use lazyfs.Fs.Writes.{FileInfo, Reply, success, error}
use lazyfs.Fs.Sync.{lfs_truncate}

module _ (os : Os) where
  -- `unset` is what `lfs_truncate` finds in a variable that it has not set.
  unfoldable pub lfs_open : Bool → String → FileInfo → Op os (Reply × FileInfo)
  unfolding trigger lfs_getattr lfs_truncate
  lfs_open unset path fi = do
    _ ← trigger os false "open" "before" path ""
    res ← call (os.open_flags path (if os.has_o_trunc fi.flags then os.o_wronly else fi.flags))
    (elim res [
      | none ↦ (λ s. done (error (os.errno s.world), fi) s)
      | some fd ↦ (do
        let fi' : FileInfo = record fi { fh = some fd }
        _ ← lfs_getattr os path
        _ ←
            (if os.has_o_trunc fi.flags
              then lfs_truncate os unset true (some fi') path 0
              else give (success 0))
        _ ← trigger os true "open" "after" path ""
        give (success 0, fi'))
    ])

  -- The times that a file gets which is created: `access` and `modify` say which are changed.
  unfoldable pub created_metadata :
      Config
      → String
      → Timespec
      → Bool
      → Bool
      → Cache
      → os.State
      → Run (Unit {0} × Cache × os.State)
  unfolding has_content_cached put_data_blocks update_content_metadata
  created_metadata c inode now access modify cache w =
      let known = has_content_cached cache inode in
      let meta : Metadata = record new_metadata { atim = now; mtim = now } in
      let values : List String =
        (if not known then "atime" ∷ [] else [])
        ++ ((if access then "atime" ∷ [] else []) ++ (if modify then "mtime" ∷ [] else [])) in
      run_bind
        (if known
          then ok (cache, w)
          else run_bind (put_data_blocks os c cache inode [] op_passthrough w)
              λ (_, cache', w'). ok (cache', w'))
        λ (cache', w'). ok (
          tt,
          (if has_content_cached cache' inode
              then (update_content_metadata cache' inode meta values).1
              else cache'),
          w',
        )

  unfoldable pub lfs_create : String → ℕ → FileInfo → Op os (Reply × FileInfo)
  unfolding trigger lfs_getattr created_metadata
  lfs_create path mode fi = do
    _ ← trigger os false "create" "before" path ""
    res ← call (os.open_mode path fi.flags mode)
    (elim res [
      | none ↦ (λ s. done (error (os.errno s.world), fi) s)
      | some fd ↦ (do
        stats ← lfs_getattr os path
        (elim stats [
          | none ↦ fail indeterminate
          | some st ↦ (do
            now ← call os.clock
            let m = os.access_mode fi.flags
            _ ← with_cache λ c cache w.
                created_metadata c (os.to_string st.st_ino) now
                  (m == os.o_rdonly || (m == os.o_rdwr || m == os.o_creat))
                  (m == os.o_wronly || m == os.o_rdwr) cache w
            _ ← trigger os true "create" "after" path ""
            give (success 0, record fi { fh = some fd }))
        ]))
    ])

-- ===== src/Fs/Sync.antt =====
-- lazyfs.cpp, `lfs_fsync` and `lfs_truncate`. A lock that a thread shares with itself is granted.
pub mod Stale
use lazyfs.Base.{
  ℕ, ◌-◌, String, Bool, true, false, not, Option, none, some, List, [], ◌∷◌, ltb, if◌then◌else◌,
  ◌==◌, nat_eq, string_eq, replicate,
}
use lazyfs.Base.Run.{ok, indeterminate, out_of_bounds, ◌>>=◌ as run_bind}
use lazyfs.Os.{Os, Stat}
use lazyfs.Item.{Metadata, new_metadata}
use lazyfs.Cache.{
  get_original_inode, has_content_cached, get_content_metadata, update_content_metadata,
}
use lazyfs.Cache.Files.{sync_owner, truncate_item}
use lazyfs.Fs.{Op, done, ◌>>=◌, give, get, fail, call, with_cache}
use lazyfs.Fs.Attributes.{lfs_getattr}
use lazyfs.Fs.Hooks.{trigger}
use lazyfs.Fs.PersistWrite.{restart_counter, check_and_delete_pendingwrite}
use lazyfs.Fs.Writes.{FileInfo, Reply, success, error}
use lazyfs.Fs.Writes.Operation.{lfs_write}

module _ (os : Os) where
  -- The owner is synchronised by the cache, or by the system if the cache has no content of it.
  unfoldable pub sync_content : String → Bool → Option ℕ → Op os Bool
  unfolding get_original_inode has_content_cached sync_owner
  sync_content path isdatasync fh s =
      let inode = get_original_inode s.cache path in
      if has_content_cached s.cache inode
      then with_cache (λ c cache w. sync_owner os c cache inode isdatasync path w) s
      else call (if isdatasync then os.fdatasync fh else os.fsync fh) s

  unfoldable pub lfs_fsync : Bool → String → Bool → Option ℕ → Op os Reply
  unfolding trigger lfs_getattr restart_counter check_and_delete_pendingwrite sync_content
  lfs_fsync held path isdatasync fh = do
    _ ← trigger os held "fsync" "before" path ""
    _ ← lfs_getattr os path
    _ ← restart_counter os path "write"
    _ ← check_and_delete_pendingwrite os path
    res ← sync_content path isdatasync fh
    _ ← trigger os true "fsync" "after" path ""
    give (if res then success 0 else error 1)

  -- `ftruncate` or `truncate`: true if it returns 0.
  unfoldable pub truncate_file : Option FileInfo → String → ℕ → Op os Bool
  truncate_file none path size s = call (os.truncate path size) s
  truncate_file (some i) path size s =
      let (negative, w) = os.ftruncate i.fh size s.world in
      done (not negative) (record s { world = w })

  -- The size in the metadata that a pointer leads to.
  unfoldable pub previous_size : String → Op os ℕ
  unfolding get_content_metadata
  previous_size inode s = elim (get_content_metadata s.cache inode) [
    | none ↦ fail out_of_bounds s
    | some meta ↦ done meta.size s
  ]

  -- The attributes, which are the first ones if they cannot be had again.
  abbrev pub latest : Option Stat → Option Stat → Option Stat
  latest first none = first
  latest first (some st) = some st

  -- The inode whose metadata are changed, and whether `res` is -1. A file without content in the
  -- cache is emptied first; otherwise `res` has no value, and `unset` stands for what is found there.
  unfoldable pub truncated_inode :
      Bool → Option Stat → Option FileInfo → String → Op os (Option (String × Bool))
  unfolding get_original_inode has_content_cached truncate_file lfs_getattr
  truncated_inode unset first fi path s =
      let inode = get_original_inode s.cache path in
      if has_content_cached s.cache inode
      then done (some (inode, unset)) s
      else (do
        res ← truncate_file fi path 0
        stats ← lfs_getattr os path
        now ← get
        (elim (latest first stats) [
          | none ↦ fail indeterminate
          | some st ↦
              let newino = os.to_string st.st_ino in
              if has_content_cached now.cache newino
              then give (some (newino, not res))
              else give none
        ]))
          s

  -- A longer file gets zeros, a shorter one is cut in the cache.
  unfoldable pub change_size : Option FileInfo → String → String → ℕ → Op os Unit
  unfolding previous_size lfs_write truncate_file truncate_item
  change_size fi path inode truncate_size = do
    file_size ← previous_size inode
    (if ltb file_size truncate_size
        then (do
          let add_bytes_total : ℕ = truncate_size - file_size
          r ← lfs_write os true fi path (replicate add_bytes_total 0) file_size
          (if (elim r [ success n ↦ n == add_bytes_total | error e ↦ false ])
              then give tt
              else truncate_file fi path truncate_size >>= λ _. give tt))
        else if ltb truncate_size file_size
        then with_cache (λ c cache w.
          run_bind (truncate_item c cache path truncate_size) λ (_, cache'). ok (tt, cache', w))
        else give tt)

  unfoldable pub set_size : String → ℕ → Op os Unit
  unfolding previous_size has_content_cached update_content_metadata
  set_size inode truncate_size = do
    modify_time ← call os.clock
    file_size ← previous_size inode
    let new_meta : Metadata = record new_metadata {
      size = truncate_size;
      mtim = modify_time;
      ctim = modify_time;
    }
    let values : List String =
        "size" ∷ "mtime" ∷ (if ltb file_size truncate_size then "ctime" ∷ [] else [])
    with_cache λ c cache w. ok (
      tt,
      (if has_content_cached cache inode
          then (update_content_metadata cache inode new_meta values).1
          else cache),
      w,
    )

  unfoldable pub lfs_truncate : Bool → Bool → Option FileInfo → String → ℕ → Op os Reply
  unfolding trigger lfs_getattr truncated_inode change_size set_size
  lfs_truncate unset held fi path truncate_size = do
    _ ← trigger os held "truncate" "before" path ""
    first ← lfs_getattr os path
    found ← truncated_inode unset first fi path
    (elim found [
      | none ↦ give (error 1)
      | some (inode, failed) ↦ (do
        _ ← change_size fi path inode truncate_size
        _ ← set_size inode truncate_size
        (if failed
            then (λ s. done (error (os.errno s.world)) s)
            else (do _ ← trigger os true "truncate" "after" path ""; give (success 0))))
    ])

-- ===== src/Fs/Frame/Sizes.antt =====
-- lazyfs.cpp: what `lfs_fsync`, `lfs_truncate`, `lfs_open` and `lfs_create` leave alone.
use lazyfs.Base.{
  ℕ, ltb, ◌-◌, refl, String, Bool, true, false, ◌||◌, Option, none, some, List, [], ◌∷◌, replicate,
  if◌then◌else◌, ◌==◌, not, nat_eq, string_eq,
}
use lazyfs.Base.Run.{ok, indeterminate, ◌>>=◌ as run_bind}
use lazyfs.Os.{Os, Stat}
use lazyfs.Cache.{
  get_original_inode, has_content_cached, get_content_metadata, update_content_metadata,
}
use lazyfs.Item.{Metadata, new_metadata}
use lazyfs.Cache.Files.{sync_owner, truncate_item}
use lazyfs.Fs.Writes.{FileInfo, success, error}
use lazyfs.Fs.Sync.{
  sync_content, lfs_fsync, truncate_file, previous_size, latest, truncated_inode, change_size,
  set_size, lfs_truncate,
}
use lazyfs.Fs.Opens.{created_metadata, lfs_open, lfs_create}
use lazyfs.Fs.Frame.{
  Keeps, ends, fails, like, same, >>=-Keeps, if-Keeps, if-Ends, Option-Keeps, Option-Ends,
  call-Keeps, give-Keeps, get-Keeps, fail-Keeps, with_cache-Keeps,
}
use lazyfs.Fs.Frame.Triggers.{trigger-Keeps}
use lazyfs.Fs.Frame.Calls.{stay-Keeps, failure-Keeps, lfs_getattr-Keeps}
use lazyfs.Fs.Frame.Writes.{restart_counter-Keeps, check_and_delete_pendingwrite-Keeps}
use lazyfs.Fs.Frame.Operation.{lfs_write-Keeps}

module _ {os : Os} where
  sync_content-Keeps :
      (path : String) (isdatasync : Bool) (fh : Option ℕ)
      → Keeps (sync_content os path isdatasync fh)
  unfolding sync_content
  sync_content-Keeps path isdatasync fh s =
      if-Ends (has_content_cached s.cache (get_original_inode s.cache path))
        (with_cache-Keeps
          (λ c cache w. sync_owner os c cache (get_original_inode s.cache path) isdatasync path w)
          s)
        (call-Keeps (if isdatasync then os.fdatasync fh else os.fsync fh) s)

  pub lfs_fsync-Keeps :
      (held : Bool) (path : String) (isdatasync : Bool) (fh : Option ℕ)
      → Keeps (lfs_fsync os held path isdatasync fh)
  unfolding lfs_fsync
  lfs_fsync-Keeps held path isdatasync fh =
      >>=-Keeps (trigger-Keeps held "fsync" "before" path "") λ _.
        >>=-Keeps (lfs_getattr-Keeps path) λ _. >>=-Keeps (restart_counter-Keeps path "write") λ _.
          >>=-Keeps (check_and_delete_pendingwrite-Keeps path) λ _.
            >>=-Keeps (sync_content-Keeps path isdatasync fh) λ res.
              >>=-Keeps (trigger-Keeps true "fsync" "after" path "")
                λ _. give-Keeps (if res then success 0 else error 1)

  truncate_file-Keeps :
      (fi : Option FileInfo) (path : String) (size : ℕ) → Keeps (truncate_file os fi path size)
  unfolding truncate_file
  truncate_file-Keeps none path size s = call-Keeps (os.truncate path size) s
  truncate_file-Keeps (some i) path size s = ends _ _ (like refl refl refl)

  previous_size-Keeps : (inode : String) → Keeps (previous_size os inode)
  unfolding previous_size
  previous_size-Keeps inode s =
      Option-Ends (get_content_metadata s.cache inode) (fails _) λ meta _. ends meta.size s (same s)

  truncated_inode-Keeps :
      (unset : Bool) (first : Option Stat) (fi : Option FileInfo) (path : String)
      → Keeps (truncated_inode os unset first fi path)
  unfolding truncated_inode
  truncated_inode-Keeps unset first fi path s =
      if-Ends (has_content_cached s.cache (get_original_inode s.cache path)) (ends _ s (same s)) (
        >>=-Keeps (truncate_file-Keeps fi path 0)
          (λ res. >>=-Keeps (lfs_getattr-Keeps path) λ stats. >>=-Keeps get-Keeps λ now.
            Option-Keeps (latest os first stats) (fail-Keeps indeterminate) λ st.
              if-Keeps (has_content_cached now.cache (os.to_string st.st_ino))
                (give-Keeps (some (os.to_string st.st_ino, not res))) (give-Keeps none))
          s)

  change_size-Keeps :
      (fi : Option FileInfo) (path inode : String) (truncate_size : ℕ)
      → Keeps (change_size os fi path inode truncate_size)
  unfolding change_size
  change_size-Keeps fi path inode truncate_size = >>=-Keeps (previous_size-Keeps inode) λ file_size.
      if-Keeps (ltb file_size truncate_size)
        (>>=-Keeps
          (lfs_write-Keeps true fi path (replicate (truncate_size - file_size) 0) file_size)
          λ r.
            if-Keeps (elim r [ success n ↦ n == truncate_size - file_size | error e ↦ false ])
              (give-Keeps tt)
              (>>=-Keeps (truncate_file-Keeps fi path truncate_size) λ _. give-Keeps tt))
        (if-Keeps (ltb truncate_size file_size)
          (with_cache-Keeps (λ c cache w.
            run_bind (truncate_item c cache path truncate_size) λ (_, cache'). ok (tt, cache', w)))
          (give-Keeps tt))

  set_size-Keeps : (inode : String) (truncate_size : ℕ) → Keeps (set_size os inode truncate_size)
  unfolding set_size
  set_size-Keeps inode truncate_size = >>=-Keeps (call-Keeps os.clock) λ modify_time.
      >>=-Keeps (previous_size-Keeps inode) λ file_size. with_cache-Keeps λ c cache w.
        let new_meta : Metadata = record new_metadata {
          size = truncate_size;
          mtim = modify_time;
          ctim = modify_time;
        } in
        let values : List String =
          "size" ∷ "mtime" ∷ (if ltb file_size truncate_size then "ctime" ∷ [] else []) in
        ok (
          tt,
          (if has_content_cached cache inode
              then (update_content_metadata cache inode new_meta values).1
              else cache),
          w,
        )

  pub lfs_truncate-Keeps :
      (unset held : Bool) (fi : Option FileInfo) (path : String) (truncate_size : ℕ)
      → Keeps (lfs_truncate os unset held fi path truncate_size)
  unfolding lfs_truncate
  lfs_truncate-Keeps unset held fi path truncate_size =
      >>=-Keeps (trigger-Keeps held "truncate" "before" path "") λ _.
        >>=-Keeps (lfs_getattr-Keeps path) λ first.
          >>=-Keeps (truncated_inode-Keeps unset first fi path) λ found.
            Option-Keeps found (give-Keeps (error 1)) λ (inode, failed).
              >>=-Keeps (change_size-Keeps fi path inode truncate_size) λ _.
                >>=-Keeps (set_size-Keeps inode truncate_size) λ _. if-Keeps failed failure-Keeps (
                  >>=-Keeps (trigger-Keeps true "truncate" "after" path "")
                    λ _. give-Keeps (success 0))

  pub lfs_open-Keeps :
      (unset : Bool) (path : String) (fi : FileInfo) → Keeps (lfs_open os unset path fi)
  unfolding lfs_open
  lfs_open-Keeps unset path fi = >>=-Keeps (trigger-Keeps false "open" "before" path "") λ _.
      >>=-Keeps
        (call-Keeps
          (os.open_flags path (if os.has_o_trunc fi.flags then os.o_wronly else fi.flags)))
        λ res. Option-Keeps res (stay-Keeps λ s. (error (os.errno s.world), fi)) λ fd.
          >>=-Keeps (lfs_getattr-Keeps path) λ _.
            >>=-Keeps
              (if-Keeps (os.has_o_trunc fi.flags)
                (lfs_truncate-Keeps unset true (some (record fi { fh = some fd })) path 0)
                (give-Keeps (success 0)))
              λ _.
                >>=-Keeps (trigger-Keeps true "open" "after" path "")
                  λ _. give-Keeps (success 0, record fi { fh = some fd })

  pub lfs_create-Keeps :
      (path : String) (mode : ℕ) (fi : FileInfo) → Keeps (lfs_create os path mode fi)
  unfolding lfs_create
  lfs_create-Keeps path mode fi = >>=-Keeps (trigger-Keeps false "create" "before" path "") λ _.
      >>=-Keeps (call-Keeps (os.open_mode path fi.flags mode)) λ res.
        Option-Keeps res (stay-Keeps λ s. (error (os.errno s.world), fi)) λ fd.
          >>=-Keeps (lfs_getattr-Keeps path) λ stats.
            Option-Keeps stats (fail-Keeps indeterminate) λ st.
              >>=-Keeps (call-Keeps os.clock) λ now.
                >>=-Keeps
                  (with_cache-Keeps λ c cache w.
                    created_metadata os c (os.to_string st.st_ino) now
                      (os.access_mode fi.flags == os.o_rdonly
                        || (os.access_mode fi.flags == os.o_rdwr
                            || os.access_mode fi.flags == os.o_creat))
                      (os.access_mode fi.flags == os.o_wronly
                        || os.access_mode fi.flags == os.o_rdwr)
                      cache w)
                  λ _.
                    >>=-Keeps (trigger-Keeps true "create" "after" path "")
                      λ _. give-Keeps (success 0, record fi { fh = some fd })

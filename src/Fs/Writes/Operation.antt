-- ===== src/Fs/Writes/Operation.antt =====
-- lazyfs.cpp, `lfs_write` as a whole. The result of the loop over the blocks is not looked at: the
-- operation returns the size. A lock that a thread shares with itself is granted.
use lazyfs.Base.{
  ℕ, ◌+◌, ◌-◌, max, String, Bool, true, false, not, ◌&&◌, Option, none, some, List, [], ◌∷◌, ltb,
  if◌then◌else◌, ◌==◌, nat_eq, string_eq, length, replicate,
}
use lazyfs.Base.Run.{Run, ok, fault, indeterminate}
use lazyfs.Os.{Os, Stat}
use lazyfs.Item.{Metadata, new_metadata}
use lazyfs.Cache.{
  Cache, get_original_inode, has_content_cached, get_content_metadata, update_content_metadata,
}
use lazyfs.Fs.{Fs, Op, done, ◌>>=◌, give, get, fail, call, with_cache}
use lazyfs.Fs.Attributes.{lfs_getattr}
use lazyfs.Fs.Hooks.{trigger}
use lazyfs.Fs.PersistWrite.{persist_write}
use lazyfs.Fs.SplitWrite.{split_write}
use lazyfs.Fs.Writes.{FileInfo, Reply, success, error, Writing, blocks_of, write_blocks}

module _ (os : Os) where
  -- The size that the file had: that of the cache, or that of the attributes.
  unfoldable pub size_before : Cache → String → Option Stat → Run ℕ
  unfolding has_content_cached get_content_metadata
  size_before cache inode stats =
      if has_content_cached cache inode
      then ok (elim (get_content_metadata cache inode) [ none ↦ 0 | some meta ↦ meta.size ])
      else elim stats [ none ↦ fault indeterminate | some st ↦ ok st.st_size ]

  -- The attributes after a write that ends at a byte.
  unfoldable pub update_size : String → ℕ → ℕ → Op os Unit
  unfolding has_content_cached update_content_metadata
  update_size inode end before = get >>= λ s.
      if has_content_cached s.cache inode
      then (call os.clock >>= λ modify_time.
          let meta : Metadata = record new_metadata {
            size = max end before;
            mtim = modify_time;
            ctim = modify_time;
          } in
          let values : List String =
            "size" ∷ "mtime" ∷ (if ltb before (max end before) then "ctime" ∷ [] else []) in
          with_cache λ c cache w. ok (tt, (update_content_metadata cache inode meta values).1, w))
      else give tt

  -- `get_cache_usage () == 100`
  abbrev pub is_full : Fs os → Bool
  is_full s = s.config.cache_nr_pages - length s.cache.engine.free_pages == s.config.cache_nr_pages

  -- The part of a write that is not direct.
  unfoldable pub write_buffered : Option ℕ → String → String → ℕ → List ℕ → ℕ → Op os Unit
  unfolding write_blocks update_size blocks_of
  write_buffered fd path inode before buf offset = do
    fd_caching ← call (os.open_read path)
    s ← get
    let wr : Writing = record {
      fd = fd;
      fd_caching = fd_caching;
      inode = inode;
      file_size_before = before;
      cache_full = is_full s && not s.config.apply_lru_eviction;
    }
    _ ← write_blocks os wr buf (blocks_of s.config.io_block_size offset (length buf))
    _ ← update_size inode (offset + length buf) before
    call (λ w. (tt, os.close fd_caching w))

  -- The faults of writes, and the triggers at the end.
  unfoldable pub end_write : Option FileInfo → Option ℕ → String → List ℕ → ℕ → Op os Reply
  unfolding persist_write split_write trigger
  end_write fi fd path buf offset = do
    crash_added ← persist_write os path buf offset
    _ ← (if crash_added then give true else split_write os path buf offset)
    _ ← (elim fi [ none ↦ call (λ w. (tt, os.close fd w)) | some _ ↦ give tt ])
    _ ← trigger os true "write" "after" path ""
    give (success (length buf))

  -- The bytes go to the file, or to the cache with zeros from the end of the file to the offset.
  unfoldable pub write_bytes :
      (List ℕ → ℕ → Op os Unit)
      → Option FileInfo
      → Option ℕ
      → String
      → Option Stat
      → List ℕ
      → ℕ
      → Op os Unit
  unfolding get_original_inode size_before write_buffered
  write_bytes fill fi fd path stats buf offset s =
      let inode = get_original_inode s.cache path in
      let is_direct : Bool = elim fi [ none ↦ false | some i ↦ i.direct_io ] in
      if is_direct
      then (call (os.pwrite fd buf offset) >>= λ _. give tt) s
      else elim (size_before s.cache inode stats) [
        | fault e ↦ fail e s
        | ok before ↦
            ((if ltb before offset then fill (replicate (offset - before) 0) before else give tt)
                >>= λ _. write_buffered fd path inode before buf offset)
              s
      ]

  -- `lfs_write`, with what fills the file up to the offset.
  unfoldable pub write_with :
      (List ℕ → ℕ → Op os Unit) → Bool → Option FileInfo → String → List ℕ → ℕ → Op os Reply
  unfolding trigger lfs_getattr write_bytes end_write
  write_with fill held fi path buf offset = do
    _ ← trigger os held "write" "before" path ""
    fd ← (elim fi [ none ↦ call (os.open_write path) | some i ↦ give i.fh ])
    (elim fd [
      | none ↦ (λ s. done (error (os.errno s.world)) s)
      | some n ↦ (do
        stats ← lfs_getattr os path
        _ ← write_bytes fill fi (some n) path stats buf offset
        end_write fi (some n) path buf offset)
    ])

  -- Without a descriptor, nothing is filled.
  unfoldable pub write_by_path : Bool → String → List ℕ → ℕ → Op os Reply
  unfolding write_with
  write_by_path held path buf offset = write_with (λ zeros from. give tt) held none path buf offset

  unfoldable pub lfs_write : Bool → Option FileInfo → String → List ℕ → ℕ → Op os Reply
  unfolding write_with write_by_path
  lfs_write held none path buf offset = write_by_path held path buf offset
  lfs_write held (some i) path buf offset =
      write_with (λ zeros from. write_by_path true path zeros from >>= λ _. give tt) held (some i)
        path buf offset

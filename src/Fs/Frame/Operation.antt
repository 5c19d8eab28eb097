-- ===== src/Fs/Frame/Operation.antt =====
-- lazyfs.cpp: what `lfs_write` leaves alone.
use lazyfs.Base.{
  ℕ, ltb, refl, String, Bool, true, false, ◌&&◌, Option, none, some, List, [], ◌∷◌, ◌+◌, ◌-◌, ◌*◌,
  length, replicate, ◌==◌, not, nat_eq, string_eq,
}
use lazyfs.Base.Assoc.{find}
use lazyfs.Os.{Os, Stat}
use lazyfs.Cache.{get_original_inode, has_content_cached, is_block_cached}
use lazyfs.Engine.{op_write}
use lazyfs.Cache.Blocks.{Block, put_data_blocks}
use lazyfs.Fs.{Op, ◌>>=◌, give}
use lazyfs.Fs.Writes.{
  FileInfo, Range, Writing, slice, fill_block, blocks_of, success, put_or_pwrite, write_uncached,
  write_block, write_blocks,
}
use lazyfs.Fs.Writes.Operation.{
  size_before, update_size, write_buffered, end_write, write_bytes, write_with, write_by_path,
  lfs_write, is_full,
}
use lazyfs.Fs.Frame.{
  Keeps, ends, same, >>=-Keeps, if-Keeps, if-Ends, if_at-Ends, Option-Keeps, call-Keeps, give-Keeps,
  get-Keeps, with_cache-Keeps, Run-Ends, like,
}
use lazyfs.Fs.Frame.Triggers.{trigger-Keeps}
use lazyfs.Fs.Frame.Calls.{failure-Keeps, lfs_getattr-Keeps}
use lazyfs.Fs.Frame.Writes.{persist_write-Keeps, split_write-Keeps}

module _ {os : Os} where
  put_or_pwrite-Keeps :
      (wr : Writing) (full : Bool) (index : ℕ) (b : Block)
      → Keeps (put_or_pwrite os wr full index b)
  unfolding put_or_pwrite
  put_or_pwrite-Keeps wr full index b = >>=-Keeps get-Keeps λ s0.
      >>=-Keeps
        (if-Keeps full (give-Keeps []) (
          with_cache-Keeps
            λ c cache w. put_data_blocks os c cache wr.inode ((index, b) ∷ []) op_write w))
        λ put_res.
          if-Keeps (elim (find index put_res) [ none ↦ false | some in_cache ↦ in_cache ])
            (give-Keeps true)
            (>>=-Keeps
              (call-Keeps (os.pwrite wr.fd b.bdata (index * s0.config.io_block_size + b.off_start)))
              λ pwrite_res.
                give-Keeps (elim pwrite_res [ none ↦ false | some n ↦ n == length b.bdata ]))

  write_uncached-Keeps :
      (wr : Writing) (index from to : ℕ) (bytes : List ℕ)
      → Keeps (write_uncached os wr index from to bytes)
  unfolding write_uncached
  write_uncached-Keeps wr index from to bytes = >>=-Keeps get-Keeps λ s.
      Option-Keeps wr.fd_caching (give-Keeps false) λ fd.
        if-Keeps (ltb (index * s.config.io_block_size) wr.file_size_before && not wr.cache_full)
          (>>=-Keeps
            (call-Keeps
              (os.pread (some fd) s.config.io_block_size (index * s.config.io_block_size)))
            λ pread_res. Option-Keeps pread_res (give-Keeps false) λ old.
              put_or_pwrite-Keeps wr wr.cache_full index (fill_block (some old) from bytes to))
          (put_or_pwrite-Keeps wr wr.cache_full index (fill_block none from bytes to))

  write_block-Keeps : (wr : Writing) (buf : List ℕ) (r : Range) → Keeps (write_block os wr buf r)
  unfolding write_block
  write_block-Keeps wr buf r s =
      Run-Ends (slice buf r.iterator (r.readable_to + 1 - r.readable_from)) λ bytes.
        if-Ends (is_block_cached s.cache wr.inode r.index)
          (put_or_pwrite-Keeps wr false r.index _ s)
          (write_uncached-Keeps wr r.index r.readable_from r.readable_to bytes s)

  write_blocks-Keeps :
      (wr : Writing) (buf : List ℕ) (rs : List Range) → Keeps (write_blocks os wr buf rs)
  unfolding write_blocks
  write_blocks-Keeps wr buf [] = give-Keeps tt
  write_blocks-Keeps wr buf (r ∷ rs) =
      >>=-Keeps (write_block-Keeps wr buf r)
        λ goes_on. if-Keeps goes_on (write_blocks-Keeps wr buf rs) (give-Keeps tt)

  update_size-Keeps : (inode : String) (end before : ℕ) → Keeps (update_size os inode end before)
  unfolding update_size
  update_size-Keeps inode end before s =
      if_at-Ends (has_content_cached s.cache inode) _ _ s (ends tt _ (like refl refl refl))
        (ends tt s (same s))

  write_buffered-Keeps :
      (fd : Option ℕ) (path inode : String) (before : ℕ) (buf : List ℕ) (offset : ℕ)
      → Keeps (write_buffered os fd path inode before buf offset)
  unfolding write_buffered
  write_buffered-Keeps fd path inode before buf offset =
      >>=-Keeps (call-Keeps (os.open_read path)) λ fd_caching. >>=-Keeps get-Keeps λ s.
        >>=-Keeps
          (write_blocks-Keeps
            (record {
              fd = fd;
              fd_caching = fd_caching;
              inode = inode;
              file_size_before = before;
              cache_full = is_full os s && not s.config.apply_lru_eviction;
            })
            buf (blocks_of s.config.io_block_size offset (length buf)))
          λ _.
            >>=-Keeps (update_size-Keeps inode (offset + length buf) before)
              λ _. call-Keeps (λ w. (tt, os.close fd_caching w))

  end_write-Keeps :
      (fi : Option FileInfo) (fd : Option ℕ) (path : String) (buf : List ℕ) (offset : ℕ)
      → Keeps (end_write os fi fd path buf offset)
  unfolding end_write
  end_write-Keeps fi fd path buf offset =
      >>=-Keeps (persist_write-Keeps path buf offset) λ crash_added.
        >>=-Keeps (if-Keeps crash_added (give-Keeps true) (split_write-Keeps path buf offset)) λ _.
          >>=-Keeps (Option-Keeps fi (call-Keeps (λ w. (tt, os.close fd w))) λ i. give-Keeps tt)
            λ _.
              >>=-Keeps (trigger-Keeps true "write" "after" path "")
                λ _. give-Keeps (success (length buf))

  module _ (fill : List ℕ → ℕ → Op os Unit)
      (fills : (zeros : List ℕ) (from : ℕ) → Keeps (fill zeros from)) where
    write_bytes-Keeps :
        (fi : Option FileInfo) (fd : Option ℕ) (path : String) (stats : Option Stat) (buf : List ℕ)
        (offset : ℕ)
        → Keeps (write_bytes os fill fi fd path stats buf offset)
    unfolding write_bytes
    write_bytes-Keeps fi fd path stats buf offset s =
        if-Ends (elim fi [ none ↦ false | some i ↦ i.direct_io ])
          (>>=-Keeps (call-Keeps (os.pwrite fd buf offset)) (λ _. give-Keeps tt) s)
          (Run-Ends (size_before os s.cache (get_original_inode s.cache path) stats) λ before.
            >>=-Keeps
              (if-Keeps (ltb before offset) (fills (replicate (offset - before) 0) before)
                (give-Keeps tt))
              (λ _.
                write_buffered-Keeps fd path (get_original_inode s.cache path) before buf offset)
              s)

    write_with-Keeps :
        (held : Bool) (fi : Option FileInfo) (path : String) (buf : List ℕ) (offset : ℕ)
        → Keeps (write_with os fill held fi path buf offset)
    unfolding write_with
    write_with-Keeps held fi path buf offset =
        >>=-Keeps (trigger-Keeps held "write" "before" path "") λ _.
          >>=-Keeps (Option-Keeps fi (call-Keeps (os.open_write path)) λ i. give-Keeps i.fh) λ fd.
            Option-Keeps fd failure-Keeps λ n. >>=-Keeps (lfs_getattr-Keeps path) λ stats.
              >>=-Keeps (write_bytes-Keeps fi (some n) path stats buf offset)
                λ _. end_write-Keeps fi (some n) path buf offset

  write_by_path-Keeps :
      (held : Bool) (path : String) (buf : List ℕ) (offset : ℕ)
      → Keeps (write_by_path os held path buf offset)
  unfolding write_by_path
  write_by_path-Keeps held path buf offset =
      write_with-Keeps (λ zeros from. give tt) (λ zeros from. give-Keeps tt) held none path buf
        offset

  pub lfs_write-Keeps :
      (held : Bool) (fi : Option FileInfo) (path : String) (buf : List ℕ) (offset : ℕ)
      → Keeps (lfs_write os held fi path buf offset)
  unfolding lfs_write
  lfs_write-Keeps held none path buf offset = write_by_path-Keeps held path buf offset
  lfs_write-Keeps held (some i) path buf offset =
      write_with-Keeps (λ zeros from. write_by_path os true path zeros from >>= λ _. give tt)
        (λ zeros from. >>=-Keeps (write_by_path-Keeps true path zeros from) λ _. give-Keeps tt) held
        (some i) path buf offset

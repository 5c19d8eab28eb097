-- ===== src/Fs/Frame/Reads.antt =====
-- lazyfs.cpp: what `lfs_read` leaves alone.
use lazyfs.Base.{
  ℕ, zero, suc, ◌+◌, ◌-◌, ◌*◌, ◌/◌, ltb, leb, refl, String, Bool, true, false, Option, none, some,
  List, [], ◌∷◌, length, ◌==◌, nat_eq, string_eq,
}
use lazyfs.Base.Run.{Run, ok, fault, ◌>>=◌ as run_bind}
use lazyfs.Os.{Os}
use lazyfs.Engine.{op_passthrough}
use lazyfs.Cache.{get_original_inode, has_content_cached, is_block_cached}
use lazyfs.Cache.Blocks.{put_data_blocks, get_data_blocks}
use lazyfs.Fs.{done, failed}
use lazyfs.Fs.Writes.{FileInfo, success, error, last_byte, readable_from, readable_to}
use lazyfs.Fs.Reads.{
  Request, Reading, store, copy_block, find_block, read_chunk, before_block, read_cached, join_run,
  read_blocks, read_all, enter_file, read_size, read_result, lfs_read,
}
use lazyfs.Fs.Frame.{
  Keeps, ends, like, same, >>=-Keeps, if-Keeps, if-Ends, if_at-Ends, Option-Keeps, Run-Ends,
  call-Keeps, give-Keeps, get-Keeps, with_cache-Keeps,
}
use lazyfs.Fs.Frame.Triggers.{trigger-Keeps}
use lazyfs.Fs.Frame.Calls.{stay-Keeps, lfs_getattr-Keeps}

module _ {os : Os} where
  read_chunk-Keeps : (q : Request) (r : Reading) → Keeps (read_chunk os q r)
  unfolding read_chunk
  read_chunk-Keeps q r =
      >>=-Keeps (call-Keeps (os.pread q.fd r.last_pread_chunk_size r.last_pread_chunk_offset))
        λ pread_res.
          Option-Keeps pread_res (give-Keeps (record r { failures = r.failures + 1 })) λ bytes.
            copy (store r 0 bytes)
              λ buf. record r { buf = buf; iterator = r.iterator + length bytes }
    where
      copy :
          {B : Type 0} (o : Run B) (f : B → Reading)
          → Keeps {os = os} (λ s. elim o [ fault e ↦ failed e | ok b ↦ done (f b) s ])
      copy o f s = Run-Ends o λ b. ends (f b) s (same s)

  before_block-Keeps :
      (q : Request) (is_last : Bool) (block_size index : ℕ) (r : Reading)
      → Keeps (before_block os q is_last block_size index r)
  unfolding before_block
  before_block-Keeps q is_last block_size index r =
      if-Keeps (ltb 0 r.last_pread_chunk_size) (>>=-Keeps (read_chunk-Keeps q r) λ r1. give-Keeps _)
        (if-Keeps is_last (give-Keeps r) (give-Keeps _))

  read_cached-Keeps :
      (q : Request) (is_last : Bool) (block_size index : ℕ) (r : Reading)
      → Keeps (read_cached os q is_last block_size index r)
  unfolding read_cached
  read_cached-Keeps q is_last block_size index r =
      >>=-Keeps
        (with_cache-Keeps λ c cache w.
          run_bind (get_data_blocks c cache q.inode (index ∷ []))
            λ (res, cache'). ok (res, cache', w))
        λ res. Option-Keeps (find_block index res) (give-Keeps r) λ (bytes, offsets).
          Option-Keeps bytes (give-Keeps r) λ block s.
            Run-Ends
              (copy_block block_size is_last (readable_from block_size q.offset index)
                (readable_to block_size q.offset q.size index) offsets.1 block r)
              λ r'. ends r' s (same s)

  read_blocks-Keeps :
      (q : Request) (count index : ℕ) (r : Reading) → Keeps (read_blocks os q count index r)
  unfolding read_blocks
  read_blocks-Keeps q zero index r s = ends r s (same s)
  read_blocks-Keeps q (suc count) index r s =
      if-Ends (ltb q.file_size (index * s.config.io_block_size)) (ends r s (same s)) (
        if-Ends (is_block_cached s.cache q.inode index)
          (>>=-Keeps (before_block-Keeps q (count == 0) s.config.io_block_size index r)
            (λ r1. if-Keeps (leb (q.size + r1.failures) r1.iterator) (give-Keeps r1) (
              >>=-Keeps (read_cached-Keeps q (count == 0) s.config.io_block_size index r1)
                λ r2. read_blocks-Keeps q count (index + 1) r2))
            s)
          (if-Ends (elim q.fd [ none ↦ false | some n ↦ ltb 0 n ])
            (read_blocks-Keeps q count (index + 1) (join_run os q s.config.io_block_size index r) s)
            (ends r s (same s))))

  read_all-Keeps : (q : Request) (r : Reading) → Keeps (read_all os q r)
  unfolding read_all
  read_all-Keeps q r = >>=-Keeps get-Keeps λ s.
      >>=-Keeps
        (read_blocks-Keeps q
          (last_byte q.offset q.size / s.config.io_block_size
            + 1
            - q.offset / s.config.io_block_size)
          (q.offset / s.config.io_block_size) r)
        λ r1. if-Keeps (ltb 0 r1.last_pread_chunk_size) (read_chunk-Keeps q r1) (give-Keeps r1)

  enter_file-Keeps : (path inode : String) → Keeps (enter_file os path inode)
  unfolding enter_file
  enter_file-Keeps path inode =
      >>=-Keeps (with_cache-Keeps λ c cache w. put_data_blocks os c cache inode [] op_passthrough w)
        λ _ s. ends _ _ (like refl refl refl)

  read_size-Keeps : (path inode : String) → Keeps (read_size os path inode)
  unfolding read_size
  read_size-Keeps path inode s =
      if_at-Ends (has_content_cached s.cache inode) _ _ s (ends _ s (same s))
        (enter_file-Keeps path inode s)

  read_result-Keeps : (r : Reading) → Keeps (read_result os r)
  unfolding read_result
  read_result-Keeps r s =
      if-Ends (leb r.failures r.iterator) (ends _ s (same s))
        (if-Ends (r.failures == r.iterator + 1) (ends _ s (same s)) (ends _ s (same s)))

  pub lfs_read-Keeps :
      (unset : List ℕ) (fi : Option FileInfo) (path : String) (buf : List ℕ) (offset : ℕ)
      → Keeps (lfs_read os unset fi path buf offset)
  unfolding lfs_read
  lfs_read-Keeps unset fi path buf offset =
      >>=-Keeps (trigger-Keeps false "read" "before" path "") λ _.
        >>=-Keeps (Option-Keeps fi (call-Keeps (os.open_read path)) λ i. give-Keeps i.fh) λ fd.
          Option-Keeps fd (stay-Keeps λ s. (error (os.errno s.world), buf)) λ n.
            >>=-Keeps (lfs_getattr-Keeps path) λ _. >>=-Keeps get-Keeps λ s.
              >>=-Keeps (read_size-Keeps path (get_original_inode s.cache path)) λ file_size.
                if-Keeps (leb file_size offset) (give-Keeps (success 0, buf)) (
                  >>=-Keeps
                    (read_all-Keeps
                      (record {
                        fd = some n;
                        inode = get_original_inode s.cache path;
                        offset = offset;
                        size = length buf;
                        file_size = file_size;
                      })
                      (record {
                        buf = buf;
                        read_buffer = unset;
                        iterator = 0;
                        failures = 0;
                        last_pread_chunk_size = 0;
                        last_pread_chunk_offset = offset;
                      }))
                    λ r. >>=-Keeps (read_result-Keeps r) λ res.
                      >>=-Keeps
                        (Option-Keeps fi (call-Keeps (λ w. (tt, os.close (some n) w)))
                          λ i. give-Keeps tt)
                        λ _.
                          >>=-Keeps (trigger-Keeps true "read" "after" path "")
                            λ _. give-Keeps (res, r.buf))

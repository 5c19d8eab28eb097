-- ===== src/Fs/Reads.antt =====
-- lazyfs.cpp, `lfs_read`: blocks that are cached are copied, and the blocks between them are read from the
-- file in runs. The buffer is a list of as many bytes as are asked for; `BUF_ITERATOR`, from which
-- a call that fails takes 1, is `iterator - failures`. `data_allocated` is left out, since only a
-- branch reads it that is never taken. A lock that a thread shares with itself is granted.
pub mod Uncached
use lazyfs.Base.{
  ℕ, zero, suc, ◌+◌, ◌-◌, ◌*◌, ◌/◌, min, String, Bool, true, false, not, ◌&&◌, ◌||◌, Option, none,
  some, List, [], ◌∷◌, ltb, leb, if◌then◌else◌, ◌==◌, nat_eq, string_eq, length, replicate, blit,
}
use lazyfs.Base.Run.{Run, ok, fault, out_of_bounds, ◌>>=◌ as run_bind}
use lazyfs.Os.{Os}
use lazyfs.Engine.{op_passthrough}
use lazyfs.Item.{Metadata, new_metadata}
use lazyfs.Cache.{
  get_original_inode, has_content_cached, get_content_metadata, update_content_metadata,
  is_block_cached,
}
use lazyfs.Cache.Blocks.{put_data_blocks, get_data_blocks}
use lazyfs.Fs.{Op, done, ◌>>=◌, give, get, fail, call, with_cache}
use lazyfs.Fs.Attributes.{lfs_getattr}
use lazyfs.Fs.Hooks.{trigger}
use lazyfs.Fs.Writes.{FileInfo, Reply, success, error, last_byte, readable_from, readable_to, slice}

-- What a read knows from its beginning on.
pub record Request : Type 0 where
  pub fd : Option ℕ
  pub inode : String
  pub offset : ℕ
  pub size : ℕ
  pub file_size : ℕ

-- The variables of the loop: the buffers, the two parts of `BUF_ITERATOR`, and the run that is to be read.
pub record Reading : Type 0 where
  pub buf : List ℕ
  pub read_buffer : List ℕ
  pub iterator : ℕ
  pub failures : ℕ
  pub last_pread_chunk_size : ℕ
  pub last_pread_chunk_offset : ℕ

-- Bytes that are written `skip` bytes behind `buf + BUF_ITERATOR`.
unfoldable pub store : Reading → ℕ → List ℕ → Run (List ℕ)
store r skip [] = ok r.buf
store r skip (b ∷ bytes) =
    if leb r.failures (r.iterator + skip)
      && leb (r.iterator + skip + length (b ∷ bytes)) (r.failures + length r.buf)
    then ok (blit r.buf (r.iterator + skip - r.failures) (b ∷ bytes))
    else fault out_of_bounds

-- A block that the cache has, with its bytes, the last one that is readable, and the range that is asked
-- for. Where the block ends before its range begins, the number of bytes is negative.
unfoldable pub copy_block : ℕ → Bool → ℕ → ℕ → ℕ → List ℕ → Reading → Run Reading
unfolding store slice
copy_block block_size is_last from to max_readable bytes r =
    let upto : ℕ = min (max_readable + 1) (to + 1) in
    if ltb block_size (length bytes) || ltb upto from
    then fault out_of_bounds
    else run_bind (slice (blit r.read_buffer 0 bytes) from (upto - from)) (λ part.
      run_bind (store r 0 part) (λ buf.
        let r1 : Reading = record r {
          buf = buf;
          read_buffer = blit r.read_buffer 0 bytes;
          iterator = r.iterator + (upto - from);
        } in
        if ltb upto block_size && not is_last
        then run_bind (store r1 (upto - 1) (replicate (block_size + 1 - upto) 0))
            (λ buf'. ok (record r1 { buf = buf' }))
        else ok r1))

-- What the cache says of a block.
unfoldable pub find_block :
    ℕ → List (ℕ × Option (List ℕ) × (ℕ × ℕ)) → Option (Option (List ℕ) × (ℕ × ℕ))
find_block index [] = none
find_block index ((i, bytes, offsets) ∷ rest) =
    if i == index then some (bytes, offsets) else find_block index rest

module _ (os : Os) where
  -- The run so far is read.
  unfoldable pub read_chunk : Request → Reading → Op os Reading
  unfolding store
  read_chunk q r =
      call (os.pread q.fd r.last_pread_chunk_size r.last_pread_chunk_offset) >>= λ pread_res.
      elim pread_res [
        | none ↦ give (record r { failures = r.failures + 1 })
        | some bytes ↦ (λ s. elim (store r 0 bytes) [
          | fault e ↦ fail e s
          | ok buf ↦ done (record r { buf = buf; iterator = r.iterator + length bytes }) s
        ])
      ]

  -- What precedes the copy of a cached block: the run before it is read.
  unfoldable pub before_block : Request → Bool → ℕ → ℕ → Reading → Op os Reading
  unfolding read_chunk
  before_block q is_last block_size index r =
      let next : ℕ = (index + 1) * block_size in
      if ltb 0 r.last_pread_chunk_size
      then (read_chunk q r >>= λ r1.
          give (record r1 { last_pread_chunk_size = 0; last_pread_chunk_offset = next }))
      else if is_last
      then give r
      else give (record r { last_pread_chunk_offset = next })

  -- A block that is cached. Where the cache does not give it, nothing is copied.
  unfoldable pub read_cached : Request → Bool → ℕ → ℕ → Reading → Op os Reading
  unfolding get_data_blocks copy_block find_block readable_from readable_to
  read_cached q is_last block_size index r =
      with_cache (λ c cache w.
        run_bind (get_data_blocks c cache q.inode (index ∷ []))
          λ (res, cache'). ok (res, cache', w))
      >>= λ res. elim (find_block index res) [
        | none ↦ give r
        | some (bytes, offsets) ↦ elim bytes [
          | none ↦ give r
          | some block ↦ (λ s.
              elim (copy_block block_size is_last (readable_from block_size q.offset index)
                (readable_to block_size q.offset q.size index) offsets.1 block r) [
                  | fault e ↦ fail e s
                  | ok r' ↦ done r' s
                ])
        ]
      ]

  -- A block that is not cached joins the run, where the file has bytes of it.
  unfoldable pub join_run : Request → ℕ → ℕ → Reading → Reading
  unfolding readable_from readable_to
  join_run q block_size index r =
      if ltb (index * block_size) q.file_size
      then record r {
        last_pread_chunk_size =
            r.last_pread_chunk_size
            + (readable_to block_size q.offset q.size index
                + 1
                - readable_from block_size q.offset index);
      }
      else r

  -- The loop, with the number of blocks that are left. It ends behind the end of the file, where
  -- nothing is left to read, and at a block that is not cached if the descriptor is 0.
  unfoldable pub read_blocks : Request → ℕ → ℕ → Reading → Op os Reading
  unfolding is_block_cached before_block read_cached join_run
  read_blocks q zero index r = give r
  read_blocks q (suc count) index r = λ s.
      let block_size : ℕ = s.config.io_block_size in
      let is_last : Bool = count == 0 in
      let joined = read_blocks q count (index + 1) (join_run q block_size index r) s in
      let copied =
        (before_block q is_last block_size index r >>= λ r1.
        if leb (q.size + r1.failures) r1.iterator
        then give r1
        else (read_cached q is_last block_size index r1 >>= λ r2.
            read_blocks q count (index + 1) r2))
          s in
      if ltb q.file_size (index * block_size)
      then done r s
      else if is_block_cached s.cache q.inode index
      then copied
      else if elim q.fd [ none ↦ false | some n ↦ ltb 0 n ]
      then joined
      else done r s

  -- The loop and the last run.
  unfoldable pub read_all : Request → Reading → Op os Reading
  unfolding read_blocks read_chunk
  read_all q r = get >>= λ s.
      let block_size : ℕ = s.config.io_block_size in
      let blk_low : ℕ = q.offset / block_size in
      let blk_high : ℕ = last_byte q.offset q.size / block_size in
      read_blocks q (blk_high + 1 - blk_low) blk_low r >>= λ r1.
      if ltb 0 r1.last_pread_chunk_size then read_chunk q r1 else give r1

  -- The size of a file that is not cached, which then gets a content.
  unfoldable pub enter_file : String → String → Op os ℕ
  unfolding put_data_blocks has_content_cached update_content_metadata
  enter_file path inode = do
    _ ← with_cache λ c cache w. put_data_blocks os c cache inode [] op_passthrough w
    stats ← call (os.stat path)
    let size : ℕ = elim stats [ none ↦ 0 | some st ↦ st.st_size ]
    access_time ← call os.clock
    let meta : Metadata = record new_metadata { size = size; atim = access_time }
    _ ← with_cache λ c cache w. ok (
      tt,
      if has_content_cached cache inode
          then (update_content_metadata cache inode meta ("size" ∷ "atime" ∷ [])).1
          else cache,
      w,
    )
    give size

  unfoldable pub read_size : String → String → Op os ℕ
  unfolding has_content_cached get_content_metadata enter_file
  read_size path inode = get >>= λ s.
      if has_content_cached s.cache inode
      then give (elim (get_content_metadata s.cache inode) [ none ↦ 0 | some meta ↦ meta.size ])
      else enter_file path inode

  -- `BUF_ITERATOR`, or the number of an error if it is -1.
  unfoldable pub read_result : Reading → Op os Reply
  read_result r s =
      if leb r.failures r.iterator
      then done (success (r.iterator - r.failures)) s
      else if r.failures == r.iterator + 1
      then done (error (os.errno s.world)) s
      else done (error (r.failures - r.iterator)) s

  -- A read behind the end of the file returns at once; a descriptor of its own stays open then. `unset`
  -- is what the array `read_buffer` holds at first.
  unfoldable pub lfs_read : List ℕ → Option FileInfo → String → List ℕ → ℕ → Op os (Reply × List ℕ)
  lfs_read unset fi path buf offset = do
    _ ← trigger os false "read" "before" path ""
    fd ← (elim fi [ none ↦ call (os.open_read path) | some i ↦ give i.fh ])
    (elim fd [
      | none ↦ (λ s. done (error (os.errno s.world), buf) s)
      | some n ↦ (do
        _ ← lfs_getattr os path
        s ← get
        let inode = get_original_inode s.cache path
        file_size ← read_size path inode
        (if leb file_size offset then give (success 0, buf) else (do
          r ←
              read_all
                (record {
                  fd = some n;
                  inode = inode;
                  offset = offset;
                  size = length buf;
                  file_size = file_size;
                })
                (record {
                  buf = buf;
                  read_buffer = unset;
                  iterator = 0;
                  failures = 0;
                  last_pread_chunk_size = 0;
                  last_pread_chunk_offset = offset;
                })
          res ← read_result r
          _ ← (elim fi [ none ↦ call (λ w. (tt, os.close (some n) w)) | some _ ↦ give tt ])
          _ ← trigger os true "read" "after" path ""
          give (res, r.buf))))
    ])

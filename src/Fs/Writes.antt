-- ===== src/Fs/Writes.antt =====
-- lazyfs.cpp, `lfs_write`: a write goes to the cache block by block. The bytes and their number are
-- a list; the offset and the size are below 2 ^ 63, so that only `offset + size - 1` can wrap. A lock
-- that a thread shares with itself is granted.
pub mod Operation
pub mod Ranges
use lazyfs.Base.{
  ℕ, zero, suc, ◌+◌, ◌-◌, ◌*◌, ◌/◌, ◌%◌, ◌^◌, String, Bool, true, false, not, ◌&&◌, Option, none,
  some, List, [], ◌∷◌, ◌++◌, ltb, leb, if◌then◌else◌, ◌==◌, nat_eq, string_eq, length, take, drop,
  replicate, blit,
}
use lazyfs.Base.Assoc.{find}
use lazyfs.Base.Run.{Run, ok, fault, out_of_bounds}
use lazyfs.Base.Run
use lazyfs.Os.{Os}
use lazyfs.Engine.{op_write}
use lazyfs.Cache.{is_block_cached}
use lazyfs.Cache.Blocks.{Block, put_data_blocks}
use lazyfs.Fs.{Op, failed, ◌>>=◌, give, get, call, with_cache}

-- `struct fuse_file_info`
pub record FileInfo : Type 0 where
  pub fh : Option ℕ
  pub direct_io : Bool
  pub flags : ℕ

-- What an operation returns: a number, or minus an error number.
pub data Reply : Type 0 where
  success : ℕ → Reply
  error : ℕ → Reply

-- The bytes of a block that a write or a read is about, and where they begin in its buffer.
pub record Range : Type 0 where
  pub index : ℕ
  pub readable_from : ℕ
  pub readable_to : ℕ
  pub iterator : ℕ

-- `offset + size - 1`
abbrev pub last_byte : ℕ → ℕ → ℕ
last_byte offset size = (offset + size + (2 ^ 64 - 1)) % 2 ^ 64

unfoldable pub readable_from : ℕ → ℕ → ℕ → ℕ
readable_from block_size offset index =
    if index == offset / block_size then offset % block_size else 0

unfoldable pub readable_to : ℕ → ℕ → ℕ → ℕ → ℕ
readable_to block_size offset size index =
    let last = last_byte offset size in
    if index == last / block_size
    then last % block_size
    else if index == offset / block_size && ltb last block_size
    then last
    else block_size - 1

-- The blocks from `index` on, as the loop counts through them.
unfoldable pub ranges : ℕ → ℕ → ℕ → ℕ → ℕ → ℕ → List Range
unfolding readable_from readable_to
ranges block_size offset size zero index iterator = []
ranges block_size offset size (suc count) index iterator =
    let from = readable_from block_size offset index in
    let to = readable_to block_size offset size index in
    record { index = index; readable_from = from; readable_to = to; iterator = iterator }
    ∷ ranges block_size offset size count (index + 1) (iterator + (to + 1 - from))

-- The blocks of a write of `size` bytes at `offset`.
unfoldable pub blocks_of : ℕ → ℕ → ℕ → List Range
unfolding ranges
blocks_of block_size offset size =
    ranges block_size offset size (last_byte offset size / block_size + 1 - offset / block_size)
      (offset / block_size) 0

-- `buf + i`, of which `n` bytes are read.
unfoldable pub slice : List ℕ → ℕ → ℕ → Run (List ℕ)
slice buf i n = if leb (i + n) (length buf) then ok (take n (drop i buf)) else fault out_of_bounds

-- The bytes of the file, those that the write brings over them, and zeros between them.
unfoldable pub overlay : List ℕ → ℕ → List ℕ → List ℕ
overlay old from bytes = blit (old ++ replicate (from + length bytes - length old) 0) from bytes

-- What is put into the cache for a block that is not there, from the bytes that were read, where
-- they were needed.
unfoldable pub fill_block : Option (List ℕ) → ℕ → List ℕ → ℕ → Block
unfolding overlay
fill_block none from bytes to = record { bdata = bytes; off_start = from; rs_to = to }
fill_block (some []) from bytes to = record { bdata = bytes; off_start = from; rs_to = to }
fill_block (some (b ∷ old)) from bytes to =
    let cache_buf = overlay (b ∷ old) from bytes in
    record { bdata = cache_buf; off_start = 0; rs_to = length cache_buf - 1 }

-- The state of a write: the file's descriptor, the one that it is read with, the inode, the size
-- that the file had, and whether the cache is full.
pub record Writing : Type 0 where
  pub fd : Option ℕ
  pub fd_caching : Option ℕ
  pub inode : String
  pub file_size_before : ℕ
  pub cache_full : Bool

module _ (os : Os) where
  -- A block is put into the cache, unless that is full; what it does not take is written to the file.
  -- The result is false where the loop ends.
  unfoldable pub put_or_pwrite : Writing → Bool → ℕ → Block → Op os Bool
  unfolding put_data_blocks
  put_or_pwrite wr full index b = get >>= λ s0.
      (if full
        then give []
        else with_cache
            λ c cache w. put_data_blocks os c cache wr.inode ((index, b) ∷ []) op_write w)
      >>= λ put_res.
          if elim (find index put_res) [ none ↦ false | some in_cache ↦ in_cache ]
          then give true
          else call (os.pwrite wr.fd b.bdata (index * s0.config.io_block_size + b.off_start))
            >>= λ pwrite_res. give (elim pwrite_res [ none ↦ false | some n ↦ n == length b.bdata ])

  -- A block that is not in the cache. It is read first where the file has bytes of it.
  unfoldable pub write_uncached : Writing → ℕ → ℕ → ℕ → List ℕ → Op os Bool
  unfolding put_or_pwrite fill_block
  write_uncached wr index from to bytes = get >>= λ s.
      let block_size = s.config.io_block_size in
      let needs_pread = ltb (index * block_size) wr.file_size_before && not wr.cache_full in
      elim wr.fd_caching [
        | none ↦ give false
        | some fd ↦
            if needs_pread
            then (call (os.pread (some fd) block_size (index * block_size)) >>= λ pread_res.
                elim pread_res [
                  | none ↦ give false
                  | some old ↦
                      put_or_pwrite wr wr.cache_full index (fill_block (some old) from bytes to)
                ])
            else put_or_pwrite wr wr.cache_full index (fill_block none from bytes to)
      ]

  unfoldable pub write_block : Writing → List ℕ → Range → Op os Bool
  unfolding write_uncached put_or_pwrite slice is_block_cached
  write_block wr buf r s =
      let n : ℕ = r.readable_to + 1 - r.readable_from in
      elim (slice buf r.iterator n) [
        | fault e ↦ failed e
        | ok bytes ↦
            if is_block_cached s.cache wr.inode r.index
            then put_or_pwrite wr false r.index
                (record { bdata = bytes; off_start = r.readable_from; rs_to = r.readable_to }) s
            else write_uncached wr r.index r.readable_from r.readable_to bytes s
      ]

  -- The loop, which ends at the first block that fails.
  unfoldable pub write_blocks : Writing → List ℕ → List Range → Op os Unit
  unfolding write_block
  write_blocks wr buf [] = give tt
  write_blocks wr buf (r ∷ rs) =
      let rest = write_blocks wr buf rs in
      write_block wr buf r >>= λ goes_on. if goes_on then rest else give tt

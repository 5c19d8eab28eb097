-- ===== src/Fs/Reads/Uncached.antt =====
-- lazyfs.cpp, `lfs_read`, of blocks that are not cached.
use lazyfs.Base.{
  ℕ, zero, suc, ◌+◌, ◌-◌, ◌*◌, ◌^◌, ◌≤◌, ◌<◌, ◌≡◌, refl, ap, String, true, false, Option, some,
  List, [], ◌∷◌, arith, ltb, leb, nat_eq, length, blit,
}
use native.Mathlib.Nat.{zero-add}
use lazyfs.Base.Run.{ok}
use lazyfs.Os.{Os, Stat}
use lazyfs.Item.{Metadata}
use lazyfs.Cache.{
  Cache, is_block_cached, get_original_inode, has_content_cached, get_content_metadata,
}
use lazyfs.Fs.{Fs, done}
use lazyfs.Fs.Attributes.{lfs_getattr}
use lazyfs.Fs.Hooks.Quiet.{IsQuiet, trigger-before, trigger-after}
use lazyfs.Fs.Writes.{FileInfo, success, Range, ranges, blocks_of, readable_from, readable_to}
use lazyfs.Fs.Writes.Ranges.{Covers, blocks_of-Covers}
use lazyfs.Fs.Reads.{
  Request, Reading, store, read_chunk, join_run, read_blocks, read_all, read_size, read_result,
  lfs_read,
}

-- What is left to cover does not end before it begins.
Covers-le : (b offset it size : ℕ) (rs : List Range) → Covers b offset it size rs → it ≤ size
Covers-le b offset it size [] h = omega (arith, h)
Covers-le b offset it size (r ∷ rs) h =
    let rest = Covers-le b offset (it + (r.readable_to + 1 - r.readable_from)) size rs h.4 in
    omega (arith, rest)

-- The blocks of some ranges are not cached.
abbrev pub AreUncached : Cache → String → List Range → Type 0
AreUncached cache inode [] = Unit {0}
AreUncached cache inode (r ∷ rs) =
    (is_block_cached cache inode r.index ≡ false) × AreUncached cache inode rs

mul_comm : (a b : ℕ) → a * b ≡ b * a
mul_comm a b = grind arith

lt→ltb : (a b : ℕ) → a < b → ltb a b ≡ true
lt→ltb a b h = ground arith

ltb_of_le : (a b : ℕ) → b ≤ a → ltb a b ≡ false
ltb_of_le a b h = ground arith

module _ (os : Os) (q : Request) (s : Fs os) (n : ℕ) (fd : q.fd ≡ some n) (fd_pos : 0 < n) where
  read_blocks-uncached :
      (count index it : ℕ) (r : Reading)
      → q.offset + q.size ≤ q.file_size
      → Covers s.config.io_block_size q.offset it q.size
          (ranges s.config.io_block_size q.offset q.size count index it)
      → AreUncached s.cache q.inode (ranges s.config.io_block_size q.offset q.size count index it)
      → r.last_pread_chunk_size ≡ it
      → read_blocks os q count index r s ≡ done (record r { last_pread_chunk_size = q.size }) s
  unfolding read_blocks ranges
  read_blocks-uncached zero index it r inside c u e =
      let same : r.last_pread_chunk_size ≡ q.size = omega (arith, c) in
      let s1 : Fs os = s in ap (λ (k : ℕ). done (record r { last_pread_chunk_size = k }) s1) same
  read_blocks-uncached (suc count) index it r inside c u e =
      let b : ℕ = s.config.io_block_size in
      let from : ℕ = readable_from b q.offset index in
      let to : ℕ = readable_to b q.offset q.size index in
      let rest = Covers-le b q.offset (it + (to + 1 - from)) q.size _ c.4 in
      let before : ltb (index * b) q.file_size ≡ true =
        lt→ltb _ _ (omega (arith, mul_comm index b, c.1, c.3, rest)) in
      let behind : ltb q.file_size (index * b) ≡ false =
        ltb_of_le _ _ (omega (arith, mul_comm index b, c.1, c.3, rest)) in
      let r1 : Reading = record r {
        last_pread_chunk_size = r.last_pread_chunk_size + (to + 1 - from);
      } in
      let joined : join_run os q b index r ≡ r1 = rw (before, join_run) refl in
      let next =
        read_blocks-uncached count (index + 1) (it + (to + 1 - from)) r1 inside c.4 u.1
          (omega (arith, e)) in
      rw (behind, u.0, fd, lt→ltb 0 n fd_pos, joined) next

blit_nil : (xs : List ℕ) → blit xs 0 [] ≡ xs
blit_nil [] = refl
blit_nil (x ∷ xs) = refl

-- The buffers at the beginning of a read.
abbrev pub fresh : List ℕ → List ℕ → ℕ → Reading
fresh buf unset offset = record {
  buf = buf;
  read_buffer = unset;
  iterator = 0;
  failures = 0;
  last_pread_chunk_size = 0;
  last_pread_chunk_offset = offset;
}

store-front :
    (r : Reading) (bytes : List ℕ)
    → r.iterator ≡ 0
    → r.failures ≡ 0
    → length bytes ≤ length r.buf
    → store r 0 bytes ≡ ok (blit r.buf 0 bytes)
unfolding store
store-front r [] i f h = rw (blit_nil r.buf) refl
store-front r (b ∷ bytes) i f h =
    let fits : leb (r.iterator + 0 + length (b ∷ bytes)) (r.failures + length r.buf) ≡ true =
      ground arith in
    let there : leb r.failures (r.iterator + 0) ≡ true = ground arith in
    let at_ : r.iterator + 0 - r.failures ≡ 0 = omega arith in rw (there, fits, at_) refl

module _ (os : Os) (s : Fs os) (n : ℕ) (fd_pos : 0 < n) (inode : String) (file_size offset : ℕ)
    (buf unset bytes : List ℕ) (w : os.State) (block_pos : 0 < s.config.io_block_size)
    (size_pos : 0 < length buf) (bound : offset + length buf < 2 ^ 64)
    (inside : offset + length buf ≤ file_size) (fits : length bytes ≤ length buf)
    (given : os.pread (some n) (length buf) offset s.world ≡ (some bytes, w)) where
  abbrev asked : Request
  asked = record {
    fd = some n;
    inode = inode;
    offset = offset;
    size = length buf;
    file_size = file_size;
  }

  read_all-uncached :
      AreUncached s.cache inode (blocks_of s.config.io_block_size offset (length buf))
      → read_all os asked (fresh buf unset offset) s
        ≡ done
            (record (fresh (blit buf 0 bytes) unset offset) {
              iterator = length bytes;
              last_pread_chunk_size = length buf;
            })
            (record s { world = w })
  unfolding read_all read_chunk blocks_of
  read_all-uncached u =
      let covers =
        blocks_of-Covers s.config.io_block_size offset (length buf) block_pos size_pos bound in
      let run =
        read_blocks-uncached os asked s n refl fd_pos _ _ 0 (fresh buf unset offset) inside covers u
          refl in
      let r : Reading = record (fresh buf unset offset) { last_pread_chunk_size = length buf } in
      rw
        (
          run,
          lt→ltb 0 (length buf) size_pos,
          read_chunk,
          given,
          store-front r bytes refl refl fits,
          zero-add (length bytes),
        )
        refl

read_size_cached :
    (os : Os) (path inode : String) (meta : Metadata) (s : Fs os)
    → has_content_cached s.cache inode ≡ true
    → get_content_metadata s.cache inode ≡ some meta
    → read_size os path inode s ≡ done meta.size s
unfolding read_size
read_size_cached os path inode meta s has metadata = rw (read_size, has, metadata) refl

read_result_lem :
    (os : Os) (r : Reading) (s : Fs os)
    → r.failures ≡ 0
    → read_result os r s ≡ done (success r.iterator) s
unfolding read_result
read_result_lem os r s h =
    let there : leb r.failures r.iterator ≡ true = ground arith in
    let whole : r.iterator - r.failures ≡ r.iterator = omega arith in rw (there, whole) refl

-- A read through an open descriptor above 0, for which no fault is set, of at least one byte and of bytes
-- that the file has, none of whose blocks is cached. If the attributes can be found, which may
-- enter the file in the cache, and the size that the cache has for the file reaches the end of
-- the read, then the read is one `pread` of all its bytes at its offset: it returns the number
-- of bytes that this gives, and the buffer begins with these bytes and is the old one behind them.
pub lfs_read-uncached :
    (os : Os) (fi : FileInfo) (path inode : String) (unset buf bytes : List ℕ) (offset n : ℕ)
    (s : Fs os) (stats : Option Stat) (cache : Cache) (meta : Metadata) (w w' : os.State)
    → IsQuiet os "read" path s
    → fi.fh ≡ some n
    → 0 < n
    → lfs_getattr os path s ≡ done stats (record s { cache = cache; world = w })
    → get_original_inode cache path ≡ inode
    → has_content_cached cache inode ≡ true
    → get_content_metadata cache inode ≡ some meta
    → offset + length buf ≤ meta.size
    → 0 < s.config.io_block_size
    → 0 < length buf
    → offset + length buf < 2 ^ 64
    → AreUncached cache inode (blocks_of s.config.io_block_size offset (length buf))
    → os.pread (some n) (length buf) offset w ≡ (some bytes, w')
    → length bytes ≤ length buf
    → lfs_read os unset (some fi) path buf offset s
      ≡ done (success (length bytes), blit buf 0 bytes) (record s { cache = cache; world = w' })
unfolding lfs_read
lfs_read-uncached os fi path inode unset buf bytes offset n s stats cache meta w w' q fh n_pos attrs
      ino has metadata inside block_pos size_pos bound uncached given fits =
    let s1 : Fs os = record s { cache = cache; world = w } in
    let s2 : Fs os = record s { cache = cache; world = w' } in
    let run =
      read_all-uncached os s1 n n_pos inode meta.size offset buf unset bytes w' block_pos size_pos
        bound inside fits given uncached in
    let r2 : Reading = record (fresh (blit buf 0 bytes) unset offset) {
      iterator = length bytes;
      last_pread_chunk_size = length buf;
    } in
    let quiet : IsQuiet os "read" path s2 = record {
      before = q.before;
      after = q.after;
      no_fault = q.no_fault;
    } in
    let more : leb meta.size offset ≡ false = ground arith in
    rw
      (
        lfs_read,
        trigger-before os false "read" path "" s q,
        fh,
        attrs,
        ino,
        read_size_cached os path inode meta s1 has metadata,
        more,
        run,
        read_result_lem os r2 s2 refl,
        trigger-after os true "read" path "" s2 quiet,
      )
      refl

-- ===== src/Engine/Hits/RoundTrip.antt =====
-- custom_cache.cpp: what `get_blocks` reads after `allocate_blocks` has overwritten a block.
use lazyfs.Base.{
  ℕ, ◌+◌, ◌^◌, ◌≤◌, ◌<◌, String, ◌≡◌, refl, true, false, Option, some, List, arith, if◌then◌else◌,
  nat_eq, string_eq, ==_refl, length, take, blit,
}
use lazyfs.Base.Assoc.{find, put, find-put}
use lazyfs.Base.Run.{Run, ok, ◌>>=◌}
use lazyfs.Config.{Config, IsSound}
use lazyfs.Os.{Os}
use lazyfs.Page.{Page, get_block_offsets, contains_block, is_page_owner}
use lazyfs.Page.Places.{written, update_block_data-IsValid}
use lazyfs.Page.Blocks.{block_of, block_of-some, block_of-written, window}
use lazyfs.Page.Reads.{get_block_data-first}
use lazyfs.Engine.{Engine, Entry, AllocateOperationType, get_page_ptr, set_page}
use lazyfs.Engine.Lru.{visit_on_read}
use lazyfs.Engine.Allocate.{Request, mark_unsynced, allocate_block, get_block}
use lazyfs.Engine.Hits.{IsHit, IsHit-requested, update-page_after}

-- A read of a block that stands first in its page gives the bytes of the block up to the index.
get_block-hit :
    (c : Config) (e : Engine) (owner : String) (b i : ℕ) (p : Page) (hi r : ℕ) (old : List ℕ)
    → IsSound c
    → IsHit c e owner b i p
    → get_block_offsets p b ≡ some (0, hi)
    → block_of c p b ≡ some old
    → r < c.io_block_size
    → c.io_block_size < 2 ^ 64
    → (e' : Engine) × (get_block c e owner b (some i) r ≡ ok (some (take (r + 1) old), e'))
      × ((j : ℕ) → get_page_ptr e' j ≡ get_page_ptr e j)
unfolding get_block get_page_ptr
get_block-hit c e owner b i p hi r old s h g k l small = (
  (if c.apply_lru_eviction then record e { lru = visit_on_read e.lru i } else e),
  rw (IsHit-requested c e owner b i p h, get_block)
      (rw (get_block_data-first c p b hi r old s h.valid g k l small) refl),
  λ j. ground arith,
)

-- What is read back.
abbrev pub read_back :
    Config → String → ℕ → ℕ → ℕ → (os : Os) → Option ℕ × Engine × os.State → Run (Option (List ℕ))
read_back c owner b i r os (_, e, _) = get_block c e owner b (some i) r >>= λ x. ok x.0

-- For a sound configuration with blocks of at least two and less than 2 ^ 64 bytes, a request
-- that names the page where the block is, which is valid, belongs to the owner and is in the
-- engine's maps with the block, bytes that end within the block, and a block that stands first in
-- its page: the block that `allocate_block` has overwritten is read back by `get_block` up to any
-- index within the block. The read gives the old bytes with the new ones in place from the offset
-- on.
pub allocate_block-get_block :
    (os : Os) (c : Config) (e : Engine) (owner : String) (b i : ℕ) (p : Page) (req : Request)
    (op : AllocateOperationType) (w : os.State) (hi r : ℕ) (old : List ℕ)
    (blocks : List (ℕ × Entry)) (entry : Entry)
    → IsSound c
    → 2 ≤ c.io_block_size
    → c.io_block_size < 2 ^ 64
    → IsHit c e owner b i p
    → req.page_id ≡ some i
    → get_block_offsets p b ≡ some (0, hi)
    → block_of c p b ≡ some old
    → req.offset_start + length req.blk_data ≤ c.io_block_size
    → r < c.io_block_size
    → find owner e.owner_ordered_pages_mapping ≡ some blocks
    → find b blocks ≡ some entry
    → (allocate_block os c e owner b req op w >>= read_back c owner b i r os)
      ≡ ok (some (take (r + 1) (blit old req.offset_start req.blk_data)))
unfolding allocate_block mark_unsynced set_page get_page_ptr get_block_offsets contains_block
    is_page_owner
allocate_block-get_block os c e owner b i p req op w hi r old blocks entry s two small h q g k l lr
      ho hb =
    let p' = written p (0 + req.offset_start) req.blk_data in
    let e' : Engine = record (set_page e i p') {
      owner_ordered_pages_mapping =
          put owner (put b (record entry { is_synced = false }) blocks)
            e.owner_ordered_pages_mapping;
    } in
    let up = update-page_after c e owner b i p s h 0 hi g req.offset_start req.blk_data l two in
    let same : old ≡ window c p 0 = ground (arith, block_of-some c p b 0 hi g) in
    let h' : IsHit c e' owner b i p' = record {
      page = ground (arith, find-put i i p' e.search_index, ==_refl i);
      owned = h.owned;
      held = h.held;
      valid = update_block_data-IsValid c p p' b req.offset_start req.blk_data true s h.valid l up;
    } in
    let after : block_of c p' b ≡ some (blit old req.offset_start req.blk_data) =
      ground
        (arith, same, block_of-written c p b 0 hi s h.valid g b req.offset_start req.blk_data l) in
    let (_, got, _) =
      get_block-hit c e' owner b i p' hi r (blit old req.offset_start req.blk_data) s h' g after lr
        small in
    rw (q, IsHit-requested c e owner b i p h, allocate_block)
      (rw up (rw (ho, hb, mark_unsynced) (rw got refl)))

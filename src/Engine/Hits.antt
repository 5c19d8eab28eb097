-- ===== src/Engine/Hits.antt =====
-- custom_cache.cpp: a block that is in the cache, overwritten by `allocate_blocks` and read back by
-- `get_blocks`.
pub mod RoundTrip
use lazyfs.Base.{
  ℕ, ◌+◌, ◌≤◌, String, ◌≡◌, refl, true, false, ◌&&◌, Option, none, some, List, arith, if◌then◌else◌,
  ◌==◌, nat_eq, string_eq, length, blit,
}
use lazyfs.Base.Assoc.{find, put, find-put}
use lazyfs.Base.Run.{ok}
use lazyfs.Config.{Config, IsSound}
use lazyfs.Os.{Os}
use lazyfs.Page.{Page, get_block_offsets, update_block_data, contains_block, is_page_owner}
use lazyfs.Page.Slots.{IsValid}
use lazyfs.Page.Places.{written, update_block_data-written, get_block_offsets-IsPlace}
use lazyfs.Page.Blocks.{block_of, block_of-none, block_of-some, block_of-written, window}
use lazyfs.Engine.{Engine, Entry, AllocateOperationType, get_page_ptr, set_page, is_block_cached}
use lazyfs.Engine.Allocate.{Request, requested_page, mark_unsynced, allocate_block}

-- The bytes of a block on a page of the engine.
unfoldable pub bytes_at : Config → Engine → ℕ → ℕ → Option (List ℕ)
bytes_at c e i b = elim (get_page_ptr e i) [ none ↦ none | some p ↦ block_of c p b ]

-- A block that is on the page the request names.
pub record IsHit (c : Config) (e : Engine) (owner : String) (b i : ℕ) (p : Page) : Type 0 where
  pub page : get_page_ptr e i ≡ some p
  pub owned : is_page_owner p owner ≡ true
  pub held : contains_block p b ≡ true
  pub valid : IsValid c p

pub IsHit-requested :
    (c : Config) (e : Engine) (owner : String) (b i : ℕ) (p : Page)
    → IsHit c e owner b i p
    → requested_page e owner b (some i) ≡ some (i, p)
unfolding requested_page
IsHit-requested c e owner b i p h = rw (h.page, requested_page) (rw (h.owned, h.held) refl)

module _ (c : Config) (e : Engine) (owner : String) (b i : ℕ) (p : Page) (s : IsSound c)
    (h : IsHit c e owner b i p) (lo hi : ℕ) (g : get_block_offsets p b ≡ some (lo, hi)) (off : ℕ)
    (src : List ℕ) (l : off + length src ≤ c.io_block_size) (two : 2 ≤ c.io_block_size) where
  -- The page after the write.
  abbrev pub page_after : Page
  page_after = written p (lo + off) src

  pub update-page_after : update_block_data c p b src off ≡ ok (true, page_after)
  update-page_after =
      let w = get_block_offsets-IsPlace c p b lo hi s h.valid g in
      update_block_data-written c p b lo hi off src w g l (omega (arith, w.last))

  bytes_at-page_after :
      (j b' : ℕ)
      → bytes_at c (set_page e i page_after) j b'
        ≡ (if i == j && b == b' then some (blit (window c p lo) off src) else bytes_at c e j b')
  unfolding bytes_at set_page get_page_ptr
  bytes_at-page_after j b' = ground (
    arith,
    find-put i j page_after e.search_index,
    h.page,
    block_of-written c p b lo hi s h.valid g b' off src l,
  )

  is_block_cached-page_after :
      (o : String) (j b' : ℕ)
      → is_block_cached (set_page e i page_after) o (some j) b' ≡ is_block_cached e o (some j) b'
  unfolding set_page get_page_ptr is_block_cached is_page_owner contains_block
  is_block_cached-page_after o j b' = ground (arith, find-put i j page_after e.search_index, h.page)

-- For a sound configuration with blocks of at least two bytes, a request that names the page
-- where the block is, which is valid, belongs to the owner and is in the engine's maps with the
-- block, and bytes that end within the block: `allocate_block` returns that page, the block's
-- bytes from the offset on are the new ones, the bytes of every other block of every page are as
-- before, no block enters or leaves the cache, and no system call is made.
pub allocate_block-hit :
    (os : Os) (c : Config) (e : Engine) (owner : String) (b i : ℕ) (p : Page) (r : Request)
    (op : AllocateOperationType) (w : os.State) (old : List ℕ) (blocks : List (ℕ × Entry))
    (entry : Entry)
    → IsSound c
    → 2 ≤ c.io_block_size
    → IsHit c e owner b i p
    → r.page_id ≡ some i
    → block_of c p b ≡ some old
    → r.offset_start + length r.blk_data ≤ c.io_block_size
    → find owner e.owner_ordered_pages_mapping ≡ some blocks
    → find b blocks ≡ some entry
    → (e' : Engine) × (allocate_block os c e owner b r op w ≡ ok (some i, e', w))
      × ((j b' : ℕ)
          → bytes_at c e' j b' ≡ (
              if i == j && b == b'
              then some (blit old r.offset_start r.blk_data)
              else bytes_at c e j b'))
      × ((o : String) (j b' : ℕ)
          → is_block_cached e' o (some j) b' ≡ is_block_cached e o (some j) b')
unfolding allocate_block mark_unsynced is_block_cached bytes_at
allocate_block-hit os c e owner b i p r op w old blocks entry s two h req k l ho hb =
    go (get_block_offsets p b) refl
  where
    go :
        (o : Option (ℕ × ℕ))
        → get_block_offsets p b ≡ o
        → (e' : Engine) × (allocate_block os c e owner b r op w ≡ ok (some i, e', w))
          × ((j b' : ℕ)
              → bytes_at c e' j b' ≡ (
                  if i == j && b == b'
                  then some (blit old r.offset_start r.blk_data)
                  else bytes_at c e j b'))
          × ((o : String) (j b' : ℕ)
              → is_block_cached e' o (some j) b' ≡ is_block_cached e o (some j) b')
    go none g = absurd (ground (arith, block_of-none c p b g))
    go (some (lo, hi)) g =
        let q = written p (lo + r.offset_start) r.blk_data in
        let same : old ≡ window c p lo = ground (arith, block_of-some c p b lo hi g) in
        (
          record (set_page e i q) {
            owner_ordered_pages_mapping =
                put owner (put b (record entry { is_synced = false }) blocks)
                  e.owner_ordered_pages_mapping;
          },
          rw (req, IsHit-requested c e owner b i p h, allocate_block)
              (rw (update-page_after c e owner b i p s h lo hi g r.offset_start r.blk_data l two)
                (rw (ho, hb, mark_unsynced) refl)),
          λ j b'. rw same (
              bytes_at-page_after c e owner b i p s h lo hi g r.offset_start r.blk_data l two j b'),
          λ o j b'.
              is_block_cached-page_after c e owner b i p s h lo hi g r.offset_start r.blk_data l two
                o j b',
        )

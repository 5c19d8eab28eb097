-- ===== src/Tests/Engines.antt =====
-- The theorems on the page cache engine at concrete inputs.
use lazyfs.Base.{
  ℕ, String, ◌+◌, ◌≡◌, refl, false, true, none, some, List, [], ◌∷◌, arith, nat_eq, string_eq,
  if◌then◌else◌, ◌==◌, ◌&&◌, elem, count, blit, All,
}
use lazyfs.Base.Assoc.{find}
use lazyfs.Base.Run.{ok, ◌>>=◌}
use lazyfs.Page.{get_block_offsets, is_page_owner, contains_block}
use lazyfs.Page.Blocks.{block_of}
use lazyfs.Engine.{Engine, op_write, get_page_ptr, is_block_cached}
use lazyfs.Engine.Lru.{LruState, visit_on_write}
use lazyfs.Engine.Lru.Order.{IsLru, visit_on_write-IsLru}
use lazyfs.Engine.Allocate.{Request, allocate_block, requested_page}
use lazyfs.Engine.Hits.{IsHit, bytes_at, allocate_block-hit}
use lazyfs.Engine.Hits.RoundTrip.{read_back, allocate_block-get_block}
use lazyfs.Engine.FullPage.{IsFull, allocate_block-lost}
use lazyfs.Engine.SyncPages.{streaks}
use lazyfs.Engine.SyncPages.Runs.{concat, IsRun, streaks_lem}
use lazyfs.Engine.Release.{remove_cached_blocks}
use lazyfs.Engine.Release.Removal.{remove_cached_blocks-freed}
use lazyfs.Tests.Data.{
  small, small-IsSound, quiet, filled, filled-IsValid, engine, entry, owned_blocks,
}

-- The page 1 was used before the page 0; two pages are as many as there may be.
abbrev used : LruState
used = record {
  lru_main_vector = (5, 0) ∷ (3, 1) ∷ [];
  page_order_mapping = (1, 3) ∷ (0, 5) ∷ [];
  next_node = 6;
}

used-IsLru : IsLru used
used-IsLru = record {
  leads = λ p i h. ground arith;
  known = λ i p h. ground arith;
  unique = (refl, (refl, tt));
  fresh = λ i h. ground arith;
}

-- The page 1, which was used longest ago, leaves the list.
visit_on_write-drops : visit_on_write small used 2 ≡ record {
  lru_main_vector = (6, 2) ∷ (5, 0) ∷ [];
  page_order_mapping = (0, 5) ∷ (2, 6) ∷ [];
  next_node = 7;
}
unfolding visit_on_write
visit_on_write-drops = refl

visit_on_write-IsLru_example : IsLru (visit_on_write small used 2)
visit_on_write-IsLru_example = visit_on_write-IsLru small used 2 used-IsLru

hit : IsHit small engine "7" 5 0 filled
unfolding get_page_ptr is_page_owner contains_block
hit = record { page = refl; owned = refl; held = refl; valid = filled-IsValid }

abbrev request : Request
request = record { page_id = some 0; blk_data = 9 ∷ []; offset_start = 1 }

allocate_block-hit_example :
    (e' : Engine) × (allocate_block quiet small engine "7" 5 request op_write tt
      ≡ ok (some 0, e', tt))
    × ((j b' : ℕ)
        → bytes_at small e' j b' ≡ (
            if 0 == j && 5 == b'
            then some (blit (0 ∷ 0 ∷ []) 1 (9 ∷ []))
            else bytes_at small engine j b'))
    × ((o : String) (j b' : ℕ)
        → is_block_cached e' o (some j) b' ≡ is_block_cached engine o (some j) b')
unfolding block_of get_block_offsets
allocate_block-hit_example =
    allocate_block-hit quiet small engine "7" 5 0 filled request op_write tt (0 ∷ 0 ∷ [])
      owned_blocks entry small-IsSound (omega arith) hit refl refl (omega arith) refl refl

IsHit-first : IsHit small engine "7" 6 0 filled
unfolding get_page_ptr is_page_owner contains_block
IsHit-first = record { page = refl; owned = refl; held = refl; valid = filled-IsValid }

allocate_block-get_block_example :
    (allocate_block quiet small engine "7" 6 request op_write tt
      >>= read_back small "7" 6 0 1 quiet)
    ≡ ok (some (0 ∷ 9 ∷ []))
unfolding block_of get_block_offsets
allocate_block-get_block_example =
    allocate_block-get_block quiet small engine "7" 6 0 filled request op_write tt 1 1 (0 ∷ 0 ∷ [])
      owned_blocks (record entry { offsets = some (0, 1) }) small-IsSound (omega arith)
      (omega arith) IsHit-first refl refl refl (omega arith) (omega arith) refl refl

full : IsFull engine "7" 8 0 filled
unfolding get_page_ptr get_block_offsets
full = record {
  pages = 0 ∷ [];
  others = [];
  blocks = owned_blocks;
  owns = refl;
  next = refl;
  ordered = refl;
  page = refl;
  owned = refl;
  full = refl;
  lacks = refl;
}

allocate_block-lost_example :
    (e' : Engine) × (allocate_block quiet small engine "7" 8
        (record request { page_id = none })
        op_write
        tt
      ≡ ok (some 0, e', tt))
    × (is_block_cached e' "7" (some 0) 8 ≡ false)
unfolding requested_page
allocate_block-lost_example =
    allocate_block-lost quiet small engine "7" 8 0 filled (record request { page_id = none })
      op_write tt full refl

abbrev dirty : List (ℕ × ℕ)
dirty = (1, 10) ∷ (2, 20) ∷ (3, 30) ∷ (7, 70) ∷ []

streaks_lem_example : (concat (streaks 2 [] dirty) ≡ dirty) × All (IsRun 2) (streaks 2 [] dirty)
streaks_lem_example = streaks_lem 2 dirty (omega arith)

-- A run is cut at two blocks, and where block 4 is missing.
streaks_runs : streaks 2 [] dirty ≡ ((1, 10) ∷ (2, 20) ∷ []) ∷ ((3, 30) ∷ []) ∷ ((7, 70) ∷ []) ∷ []
unfolding streaks
streaks_runs = refl

remove_cached_blocks-freed_example :
    (e' : Engine) × (remove_cached_blocks small engine "7" ≡ ok e')
    × ((i b : ℕ) (o : String) → elem i (0 ∷ []) ≡ true → is_block_cached e' o (some i) b ≡ false)
    × ((i : ℕ) → elem i (0 ∷ []) ≡ false → get_page_ptr e' i ≡ get_page_ptr engine i)
    × ((i : ℕ) → count i e'.free_pages ≡ count i engine.free_pages + count i (0 ∷ []))
    × (find "7" e'.owner_pages_mapping ≡ none)
remove_cached_blocks-freed_example =
    remove_cached_blocks-freed small engine "7" (0 ∷ []) refl (refl, tt)

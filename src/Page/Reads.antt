-- ===== src/Page/Reads.antt =====
-- page.cpp: what `get_block_data` copies, in the first slot of a page and in a later one.
use lazyfs.Base.{
  ℕ, ◌+◌, ◌-◌, ◌%◌, ◌^◌, ◌<◌, ◌≡◌, ap, ◌∙◌, ◌≢◌, some, List, arith, nat_eq, string_eq, length, take,
  drop, length-take, length-drop,
}
use lazyfs.Base.Run.{ok, Run, fault}
use lazyfs.Config.{Config, IsSound}
use lazyfs.Page.{Page, get_block_data, get_block_offsets}
use lazyfs.Page.Slots.{IsValid}
use lazyfs.Page.Places.{get_block_offsets-IsPlace}
use lazyfs.Page.Blocks.{window, block_of, block_of-some}
use lazyfs.Base.Windows.{window_take}

-- For a sound configuration and a valid page, a block that lies in the first slot, and an index
-- within the block, the read gives the bytes of the block up to the index. The block size is
-- below 2 ^ 64.
pub get_block_data-first :
    (c : Config) (p : Page) (b hi r : ℕ) (old : List ℕ)
    → IsSound c
    → IsValid c p
    → get_block_offsets p b ≡ some (0, hi)
    → block_of c p b ≡ some old
    → r < c.io_block_size
    → c.io_block_size < 2 ^ 64
    → get_block_data p b r ≡ ok (take (r + 1) old)
unfolding get_block_data
get_block_data-first c p b hi r old s v g e h small = ground (
  arith,
  block_of-some c p b 0 hi g,
  (get_block_offsets-IsPlace c p b 0 hi s v g).fits,
  window_take c.io_block_size (r + 1) p.page_data,
)

-- The number of bytes that a read gives.
abbrev got : Run (List ℕ) → ℕ
got (ok xs) = length xs
got (fault e) = 0

got-get_block_data :
    (p : Page) (b lo hi r : ℕ)
    → get_block_offsets p b ≡ some (lo, hi)
    → 0 < lo
    → lo + length p.page_data < 2 ^ 64
    → got (get_block_data p b r) < r + 1
unfolding get_block_data
got-get_block_data p b lo hi r g pos small = ground (
  arith,
  length-take ((2 ^ 64 + (r + 1) - lo) % 2 ^ 64) (drop lo p.page_data),
  length-drop lo p.page_data,
)

-- For a sound configuration and a valid page, a block that lies in a slot other than the first,
-- and an index within the block, the read never gives the bytes of the block up to the index. The
-- page size is below 2 ^ 63.
pub get_block_data-later :
    (c : Config) (p : Page) (b lo hi r : ℕ) (old : List ℕ)
    → IsSound c
    → IsValid c p
    → get_block_offsets p b ≡ some (lo, hi)
    → 0 < lo
    → block_of c p b ≡ some old
    → r < c.io_block_size
    → c.cache_page_size < 2 ^ 63
    → get_block_data p b r ≢ ok (take (r + 1) old)
get_block_data-later c p b lo hi r old s v g pos e h small eq =
    let w = get_block_offsets-IsPlace c p b lo hi s v g in
    let len : ℕ = (2 ^ 64 + (r + 1) - lo) % 2 ^ 64 in
    let o : old ≡ window c p lo = ground (arith, block_of-some c p b lo hi g) in
    let q : got (get_block_data p b r) ≡ length (take (r + 1) (window c p lo)) =
      ap got eq ∙ ap (λ t. length (take (r + 1) t)) o in
    let n : got (get_block_data p b r) < r + 1 =
      got-get_block_data p b lo hi r g pos (ground (arith, w.fits, v.sized)) in
    omega (
      arith,
      q,
      n,
      w.fits,
      length-take (r + 1) (window c p lo),
      length-take c.io_block_size (drop lo p.page_data),
      length-drop lo p.page_data,
    )

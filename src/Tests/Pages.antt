-- ===== src/Tests/Pages.antt =====
-- The theorems on pages and items at concrete inputs.
use lazyfs.Base.{◌≡◌, ◌≢◌, refl, true, none, some, [], ◌∷◌, arith, nat_eq, string_eq}
use lazyfs.Base.Run.{ok}
use lazyfs.Page.{
  Page, get_allocate_free_offset, update_block_data, get_block_offsets, contains_block,
  remove_block, get_block_data,
}
use lazyfs.Page.Slots.{IsValid}
use lazyfs.Page.Places.{remove_block-IsValid, written}
use lazyfs.Page.Blocks.{block_of, block_of-update_block_data, block_of-get_allocate_free_offset}
use lazyfs.Page.Removal.{block_of-remove_block}
use lazyfs.Page.Reads.{get_block_data-later}
use lazyfs.Tests.Data.{small, small-IsSound, upper, upper-IsValid, filled, filled-IsValid}

remove_block-IsValid_example : IsValid small (remove_block small filled 5)
remove_block-IsValid_example = remove_block-IsValid small filled 5 small-IsSound filled-IsValid

block_of-update_block_data_example :
    (q : Page) × (update_block_data small filled 5 (9 ∷ []) 1 ≡ ok (true, q))
    × (block_of small q 5 ≡ some (0 ∷ 9 ∷ []))
unfolding block_of get_block_offsets
block_of-update_block_data_example =
    block_of-update_block_data small filled 5 5 1 (0 ∷ 0 ∷ []) (9 ∷ []) small-IsSound filled-IsValid
      (omega arith) refl (omega arith)

block_of-get_allocate_free_offset_example :
    block_of small (get_allocate_free_offset small upper 6).1 6 ≡ some (0 ∷ 0 ∷ [])
unfolding contains_block
block_of-get_allocate_free_offset_example =
    block_of-get_allocate_free_offset small upper 6 6 small-IsSound upper-IsValid refl (omega arith)

block_of-remove_block_example : block_of small (remove_block small filled 5) 5 ≡ none
block_of-remove_block_example = block_of-remove_block small filled 5 5 small-IsSound filled-IsValid

get_block_data-later_example : get_block_data filled 5 1 ≢ ok (0 ∷ 0 ∷ [])
unfolding get_block_offsets block_of
get_block_data-later_example =
    get_block_data-later small filled 5 2 3 1 (0 ∷ 0 ∷ []) small-IsSound filled-IsValid refl
      (omega arith) refl (omega arith) (omega arith)

-- A block in the second slot is not read at all: the page holds the bytes 8 and 9 of it.
get_block_data_short : get_block_data (written filled 2 (8 ∷ 9 ∷ [])) 5 1 ≡ ok []
unfolding get_block_data
get_block_data_short = refl

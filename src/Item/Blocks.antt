-- ===== src/Item/Blocks.antt =====
-- libs/libpcache/src/item/data.cpp and block_info.cpp: the blocks of a file, with the page that
-- each is on and the last byte that is readable. A page number that is -1 is `none`.
use lazyfs.Base.{
  ℕ, nat_eq, ◌-◌, ltb, leb, Option, some, none, Bool, max, List, [], ◌∷◌, if◌then◌else◌, ◌==◌,
  string_eq, length,
}
use lazyfs.Base.Assoc.{find, contains, erase, put}
use lazyfs.Base.Run.{Run, or_fault, null_pointer, ◌>>=◌, ok}

pub record BlockInfo : Type 0 where
  pub page_index_number : Option ℕ
  pub readable_offset : ℕ × ℕ

abbrev pub new_block_info : BlockInfo
new_block_info = record { page_index_number = none; readable_offset = (0, 0) }

unfoldable pub set_page_index_number : BlockInfo → ℕ → BlockInfo
set_page_index_number b page_id = record b { page_index_number = some page_id }

-- The offset only grows. The result is the offset afterwards.
unfoldable pub make_readable_to : BlockInfo → ℕ → ℕ × BlockInfo
make_readable_to b to =
    if ltb b.readable_offset.1 to
    then (to, record b { readable_offset = (b.readable_offset.0, to) })
    else (b.readable_offset.1, b)

unfoldable pub truncate_readable_to : BlockInfo → ℕ → BlockInfo
truncate_readable_to b to = record b { readable_offset = (b.readable_offset.0, to) }

pub record Data : Type 0 where
  pub blocks : List (ℕ × BlockInfo)

abbrev pub empty : Data
empty = record { blocks = [] }

unfoldable pub get_page_id : Data → ℕ → Option ℕ
get_page_id d blk_id = elim (find blk_id d.blocks) [ none ↦ none | some b ↦ b.page_index_number ]

unfoldable pub has_block : Data → ℕ → Bool
has_block d blk_id = contains blk_id d.blocks

-- A `BlockInfo` that is there is changed in place.
unfoldable pub set_block_page_id : Data → ℕ → ℕ → ℕ → ℕ × Data
unfolding set_page_index_number make_readable_to
set_block_page_id d blk_id allocated_page readable_to =
    let block_info : BlockInfo = elim (find blk_id d.blocks) [
      | none ↦ new_block_info
      | some b ↦ b
    ] in
    let (max, info) =
      make_readable_to (set_page_index_number block_info allocated_page) readable_to in
    (max, record d { blocks = put blk_id info d.blocks })

unfoldable pub remove_block : Data → ℕ → Data
remove_block d blk_id = record d { blocks = erase blk_id d.blocks }

unfoldable pub get_readable_offsets : Data → ℕ → Run (ℕ × ℕ)
get_readable_offsets d blk_id =
    or_fault null_pointer (find blk_id d.blocks) >>= λ b. ok b.readable_offset

unfoldable pub remove_all_blocks : Data → Data
remove_all_blocks d = empty

-- The loop of `truncate_blocks_after`: the blocks from `blk_id` on with their pages, and the
-- blocks that stay.
unfoldable pub truncate_loop :
    ℕ → ℕ → List (ℕ × BlockInfo) → List (ℕ × Option ℕ) × List (ℕ × BlockInfo)
unfolding truncate_readable_to
truncate_loop blk_id blk_byte_index [] = ([], [])
truncate_loop blk_id blk_byte_index ((b_id, info) ∷ rest) =
    let (res, blocks) = truncate_loop blk_id blk_byte_index rest in
    if leb blk_id b_id
    then (if ltb blk_id b_id
        then ((b_id, info.page_index_number) ∷ res, blocks)
        else if blk_byte_index == 0
        then ((b_id, info.page_index_number) ∷ res, blocks)
        else (
          (b_id, info.page_index_number) ∷ res,
          (b_id, truncate_readable_to info (blk_byte_index - 1)) ∷ blocks,
        ))
    else (res, (b_id, info) ∷ blocks)

unfoldable pub truncate_blocks_after : Data → ℕ → ℕ → List (ℕ × Option ℕ) × Data
unfolding truncate_loop
truncate_blocks_after d blk_id blk_byte_index =
    let (res, blocks) = truncate_loop blk_id blk_byte_index d.blocks in
    (res, record d { blocks = blocks })

unfoldable pub count_blocks : Data → ℕ
count_blocks d = length d.blocks

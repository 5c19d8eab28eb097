-- ===== src/Page/Offsets.antt =====
-- libs/libpcache/src/engine/page/block_offsets.cpp: which part of a page a block has, and up to
-- which byte it is readable. An `int` that is -1 or an offset is an option.
use lazyfs.Base.{ℕ, Bool, Option, none, some, List, [], ◌∷◌, nat_eq, length, true, false, string_eq}
use lazyfs.Base.Assoc.{find, contains, erase, put, insert, insert_sorted}
use lazyfs.Base.Run.{Run, or_fault, out_of_range}

pub record BlockOffsets : Type 0 where
  pub block_offset_mapping : List (ℕ × (ℕ × ℕ))
  pub block_readable_to : List (ℕ × Option ℕ)

unfoldable pub contains_block : BlockOffsets → ℕ → Bool
contains_block o block_id = contains block_id o.block_offset_mapping

abbrev pub reset : BlockOffsets
reset = record { block_offset_mapping = []; block_readable_to = [] }

-- `none` is the pair (-1, -1).
unfoldable pub get_block_offsets : BlockOffsets → ℕ → Option (ℕ × ℕ)
get_block_offsets o block_id = find block_id o.block_offset_mapping

unfoldable pub get_nr_blocks : BlockOffsets → ℕ
get_nr_blocks o = length o.block_offset_mapping

-- `insert` leaves an entry as it is, so nothing is updated.
unfoldable pub insert_or_update_block_offsets : BlockOffsets → ℕ → ℕ × ℕ → BlockOffsets
insert_or_update_block_offsets o block_id offsets = record {
  block_offset_mapping = insert block_id offsets o.block_offset_mapping;
  block_readable_to = insert block_id none o.block_readable_to;
}

unfoldable pub make_readable_to : BlockOffsets → ℕ → ℕ → BlockOffsets
make_readable_to o blk_id max_offset = record o {
  block_readable_to = put blk_id (some max_offset) o.block_readable_to;
}

-- The copy into a `std::map`, in the order of the keys.
unfoldable pub sort_entries {ℓ} : {V : Type ℓ} → List (ℕ × V) → List (ℕ × V)
sort_entries [] = []
sort_entries ((k, v) ∷ m) = insert_sorted k v (sort_entries m)

unfoldable pub get_block_readable_offsets : BlockOffsets → List (ℕ × Option ℕ)
get_block_readable_offsets o = sort_entries o.block_readable_to

unfoldable pub get_readable_to : BlockOffsets → ℕ → Run (Option ℕ)
get_readable_to o block_id = or_fault out_of_range (find block_id o.block_readable_to)

unfoldable pub remove_block : BlockOffsets → ℕ → BlockOffsets
remove_block o blk_id = record {
  block_offset_mapping = erase blk_id o.block_offset_mapping;
  block_readable_to = erase blk_id o.block_readable_to;
}

unfoldable pub empty : BlockOffsets → Bool
empty o = elim o.block_offset_mapping [ [] ↦ true | _ ∷ _ ↦ false ]

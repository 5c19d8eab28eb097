-- ===== src/Tests/Caches.antt =====
-- The theorems on the cache and its items at concrete inputs.
use lazyfs.Base.{◌≡◌, refl, true, some, [], ◌∷◌, arith, nat_eq, string_eq}
use lazyfs.Base.Assoc.{find}
use lazyfs.Base.Run.{ok}
use lazyfs.Item.Blocks.{Data, truncate_blocks_after}
use lazyfs.Item.Truncate.{truncate_blocks_after-find}
use lazyfs.Engine.Release.Removal.{IsKnown}
use lazyfs.Cache.{Cache}
use lazyfs.Cache.Files.{clear_all_cache, rename_item}
use lazyfs.Cache.Clear.{clear_all_cache-empty}
use lazyfs.Cache.Rename.{IsRenamed, rename_item-IsRenamed}
use lazyfs.Tests.Data.{small, engine, cache}

abbrev content : Data
content = record {
  blocks =
      (0, record { page_index_number = some 4; readable_offset = (0, 1) })
      ∷ (1, record { page_index_number = some 5; readable_offset = (0, 1) })
      ∷ (2, record { page_index_number = some 6; readable_offset = (0, 0) })
      ∷ [];
}

truncate_blocks_after-find_example :
    let (res, d') = truncate_blocks_after content 1 1 in
    (find 1 res ≡ some (some 5))
    × (find 1 d'.blocks ≡ some (record { page_index_number = some 5; readable_offset = (0, 0) }))
truncate_blocks_after-find_example = truncate_blocks_after-find content 1 1 1

pub engine-IsKnown : IsKnown engine
engine-IsKnown o pages h = ground (arith, string_eq.same_iff "7" o)

clear_all_cache-empty_example :
    (s' : Cache) × (clear_all_cache small cache ≡ ok s') × (s'.contents ≡ []) × IsKnown s'.engine
clear_all_cache-empty_example = clear_all_cache-empty small cache engine-IsKnown

rename_item-IsRenamed_example :
    (s' : Cache) × (rename_item small cache "a" "b" ≡ ok (true, s'))
    × IsRenamed cache "a" "b" "7" s'
rename_item-IsRenamed_example = rename_item-IsRenamed small cache "a" "b" "7" engine-IsKnown refl

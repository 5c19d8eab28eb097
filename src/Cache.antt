-- ===== src/Cache.antt =====
-- libs/libpcache/src/cache.cpp: the cache, which joins the items of the files, the page cache engine
-- and the map from paths to inodes. `lock_cache_mtx` and the items' locks make each method one
-- step, so that `item_locks` has no place in the state. An `Item *` is the item's key in `contents`.
pub mod Blocks
pub mod Files
pub mod Clear
pub mod Rename
use lazyfs.Base.{
  ℕ, ◌+◌, String, Bool, true, false, Option, none, some, List, [], ◌∷◌, if◌then◌else◌, ◌==◌, nat_eq,
  string_eq,
}
use lazyfs.Base.Assoc.{find, contains, put, insert, erase}
use lazyfs.Engine
use lazyfs.Engine.{Engine}
use lazyfs.Item
use lazyfs.Item.{Item, Metadata, new_item, new_metadata}
use lazyfs.Item.Blocks.{get_page_id}

pub record Cache : Type 0 where
  pub engine : Engine
  pub contents : List (String × Item)
  pub file_inode_mapping : List (String × String)

unfoldable pub get_original_inode : Cache → String → String
get_original_inode s path = elim (find path s.file_inode_mapping) [ none ↦ "" | some inode ↦ inode ]

unfoldable pub has_content_cached : Cache → String → Bool
has_content_cached s cid = contains cid s.contents

unfoldable pub get_content : Cache → String → Option Item
get_content s cid = find cid s.contents

-- A change of an item through its pointer.
unfoldable pub set_item : Cache → String → Item → Cache
set_item s cid item = record s { contents = put cid item s.contents }

-- The result is true if the content was found and its metadata updated.
unfoldable pub update_content_metadata : Cache → String → Metadata → List String → Bool × Cache
unfolding get_content set_item Item.update_metadata
update_content_metadata s cid new_meta values_to_update = elim (get_content s cid) [
  | none ↦ (false, s)
  | some item ↦ (true, set_item s cid (Item.update_metadata item new_meta values_to_update))
]

unfoldable pub get_content_metadata : Cache → String → Option Metadata
unfolding get_content
get_content_metadata s cid = elim (get_content s cid) [
  | none ↦ none
  | some item ↦ some item.metadata
]

unfoldable pub insert_inode_mapping : Cache → String → String → Bool → Cache
unfolding get_content_metadata update_content_metadata
insert_inode_mapping s path inode increase =
    let s' : Cache = record s { file_inode_mapping = put path inode s.file_inode_mapping } in
    if increase
    then elim (get_content_metadata s' inode) [
      | none ↦ s'
      | some oldmeta ↦
          (update_content_metadata s' inode (record new_metadata { nlinks = oldmeta.nlinks + 1 })
            ("nlinks" ∷ [])).1
    ]
    else s'

unfoldable pub is_block_cached : Cache → String → ℕ → Bool
unfolding get_content get_page_id Engine.is_block_cached
is_block_cached s cid blk_id = elim (get_content s cid) [
  | none ↦ false
  | some item ↦ Engine.is_block_cached s.engine cid (get_page_id item.content blk_id) blk_id
]

unfoldable pub create_item : Cache → String → Cache
create_item s cid = record s { contents = insert cid new_item s.contents }

unfoldable pub delete_item : Cache → String → Cache
delete_item s cid = record s { contents = erase cid s.contents }

-- The paths of an inode.
unfoldable pub find_files_mapped_to_inode : String → List (String × String) → List String
find_files_mapped_to_inode inode [] = []
find_files_mapped_to_inode inode ((path, i) ∷ mapping) =
    let rest = find_files_mapped_to_inode inode mapping in if i == inode then path ∷ rest else rest

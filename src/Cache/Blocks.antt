-- ===== src/Cache/Blocks.antt =====
-- cache.cpp: the blocks of a file, put (`put_data_blocks`) and got (`get_data_blocks`).
use lazyfs.Base.{
  ℕ, ◌-◌, String, Bool, true, false, ◌||◌, Option, none, some, List, [], ◌∷◌, if◌then◌else◌, nat_eq,
  string_eq,
}
use lazyfs.Base.Assoc.{find}
use lazyfs.Base.Run.{Run, ok, out_of_range, null_pointer, or_fault, ◌>>=◌}
use lazyfs.Config.{Config}
use lazyfs.Os.{Os}
use lazyfs.Engine
use lazyfs.Engine.{Engine, AllocateOperationType}
use lazyfs.Engine.Allocate.{Request, allocate_blocks, get_blocks, make_block_readable_to_offset}
use lazyfs.Item.{Item, set_data_sync_flag}
use lazyfs.Item.Blocks
use lazyfs.Item.Blocks.{Data, get_page_id, has_block, set_block_page_id, get_readable_offsets}
use lazyfs.Cache.{Cache, get_content, create_item, set_item}

-- What is put: bytes, where they begin in the block and the last byte that is to be readable.
pub record Block : Type 0 where
  pub bdata : List ℕ
  pub off_start : ℕ
  pub rs_to : ℕ

-- The first loop. A block that the item does not have, as in a new item, is on page -1.
unfoldable pub put_mapping : Data → List (ℕ × Block) → List (ℕ × Request)
unfolding get_page_id
put_mapping d [] = []
put_mapping d ((bid, b) ∷ rest) =
    (bid, record { page_id = get_page_id d bid; blk_data = b.bdata; offset_start = b.off_start })
    ∷ put_mapping d rest

-- The second loop: the item learns the pages, and the engine the offsets that are readable.
unfoldable pub record_allocations :
    String
    → List (ℕ × Block)
    → List (ℕ × Option ℕ)
    → Engine
    → Data
    → Run (List (ℕ × Bool) × Engine × Data)
unfolding set_block_page_id Blocks.remove_block make_block_readable_to_offset
record_allocations cid blocks [] e d = ok ([], e, d)
record_allocations cid blocks ((bid, none) ∷ rest) e d = do
  _ ← or_fault out_of_range (find bid blocks)
  (put_res, e', d') ← record_allocations cid blocks rest e (Blocks.remove_block d bid)
  ok ((bid, false) ∷ put_res, e', d')
record_allocations cid blocks ((bid, some allocated_page) ∷ rest) e d = do
  b ← or_fault out_of_range (find bid blocks)
  let (max_offset, d1) = set_block_page_id d bid allocated_page b.rs_to
  e1 ← make_block_readable_to_offset e cid allocated_page bid max_offset
  (put_res, e', d') ← record_allocations cid blocks rest e1 d1
  ok ((bid, true) ∷ put_res, e', d')

-- Whether a block got a page.
abbrev pub any_allocated : List (ℕ × Bool) → Bool
any_allocated [] = false
any_allocated ((_, b) ∷ rest) = b || any_allocated rest

-- The result says of each block whether it is in the cache now.
unfoldable pub put_data_blocks :
    (os : Os)
    → Config
    → Cache
    → String
    → List (ℕ × Block)
    → AllocateOperationType
    → os.State
    → Run (List (ℕ × Bool) × Cache × os.State)
unfolding get_content set_item create_item put_mapping record_allocations allocate_blocks
    set_data_sync_flag
put_data_blocks os c s cid blocks operation_type w = do
  let s1 : Cache = elim (get_content s cid) [ none ↦ create_item s cid | some _ ↦ s ]
  item ← or_fault null_pointer (get_content s1 cid)
  (allocations, e, w') ←
      allocate_blocks os c s1.engine cid (put_mapping item.content blocks) operation_type w
  (put_res, e', d) ← record_allocations cid blocks allocations e item.content
  let item' : Item = record item { content = d }
  ok (
    put_res,
    record (set_item s1 cid
        (if any_allocated put_res then set_data_sync_flag item' false else item')) { engine = e' },
    w',
  )

-- The blocks that the item has, each with its page and the last offset of a block.
unfoldable pub get_mapping : Config → Data → List ℕ → List (ℕ × (Option ℕ × ℕ))
unfolding has_block get_page_id
get_mapping c d [] = []
get_mapping c d (blk_id ∷ rest) =
    let mapping = get_mapping c d rest in
    if has_block d blk_id
    then (blk_id, (get_page_id d blk_id, c.io_block_size - 1)) ∷ mapping
    else mapping

-- `_get_readable_offsets`
unfoldable pub readable_offsets : Engine → String → Data → ℕ → Run (ℕ × ℕ)
unfolding get_page_id get_readable_offsets Engine.is_block_cached
readable_offsets e cid d blk_id =
    if Engine.is_block_cached e cid (get_page_id d blk_id) blk_id
    then get_readable_offsets d blk_id
    else ok (0, 0)

-- The second loop: a block that the engine does not have leaves the item.
unfoldable pub collect :
    Engine
    → String
    → List (ℕ × Option (List ℕ))
    → Data
    → Run (List (ℕ × Option (List ℕ) × (ℕ × ℕ)) × Data)
unfolding readable_offsets Blocks.remove_block
collect e cid [] d = ok ([], d)
collect e cid ((blk_id, bytes) ∷ rest) d = do
  let d1 : Data = elim bytes [ none ↦ Blocks.remove_block d blk_id | some _ ↦ d ]
  offsets ← readable_offsets e cid d1 blk_id
  (cache_res, d') ← collect e cid rest d1
  ok ((blk_id, bytes, offsets) ∷ cache_res, d')

-- The bytes that the engine copies to a block's buffer, or `none` for false, and the offsets.
unfoldable pub get_data_blocks :
    Config → Cache → String → List ℕ → Run (List (ℕ × Option (List ℕ) × (ℕ × ℕ)) × Cache)
unfolding get_content set_item get_mapping get_blocks collect
get_data_blocks c s cid blocks = elim (get_content s cid) [
  | none ↦ ok ([], s)
  | some item ↦ (do
    (res, e) ← get_blocks c s.engine cid (get_mapping c item.content blocks)
    (cache_res, d) ← collect e cid res item.content
    ok (cache_res, record (set_item s cid (record item { content = d })) { engine = e }))
]

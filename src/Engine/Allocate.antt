-- ===== src/Engine/Allocate.antt =====
-- custom_cache.cpp: putting blocks into pages (`allocate_blocks`) and reading them (`get_blocks`).
-- A map from block ids is the list of its entries in order.
use lazyfs.Base.{
  ℕ, string_eq, nat_eq, remove, set_insert, String, true, false, ◌&&◌, Option, none, some, List, [],
  ◌∷◌, if◌then◌else◌, ◌==◌,
}
use lazyfs.Base.Assoc.{find, erase, put, insert, insert_sorted}
use lazyfs.Base.Run.{Run, ok, out_of_range, null_pointer, or_fault, ◌>>=◌}
use lazyfs.Config.{Config}
use lazyfs.Os.{Os}
use lazyfs.Page
use lazyfs.Page.{Page}
use lazyfs.Engine.Lru.{visit_on_write, visit_on_read}
use lazyfs.Engine.{
  Engine, Entry, AllocateOperationType, op_write, get_page_ptr, set_page, modify_at,
  get_next_free_page,
}

-- The pages of the old owner without the page that it loses. An owner without pages is forgotten.
unfoldable pub lose_page : Engine → String → ℕ → ℕ → List ℕ → Run Engine
lose_page e real_owner page_id block_id pages = do
  ordered ← modify_at real_owner (erase block_id) e.owner_ordered_pages_mapping
  let left = remove page_id pages
  ok (elim left [
    | [] ↦ record e {
      owner_pages_mapping = erase real_owner e.owner_pages_mapping;
      owner_free_pages_mapping = erase real_owner e.owner_free_pages_mapping;
      owner_ordered_pages_mapping = erase real_owner ordered;
    }
    | p ∷ ps ↦ record e {
      owner_pages_mapping = put real_owner (p ∷ ps) e.owner_pages_mapping;
      owner_ordered_pages_mapping = ordered;
    }
  ])

-- `_update_owner_pages` up to the update of the new owner's maps: the page changes hands.
unfoldable pub take_over : Engine → String → ℕ → ℕ → Page → Run Engine
unfolding set_page Page.change_owner lose_page
take_over e new_owner page_id block_id p =
    if p.page_owner_id == new_owner
    then ok e
    else (let e' = set_page e page_id (Page.change_owner p new_owner) in
        elim (find p.page_owner_id e.owner_pages_mapping) [
          | none ↦ ok e'
          | some pages ↦ lose_page e' p.page_owner_id page_id block_id pages
        ])

-- The update of the new owner's maps.
unfoldable pub record_owner : Engine → String → ℕ → ℕ → Option (ℕ × ℕ) → Run Engine
record_owner e new_owner page_id block_id offsets =
    let entry : Entry = record { page_id = page_id; offsets = offsets; is_synced = false } in
    elim (find new_owner e.owner_pages_mapping) [
      | some pages ↦ (do
        ordered ← modify_at new_owner (insert_sorted block_id entry) e.owner_ordered_pages_mapping
        ok (record e {
          owner_pages_mapping = put new_owner (set_insert page_id pages) e.owner_pages_mapping;
          owner_ordered_pages_mapping = ordered;
        }))
      | none ↦ ok (record e {
        owner_pages_mapping = insert new_owner (page_id ∷ []) e.owner_pages_mapping;
        owner_free_pages_mapping = insert new_owner [] e.owner_free_pages_mapping;
        owner_ordered_pages_mapping =
            insert new_owner ((block_id, entry) ∷ []) e.owner_ordered_pages_mapping;
      })
    ]

unfoldable pub update_owner_pages : Engine → String → ℕ → ℕ → Option (ℕ × ℕ) → Run Engine
unfolding take_over record_owner get_page_ptr Page.has_free_space
update_owner_pages e new_owner page_id block_id offsets = elim (get_page_ptr e page_id) [
  | none ↦ ok e
  | some p ↦ (do
    e1 ← take_over e new_owner page_id block_id p
    e2 ← record_owner e1 new_owner page_id block_id offsets
    (if Page.has_free_space p
        then (do
          free ← modify_at new_owner (λ pages. page_id ∷ pages) e2.owner_free_pages_mapping
          ok (record e2 { owner_free_pages_mapping = free }))
        else ok e2))
]

-- What is asked for a block: the page where it should be, the bytes and where they begin in it.
pub record Request : Type 0 where
  pub page_id : Option ℕ
  pub blk_data : List ℕ
  pub offset_start : ℕ

-- The page that the request names, if the block is there.
unfoldable pub requested_page : Engine → String → ℕ → Option ℕ → Option (ℕ × Page)
unfolding get_page_ptr Page.is_page_owner Page.contains_block
requested_page e owner blk_id none = none
requested_page e owner blk_id (some page_id) = elim (get_page_ptr e page_id) [
  | none ↦ none
  | some p ↦
      if Page.is_page_owner p owner && Page.contains_block p blk_id then some (page_id, p) else none
]

-- The entry of the block is marked: it is no longer synced. `at` throws if it is not there.
unfoldable pub mark_unsynced : Engine → String → ℕ → Run Engine
mark_unsynced e owner blk_id = do
  blocks ← or_fault out_of_range (find owner e.owner_ordered_pages_mapping)
  entry ← or_fault out_of_range (find blk_id blocks)
  ok (record e {
    owner_ordered_pages_mapping =
        put owner (put blk_id (record entry { is_synced = false }) blocks)
          e.owner_ordered_pages_mapping;
  })

-- A block gets a place in the page that was found for it.
unfoldable pub place_block :
    Config → Engine → String → ℕ → List ℕ → ℕ → AllocateOperationType → ℕ → Page → Run Engine
unfolding set_page update_owner_pages Page.get_allocate_free_offset Page.update_block_data
    Page.set_page_as_dirty visit_on_write
place_block c e owner blk_id blk_data offset_start operation_type page_id p = do
  let (offs, p1) = Page.get_allocate_free_offset c p blk_id
  (_, p2) ← Page.update_block_data c p1 blk_id blk_data offset_start
  let p3 : Page = elim operation_type [ op_write ↦ Page.set_page_as_dirty p2 true | _ ↦ p2 ]
  let e1 = set_page e page_id p3
  let e2 : Engine =
      if c.apply_lru_eviction then record e1 { lru = visit_on_write c e1.lru page_id } else e1
  update_owner_pages e2 owner page_id blk_id offs

module _ (os : Os) (c : Config) where
  -- One round of the loop of `allocate_blocks`: the page of the block, or `none` for -1.
  unfoldable pub allocate_block :
      Engine
      → String
      → ℕ
      → Request
      → AllocateOperationType
      → os.State
      → Run (Option ℕ × Engine × os.State)
  unfolding requested_page mark_unsynced place_block get_next_free_page get_page_ptr set_page
      Page.update_block_data
  allocate_block e owner blk_id r operation_type w =
      elim (requested_page e owner blk_id r.page_id) [
        | some (page_id, p) ↦ (do
          (_, q) ← Page.update_block_data c p blk_id r.blk_data r.offset_start
          e' ← mark_unsynced (set_page e page_id q) owner blk_id
          ok (some page_id, e', w))
        | none ↦ (do
          (free_page, e', w') ← get_next_free_page os c e owner w
          elim free_page [
            | none ↦ ok (none, e', w')
            | some page_id ↦ elim (get_page_ptr e' page_id) [
              | none ↦ ok (none, e', w')
              | some p ↦ (do
                e2 ←
                    place_block c e' owner blk_id r.blk_data r.offset_start operation_type page_id p
                ok (some page_id, e2, w'))
            ]
          ])
      ]

  unfoldable pub allocate_blocks :
      Engine
      → String
      → List (ℕ × Request)
      → AllocateOperationType
      → os.State
      → Run (List (ℕ × Option ℕ) × Engine × os.State)
  unfolding allocate_block
  allocate_blocks e owner [] operation_type w = ok ([], e, w)
  allocate_blocks e owner ((blk_id, r) ∷ rest) operation_type w = do
    (page, e', w') ← allocate_block e owner blk_id r operation_type w
    (pages, e2, w2) ← allocate_blocks e' owner rest operation_type w'
    ok ((blk_id, page) ∷ pages, e2, w2)

-- One round of `get_blocks`: the bytes for the front of the buffer, or `none` for false.
unfoldable pub get_block :
    Config → Engine → String → ℕ → Option ℕ → ℕ → Run (Option (List ℕ) × Engine)
unfolding requested_page Page.get_block_data visit_on_read
get_block c e owner blk_id page_id read_to_max_index =
    elim (requested_page e owner blk_id page_id) [
      | none ↦ ok (none, e)
      | some (page, p) ↦ Page.get_block_data p blk_id read_to_max_index >>= λ bytes. ok (
        some bytes,
        (if c.apply_lru_eviction then record e { lru = visit_on_read e.lru page } else e),
      )
    ]

unfoldable pub get_blocks :
    Config → Engine → String → List (ℕ × (Option ℕ × ℕ)) → Run (List (ℕ × Option (List ℕ)) × Engine)
unfolding get_block
get_blocks c e owner [] = ok ([], e)
get_blocks c e owner ((blk_id, (page_id, read_to_max_index)) ∷ rest) = do
  (bytes, e') ← get_block c e owner blk_id page_id read_to_max_index
  (res, e2) ← get_blocks c e' owner rest
  ok ((blk_id, bytes) ∷ res, e2)

unfoldable pub make_block_readable_to_offset : Engine → String → ℕ → ℕ → ℕ → Run Engine
unfolding get_page_ptr set_page Page.is_page_owner Page.make_block_readable_to
make_block_readable_to_offset e cid page_id block_id offset = do
  p ← or_fault null_pointer (get_page_ptr e page_id)
  ok (
      if Page.is_page_owner p cid
      then set_page e page_id (Page.make_block_readable_to p block_id offset)
      else e)

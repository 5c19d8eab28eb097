-- ===== src/Engine/Release.antt =====
-- custom_cache.cpp: taking blocks out of the cache (`remove_cached_blocks`,
-- `truncate_cached_blocks`), `rename_owner_pages` and `get_dirty_blocks_info`.
pub mod Removal
use lazyfs.Base.{
  ℕ, string_eq, nat_eq, remove, ◌-◌, String, Bool, true, false, ◌&&◌, Option, none, some, List, [],
  ◌∷◌, ltb, if◌then◌else◌, ◌==◌,
}
use lazyfs.Base.Assoc.{find, erase, put}
use lazyfs.Base.Run.{Run, ok, out_of_range, null_pointer, or_fault, ◌>>=◌}
use lazyfs.Config.{Config}
use lazyfs.Page
use lazyfs.Page.{Page}
use lazyfs.Page.Offsets
use lazyfs.Engine.Lru.{forget}
use lazyfs.Engine.{Engine, Entry, get_page_ptr, set_page}

-- A page goes back to the free pages.
unfoldable pub release_page : Config → Engine → ℕ → Page → Engine
unfolding set_page Page.reset Page.change_owner forget
release_page c e page_id p =
    let e' = set_page e page_id (Page.change_owner (Page.reset c p) "none") in
    record e' {
      free_pages = page_id ∷ e.free_pages;
      lru = if c.apply_lru_eviction then forget e.lru page_id else e.lru;
    }

unfoldable pub release_pages : Config → Engine → List ℕ → Run Engine
unfolding release_page get_page_ptr
release_pages c e [] = ok e
release_pages c e (page_id ∷ rest) = do
  p ← or_fault null_pointer (get_page_ptr e page_id)
  release_pages c (release_page c e page_id p) rest

unfoldable pub remove_cached_blocks : Config → Engine → String → Run Engine
unfolding release_pages
remove_cached_blocks c e owner =
    let e' : Engine = record e {
      owner_free_pages_mapping = erase owner e.owner_free_pages_mapping;
    } in
    elim (find owner e.owner_pages_mapping) [
      | none ↦ ok e'
      | some owner_pgs ↦ (do
        e2 ← release_pages c e' owner_pgs
        ok (record e2 {
          owner_pages_mapping = erase owner e2.owner_pages_mapping;
          owner_ordered_pages_mapping = erase owner e2.owner_ordered_pages_mapping;
        }))
    ]

unfoldable pub change_owners : Engine → String → List ℕ → Engine
unfolding get_page_ptr set_page Page.change_owner
change_owners e new_owner [] = e
change_owners e new_owner (page_id ∷ rest) =
    change_owners
      (elim (get_page_ptr e page_id) [
        | none ↦ e
        | some p ↦ set_page e page_id (Page.change_owner p new_owner)
      ])
      new_owner rest

unfoldable pub rename_owner_pages : Engine → String → String → Run (Bool × Engine)
unfolding change_owners
rename_owner_pages e old_owner new_owner = elim (find old_owner e.owner_pages_mapping) [
  | none ↦ ok (false, e)
  | some old_page_mapping ↦ (do
    old_free_mapping ← or_fault out_of_range (find old_owner e.owner_free_pages_mapping)
    old_ordered_pages ← or_fault out_of_range (find old_owner e.owner_ordered_pages_mapping)
    let e' = change_owners e new_owner old_page_mapping
    ok (
      true,
      record e' {
        owner_pages_mapping =
            put new_owner old_page_mapping (erase old_owner e.owner_pages_mapping);
        owner_free_pages_mapping =
            put new_owner old_free_mapping (erase old_owner e.owner_free_pages_mapping);
        owner_ordered_pages_mapping =
            put new_owner old_ordered_pages (erase old_owner e.owner_ordered_pages_mapping);
      },
    ))
]

-- A block behind the new end of the file leaves its page.
unfoldable pub drop_block : Config → Engine → String → ℕ → ℕ → Page → Run Engine
unfolding set_page release_page Page.remove_block
drop_block c e owner blk_id page_id p = do
  let q = Page.remove_block c p blk_id
  pages ← or_fault out_of_range (find owner e.owner_pages_mapping)
  blocks ← or_fault out_of_range (find owner e.owner_ordered_pages_mapping)
  let e' : Engine = record (set_page e page_id q) {
    owner_pages_mapping = put owner (remove page_id pages) e.owner_pages_mapping;
    owner_ordered_pages_mapping = put owner (erase blk_id blocks) e.owner_ordered_pages_mapping;
  }
  ok (if q.is_dirty then e' else release_page c e' page_id q)

-- One round of `truncate_cached_blocks`. The page number of the block is at hand, or the pointer
-- is null.
unfoldable pub truncate_block : Config → Engine → String → ℕ → Option ℕ → ℕ → ℕ → Run Engine
unfolding drop_block get_page_ptr set_page Page.is_page_owner Page.contains_block
    Page.make_block_readable_to Page.write_null_from
truncate_block c e owner blk_id page from_block_id index_inside_block = do
  page_id ← or_fault null_pointer page
  p ← or_fault null_pointer (get_page_ptr e page_id)
  (if Page.is_page_owner p owner
      then (if blk_id == from_block_id && ltb 0 index_inside_block
          then (if Page.contains_block p from_block_id
              then (Page.write_null_from c
                    (Page.make_block_readable_to p from_block_id (index_inside_block - 1))
                    from_block_id index_inside_block
                  >>= λ q. ok (set_page e page_id q))
              else ok e)
          else drop_block c e owner blk_id page_id p)
      else ok e)

unfoldable pub truncate_cached_blocks :
    Config → Engine → String → List (ℕ × Option ℕ) → ℕ → ℕ → Run Engine
unfolding truncate_block
truncate_cached_blocks c e owner [] from_block_id index_inside_block = ok e
truncate_cached_blocks c e owner ((blk_id, page) ∷ rest) from_block_id index_inside_block = do
  e' ← truncate_block c e owner blk_id page from_block_id index_inside_block
  truncate_cached_blocks c e' owner rest from_block_id index_inside_block

-- Block, readable offsets (from 0 on) and page of what is not synced.
unfoldable pub dirty_blocks : Engine → List (ℕ × Entry) → Run (List (ℕ × (ℕ × Option ℕ) × ℕ))
unfolding get_page_ptr Offsets.get_readable_to
dirty_blocks e [] = ok []
dirty_blocks e ((blk_id, entry) ∷ rest) = do
  p ← or_fault null_pointer (get_page_ptr e entry.page_id)
  to ← Offsets.get_readable_to p.allocated_block_ids blk_id
  res ← dirty_blocks e rest
  ok (if entry.is_synced then res else (blk_id, (0, to), entry.page_id) ∷ res)

unfoldable pub get_dirty_blocks_info : Engine → String → Run (List (ℕ × (ℕ × Option ℕ) × ℕ))
unfolding dirty_blocks
get_dirty_blocks_info e owner = elim (find owner e.owner_ordered_pages_mapping) [
  | none ↦ ok []
  | some blocks ↦ dirty_blocks e blocks
]

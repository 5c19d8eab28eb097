-- ===== src/Engine.antt =====
-- libs/libpcache/src/engine/backends/custom/custom_cache.cpp: the page cache engine. Its mutexes
-- make each method one step. A `Page *` is the number of the page in `search_index`, which never
-- changes; a vector's back is a list's head, and the front of the LRU list is its list's head.
pub mod Lru
pub mod Allocate
pub mod Release
pub mod SyncPages
pub mod Hits
pub mod FullPage
use lazyfs.Base.{
  ℕ, string_eq, nat_eq, remove, zero, suc, ◌+◌, String, Bool, false, ◌&&◌, Option, none, some, List,
  [], ◌∷◌, if◌then◌else◌,
}
use lazyfs.Base.Assoc.{find, contains, erase, put, insert}
use lazyfs.Base.Run.{Run, ok, out_of_bounds, out_of_range, null_pointer, or_fault, ◌>>=◌}
use lazyfs.Config.{Config}
use lazyfs.Os.{Os}
use lazyfs.Page
use lazyfs.Page.{Page}
use lazyfs.Page.Offsets
use lazyfs.Page.SyncData
use Lru.{LruState}

-- What `owner_ordered_pages_mapping` holds of a block.
pub record Entry : Type 0 where
  pub page_id : ℕ
  pub offsets : Option (ℕ × ℕ)
  pub is_synced : Bool

pub record Engine : Type 0 where
  pub lru : LruState
  pub search_index : List (ℕ × Page)
  pub free_pages : List ℕ
  pub owner_pages_mapping : List (String × List ℕ)
  pub owner_ordered_pages_mapping : List (String × List (ℕ × Entry))
  pub owner_free_pages_mapping : List (String × List ℕ)

pub data AllocateOperationType : Type 0 where
  op_write op_read op_passthrough : AllocateOperationType

-- The loop of the constructor: the pages from `page_index` on.
unfoldable pub allocate_pages : Config → ℕ → ℕ → Engine → Run Engine
unfolding Page.new
allocate_pages c zero page_index e = ok e
allocate_pages c (suc n) page_index e = Page.new c >>= λ p.
    allocate_pages c n (page_index + 1) (record e {
      search_index = insert page_index p e.search_index;
      free_pages = page_index ∷ e.free_pages;
    })

unfoldable pub new : Config → Run Engine
unfolding allocate_pages
new c = allocate_pages c c.cache_nr_pages 0 (record {
  lru = record { lru_main_vector = []; page_order_mapping = []; next_node = 0 };
  search_index = [];
  free_pages = [];
  owner_pages_mapping = [];
  owner_ordered_pages_mapping = [];
  owner_free_pages_mapping = [];
})

unfoldable pub get_page_ptr : Engine → ℕ → Option Page
get_page_ptr e page_id = find page_id e.search_index

-- A write through a page pointer.
unfoldable pub set_page : Engine → ℕ → Page → Engine
set_page e page_id p = record e { search_index = put page_id p e.search_index }

unfoldable pub is_block_cached : Engine → String → Option ℕ → ℕ → Bool
unfolding get_page_ptr Page.is_page_owner Page.contains_block
is_block_cached e content_owner_id none block_id = false
is_block_cached e content_owner_id (some page_id) block_id = elim (get_page_ptr e page_id) [
  | none ↦ false
  | some p ↦ Page.is_page_owner p content_owner_id && Page.contains_block p block_id
]

-- `at (owner).erase (key)` or `.insert (key)` on the value of a map, if it is there.
abbrev pub modify : {V : Type 0} → String → (V → V) → List (String × V) → List (String × V)
modify k f m = elim (find k m) [ none ↦ m | some v ↦ put k (f v) m ]

-- The same for `at`, which throws where the key is missing.
abbrev pub modify_at : {V : Type 0} → String → (V → V) → List (String × V) → Run (List (String × V))
modify_at k f m = or_fault out_of_range (find k m) >>= λ v. ok (put k (f v) m)

abbrev pub erase_all : List (ℕ × Option ℕ) → List (ℕ × Entry) → List (ℕ × Entry)
erase_all [] m = m
erase_all ((b, _) ∷ bs) m = erase_all bs (erase b m)

-- The last part of `_get_next_free_page`: the page at the back of the LRU list is written out if
-- it is dirty, and emptied.
unfoldable pub evict : (os : Os) → Config → Engine → os.State → Run (Option ℕ × Engine × os.State)
unfolding get_page_ptr set_page Page.reset Page.SyncData.sync_data
    Offsets.get_block_readable_offsets
evict os c e w = do
  (_, replace_page_id) ← or_fault out_of_bounds (Lru.back e.lru.lru_main_vector)
  page_to_reset ← or_fault null_pointer (get_page_ptr e replace_page_id)
  let old_owner = page_to_reset.page_owner_id
  let blocks = Offsets.get_block_readable_offsets page_to_reset.allocated_block_ids
  let e' : Engine = record e {
    owner_ordered_pages_mapping = modify old_owner (erase_all blocks) e.owner_ordered_pages_mapping;
    owner_pages_mapping = modify old_owner (remove replace_page_id) e.owner_pages_mapping;
  }
  (p, w') ←
      (if page_to_reset.is_dirty
        then (Page.SyncData.sync_data os c page_to_reset w >>= λ r. ok (r.1, r.2))
        else ok (page_to_reset, w))
  ok (some replace_page_id, set_page e' replace_page_id (Page.reset c p), w')

unfoldable pub get_empty_page :
    (os : Os) → Config → Engine → os.State → Run (Option ℕ × Engine × os.State)
unfolding evict
get_empty_page os c e w = elim e.free_pages [
  | last_index ∷ rest ↦ ok (some last_index, record e { free_pages = rest }, w)
  | [] ↦ if c.apply_lru_eviction then evict os c e w else ok (none, e, w)
]

-- `none` is (-1, nullptr). The list of the owner's pages is a copy: it is not changed.
unfoldable pub get_next_free_page :
    (os : Os) → Config → Engine → String → os.State → Run (Option ℕ × Engine × os.State)
unfolding get_empty_page
get_next_free_page os c e owner_id w =
    if contains owner_id e.owner_pages_mapping
    then (do
      free_pages ← or_fault out_of_range (find owner_id e.owner_free_pages_mapping)
      elim free_pages [ [] ↦ get_empty_page os c e w | free_page ∷ _ ↦ ok (some free_page, e, w) ])
    else get_empty_page os c e w

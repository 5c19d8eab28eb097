-- ===== src/Engine/FullPage.antt =====
-- custom_cache.cpp: `_get_next_free_page` takes the owner's list of pages with room by value, so
-- that a page stays in the list when it is full.
use lazyfs.Base.{
  ℕ, String, ◌≡◌, refl, ◌∙◌, Bool, true, false, none, some, List, [], ◌∷◌, arith, if◌then◌else◌,
  nat_eq, string_eq, ==_refl, set_insert,
}
use lazyfs.Base.Assoc.{find, put, find-put, insert_sorted, contains-find}
use lazyfs.Base.Run.{ok}
use lazyfs.Config.{Config}
use lazyfs.Os.{Os}
use lazyfs.Page.{
  Page, get_block_offsets, contains_block, is_page_owner, update_block_data, set_page_as_dirty,
  has_free_space,
}
use lazyfs.Page.Blocks.{get_allocate_free_offset-full}
use lazyfs.Engine.{
  Engine, Entry, AllocateOperationType, op_write, op_read, op_passthrough, get_page_ptr, set_page,
  is_block_cached, get_next_free_page,
}
use lazyfs.Engine.Lru.{visit_on_write}
use lazyfs.Engine.Allocate.{
  Request, requested_page, allocate_block, place_block, update_owner_pages, take_over, record_owner,
}

-- The owner's next page is full and lacks the block.
pub record IsFull (e : Engine) (owner : String) (b i : ℕ) (p : Page) : Type 0 where
  pub pages : List ℕ
  pub others : List ℕ
  pub blocks : List (ℕ × Entry)
  pub owns : find owner e.owner_pages_mapping ≡ some pages
  pub next : find owner e.owner_free_pages_mapping ≡ some (i ∷ others)
  pub ordered : find owner e.owner_ordered_pages_mapping ≡ some blocks
  pub page : get_page_ptr e i ≡ some p
  pub owned : p.page_owner_id ≡ owner
  pub full : p.free_block_indexes ≡ []
  pub lacks : get_block_offsets p b ≡ none

-- The page as the operation leaves it.
abbrev touched : AllocateOperationType → Page → Page
touched op p = elim op [ op_write ↦ set_page_as_dirty p true | _ ↦ p ]

touched-owner :
    (op : AllocateOperationType) (p : Page) → (touched op p).page_owner_id ≡ p.page_owner_id
unfolding set_page_as_dirty
touched-owner op_write p = refl
touched-owner op_read p = refl
touched-owner op_passthrough p = refl

touched-free :
    (op : AllocateOperationType) (p : Page)
    → (touched op p).free_block_indexes ≡ p.free_block_indexes
unfolding set_page_as_dirty
touched-free op_write p = refl
touched-free op_read p = refl
touched-free op_passthrough p = refl

module _ (c : Config) (e : Engine) (owner : String) (b i : ℕ) (p : Page) (f : IsFull e owner b i p)
    (bytes : List ℕ) (off : ℕ) (op : AllocateOperationType) where
  abbrev engine_after : Engine
  engine_after =
      let e1 = set_page e i (touched op p) in
      let e2 : Engine =
        if c.apply_lru_eviction then record e1 { lru = visit_on_write c e1.lru i } else e1 in
      record e2 {
        owner_pages_mapping = put owner (set_insert i f.pages) e.owner_pages_mapping;
        owner_ordered_pages_mapping =
            put owner
              (insert_sorted b (record { page_id = i; offsets = none; is_synced = false }) f.blocks)
              e.owner_ordered_pages_mapping;
      }

  page_after : get_page_ptr engine_after i ≡ some (touched op p)
  unfolding get_page_ptr set_page
  page_after = ground (arith, find-put i i (touched op p) e.search_index, ==_refl i)

  not_cached : is_block_cached engine_after owner (some i) b ≡ false
  unfolding is_block_cached contains_block get_block_offsets is_page_owner set_page_as_dirty
  not_cached =
      rw (page_after, is_block_cached)
        (elim op [
          | op_write ↦
              ground (arith, f.lacks, contains-find b p.allocated_block_ids.block_offset_mapping)
          | op_read ↦
              ground (arith, f.lacks, contains-find b p.allocated_block_ids.block_offset_mapping)
          | op_passthrough ↦
              ground (arith, f.lacks, contains-find b p.allocated_block_ids.block_offset_mapping)
        ])

  update_block_data-lacking : update_block_data c p b bytes off ≡ ok (false, p)
  unfolding update_block_data
  update_block_data-lacking = rw (f.lacks, update_block_data) refl

  take_over-owner :
      (e1 : Engine) (q : Page) → q.page_owner_id ≡ owner → take_over e1 owner i b q ≡ ok e1
  unfolding take_over
  take_over-owner e1 q h = rw (h, ==_refl owner, take_over) refl

  record_owner-known :
      (e2 : Engine)
      → find owner e2.owner_pages_mapping ≡ some f.pages
      → find owner e2.owner_ordered_pages_mapping ≡ some f.blocks
      → record_owner e2 owner i b none
        ≡ ok (record e2 {
          owner_pages_mapping = put owner (set_insert i f.pages) e2.owner_pages_mapping;
          owner_ordered_pages_mapping =
              put owner
                (insert_sorted b
                  (record { page_id = i; offsets = none; is_synced = false })
                  f.blocks)
                e2.owner_ordered_pages_mapping;
        })
  unfolding record_owner
  record_owner-known e2 m n = rw (m, record_owner) (rw n refl)

  update_owner_pages-full :
      (q : Page) (e2 : Engine)
      → get_page_ptr e2 i ≡ some q
      → q.page_owner_id ≡ owner
      → q.free_block_indexes ≡ []
      → find owner e2.owner_pages_mapping ≡ some f.pages
      → find owner e2.owner_ordered_pages_mapping ≡ some f.blocks
      → update_owner_pages e2 owner i b none
        ≡ ok (record e2 {
          owner_pages_mapping = put owner (set_insert i f.pages) e2.owner_pages_mapping;
          owner_ordered_pages_mapping =
              put owner
                (insert_sorted b
                  (record { page_id = i; offsets = none; is_synced = false })
                  f.blocks)
                e2.owner_ordered_pages_mapping;
        })
  unfolding update_owner_pages has_free_space
  update_owner_pages-full q e2 g o r m n =
      rw (g, update_owner_pages)
        (rw (take_over-owner e2 q o) (rw (record_owner-known e2 m n) (rw r refl)))

  place_block-full : place_block c e owner b bytes off op i p ≡ ok engine_after
  unfolding place_block set_page get_page_ptr
  place_block-full =
      rw (get_allocate_free_offset-full c p b f.full, place_block)
        (rw update_block_data-lacking (with_flag c.apply_lru_eviction))
    where
      -- Whether pages are evicted does not matter.
      with_flag :
          (flag : Bool)
          → update_owner_pages
              (if flag
                then (record (set_page e i (touched op p)) { lru = visit_on_write c e.lru i })
                else set_page e i (touched op p))
              owner
              i
              b
              none
            ≡ ok
                (record (if flag
                  then (record (set_page e i (touched op p)) { lru = visit_on_write c e.lru i })
                  else set_page e i (touched op p)) {
                    owner_pages_mapping = put owner (set_insert i f.pages) e.owner_pages_mapping;
                    owner_ordered_pages_mapping =
                        put owner
                          (insert_sorted b
                            (record { page_id = i; offsets = none; is_synced = false })
                            f.blocks)
                          e.owner_ordered_pages_mapping;
                  })
      with_flag true =
          update_owner_pages-full (touched op p)
            (record (set_page e i (touched op p)) { lru = visit_on_write c e.lru i })
            (ground (arith, find-put i i (touched op p) e.search_index, ==_refl i))
            (touched-owner op p ∙ f.owned) (touched-free op p ∙ f.full) f.owns f.ordered
      with_flag false =
          update_owner_pages-full (touched op p) (set_page e i (touched op p))
            (ground (arith, find-put i i (touched op p) e.search_index, ==_refl i))
            (touched-owner op p ∙ f.owned) (touched-free op p ∙ f.full) f.owns f.ordered

-- If the page that stands first in the owner's list of pages with room is in fact full, and the
-- block is not where the request says, then the block is lost: `allocate_block` returns that page
-- as for a block that it stored, but the block is not on it, and no system call is made.
pub allocate_block-lost :
    (os : Os) (c : Config) (e : Engine) (owner : String) (b i : ℕ) (p : Page) (r : Request)
    (op : AllocateOperationType) (w : os.State)
    → IsFull e owner b i p
    → requested_page e owner b r.page_id ≡ none
    → (e' : Engine) × (allocate_block os c e owner b r op w ≡ ok (some i, e', w))
      × (is_block_cached e' owner (some i) b ≡ false)
unfolding allocate_block get_next_free_page get_page_ptr
allocate_block-lost os c e owner b i p r op w f miss =
    let page : find i e.search_index ≡ some p = f.page in
    (
      engine_after c e owner b i p f r.blk_data r.offset_start op,
      rw (miss, allocate_block)
          (rw (contains-find owner e.owner_pages_mapping, f.owns)
            (rw f.next (
              ground
                (arith, page, place_block-full c e owner b i p f r.blk_data r.offset_start op)))),
      not_cached c e owner b i p f r.blk_data r.offset_start op,
    )

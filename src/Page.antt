-- ===== src/Page.antt =====
-- libs/libpcache/src/engine/page/page.cpp: a page of the cache, cut into blocks. The methods take
-- the page's `Config` as an argument and return the new page. A vector's back is a list's head.
pub mod Offsets
pub mod Slots
pub mod Places
pub mod Blocks
pub mod Removal
pub mod Reads
pub mod SyncData
use lazyfs.Base.{
  ℕ, zero, suc, ◌+◌, ◌-◌, ◌%◌, ◌^◌, String, Bool, true, false, Option, none, some, List, [], ◌∷◌,
  length, take, drop, replicate, blit, ltb, leb, if◌then◌else◌, ◌==◌, nat_eq, string_eq,
}
use lazyfs.Base.Run.{Run, ok, fault, assertion, out_of_bounds, guarded, ◌>>=◌}
use lazyfs.Config.{Config}
use Offsets.{BlockOffsets}

pub record Page : Type 0 where
  pub is_dirty : Bool
  pub page_owner_id : String
  pub free_block_indexes : List ℕ
  pub page_data : List ℕ
  pub allocated_block_ids : BlockOffsets

-- `for (i = i0; i < size; i += block) free_block_indexes.push_back (i)`, with fuel.
unfoldable pub push_indexes : ℕ → ℕ → ℕ → ℕ → List ℕ → List ℕ
push_indexes zero size block i free = free
push_indexes (suc fuel) size block i free =
    let rest = push_indexes fuel size block (i + block) (i ∷ free) in
    if ltb i size then rest else free

unfoldable pub new : Config → Run Page
unfolding push_indexes
new c =
    if c.io_block_size == 0
    then fault assertion
    else if c.cache_page_size % c.io_block_size == 0
    then ok (record {
      is_dirty = false;
      page_owner_id = "none";
      free_block_indexes = push_indexes c.cache_page_size c.cache_page_size c.io_block_size 0 [];
      page_data = replicate c.cache_page_size 0;
      allocated_block_ids = Offsets.reset;
    })
    else fault assertion

unfoldable pub is_page_owner : Page → String → Bool
is_page_owner p query = p.page_owner_id == query

unfoldable pub change_owner : Page → String → Page
change_owner p new_owner = record p { page_owner_id = new_owner }

unfoldable pub has_free_space : Page → Bool
has_free_space p = ltb 0 (length p.free_block_indexes)

unfoldable pub reset : Config → Page → Page
unfolding push_indexes
reset c p = record p {
  is_dirty = false;
  free_block_indexes = push_indexes c.cache_page_size c.cache_page_size c.io_block_size 0 [];
  page_data = replicate c.cache_page_size 0;
  allocated_block_ids = Offsets.reset;
}

unfoldable pub contains_block : Page → ℕ → Bool
unfolding Offsets.contains_block
contains_block p block_id = Offsets.contains_block p.allocated_block_ids block_id

unfoldable pub get_block_offsets : Page → ℕ → Option (ℕ × ℕ)
unfolding Offsets.get_block_offsets
get_block_offsets p block_id = Offsets.get_block_offsets p.allocated_block_ids block_id

unfoldable pub get_allocate_free_offset : Config → Page → ℕ → Option (ℕ × ℕ) × Page
unfolding Offsets.insert_or_update_block_offsets
get_allocate_free_offset c p block_id = elim p.free_block_indexes [
  | [] ↦ (none, p)
  | free_index ∷ rest ↦
      let offset : ℕ × ℕ = (free_index, free_index + c.io_block_size - 1) in
      (
        some offset,
        record p {
          free_block_indexes = rest;
          allocated_block_ids =
              Offsets.insert_or_update_block_offsets p.allocated_block_ids block_id offset;
        },
      )
]

-- The bytes that `memcpy` puts at the front of the buffer. The length is an `int` difference that
-- becomes a `size_t`. A block that the page lacks has its bytes at index -1.
unfoldable pub get_block_data : Page → ℕ → ℕ → Run (List ℕ)
unfolding get_block_offsets
get_block_data p block_id read_to_max_index = elim (get_block_offsets p block_id) [
  | none ↦ fault out_of_bounds
  | some (off_min, _) ↦
      let len : ℕ = (2 ^ 64 + (read_to_max_index + 1) - off_min) % 2 ^ 64 in
      guarded out_of_bounds (leb (off_min + len) (length p.page_data))
        (take len (drop off_min p.page_data))
]

-- The range is `[off_min, off_end)`: `off_end` is the source's `off_max` and one more.
unfoldable pub rewrite_offset_data : Page → List ℕ → ℕ → ℕ → Run Page
rewrite_offset_data p new_data off_min off_end =
    guarded out_of_bounds (leb off_end (length p.page_data)) (record p {
      is_dirty = true;
      page_data = blit p.page_data off_min (take (off_end - off_min) new_data);
    })

-- `new_data` is the buffer's `data_length` bytes. The source asks for `block_offsets.second > 0`.
unfoldable pub update_block_data : Config → Page → ℕ → List ℕ → ℕ → Run (Bool × Page)
unfolding get_block_offsets rewrite_offset_data
update_block_data c p block_id new_data off_start = elim (get_block_offsets p block_id) [
  | none ↦ ok (false, p)
  | some (off_min, off_max) ↦
      if ltb 0 off_max
      then (if leb (length new_data) c.io_block_size
          then (rewrite_offset_data p new_data (off_min + off_start)
                (off_min + off_start + length new_data)
              >>= λ q. ok (true, q))
          else fault assertion)
      else ok (false, p)
]

unfoldable pub set_page_as_dirty : Page → Bool → Page
set_page_as_dirty p dirty = record p { is_dirty = dirty }

unfoldable pub make_block_readable_to : Page → ℕ → ℕ → Page
unfolding Offsets.make_readable_to
make_block_readable_to p blk_id max_offset = record p {
  allocated_block_ids = Offsets.make_readable_to p.allocated_block_ids blk_id max_offset;
}

-- The length is computed in `size_t`.
unfoldable pub write_null_from : Config → Page → ℕ → ℕ → Run Page
unfolding get_block_offsets
write_null_from c p block_id from_offset = elim (get_block_offsets p block_id) [
  | none ↦ fault out_of_bounds
  | some (off_first, _) ↦
      let start : ℕ = off_first + from_offset in
      let len : ℕ = (2 ^ 64 + c.io_block_size - start) % 2 ^ 64 in
      if leb (start + len) (length p.page_data)
      then ok (record p { page_data = blit p.page_data start (replicate len 0) })
      else fault out_of_bounds
]

-- The end of `remove_block`: a page without blocks is clean.
unfoldable pub clean_if_empty : Page → Page
unfolding Offsets.empty
clean_if_empty p = if Offsets.empty p.allocated_block_ids then record p { is_dirty = false } else p

unfoldable pub remove_block : Config → Page → ℕ → Page
unfolding get_block_offsets Offsets.remove_block clean_if_empty
remove_block c p block_id = elim (get_block_offsets p block_id) [
  | none ↦ clean_if_empty p
  | some (off_first, _) ↦ clean_if_empty (record p {
    free_block_indexes = off_first ∷ p.free_block_indexes;
    allocated_block_ids = Offsets.remove_block p.allocated_block_ids block_id;
    page_data = blit p.page_data off_first (replicate c.io_block_size 0);
  })
]

-- ===== src/Engine/SyncPages.antt =====
-- custom_cache.cpp, `sync_pages`: the dirty blocks of a file are written in runs of consecutive
-- blocks, each with one `pwritev`.
pub mod Runs
use lazyfs.Base.{
  ℕ, string_eq, nat_eq, ◌+◌, ◌-◌, ◌*◌, String, Bool, true, false, ◌&&◌, Option, none, List, [], ◌∷◌,
  ltb, leb, if◌then◌else◌, ◌==◌, length, take, drop, reverse,
}
use lazyfs.Base.Assoc.{find, contains, put}
use lazyfs.Base.Run.{Run, ok, fault, out_of_bounds, out_of_range, null_pointer, or_fault, ◌>>=◌}
use lazyfs.Config.{Config}
use lazyfs.Os.{Os}
use lazyfs.Page
use lazyfs.Page.{Page}
use lazyfs.Page.Offsets
use lazyfs.Page.SyncData.{end_of}
use lazyfs.Engine.{Engine, Entry, get_page_ptr, set_page, modify}

-- The first loop: the blocks on dirty pages. A page is marked clean when it is met.
unfoldable pub collect_dirty : Engine → List (ℕ × Entry) → Run (List (ℕ × Entry) × Engine)
unfolding get_page_ptr set_page Page.set_page_as_dirty
collect_dirty e [] = ok ([], e)
collect_dirty e ((b, entry) ∷ rest) = do
  p ← or_fault null_pointer (get_page_ptr e entry.page_id)
  let e' = if p.is_dirty then set_page e entry.page_id (Page.set_page_as_dirty p false) else e
  (blocks, e2) ← collect_dirty e' rest
  ok ((if p.is_dirty then (b, entry) ∷ blocks else blocks), e2)

-- The second loop, without the buffers: the runs of consecutive blocks of at most `iov_max`.
-- `chunk` is the current run, last block first.
unfoldable pub streaks : {A : Type 0} → ℕ → List (ℕ × A) → List (ℕ × A) → List (List (ℕ × A))
streaks iov_max chunk [] = []
streaks iov_max chunk (x ∷ []) = reverse (x ∷ chunk) ∷ []
streaks iov_max chunk (x ∷ y ∷ rest) =
    let longer = streaks iov_max (x ∷ chunk) (y ∷ rest) in
    let cut = streaks iov_max [] (y ∷ rest) in
    if ltb (length chunk) (iov_max - 1) && x.0 + 1 == y.0 then longer else reverse (x ∷ chunk) ∷ cut

-- The bytes at a block's place: the whole block, or up to the readable offset for the last one.
unfoldable pub io_vector : Config → Engine → Bool → ℕ → Entry → Run (List ℕ)
unfolding get_page_ptr Offsets.get_readable_to
io_vector c e is_last b entry = do
  p ← or_fault null_pointer (get_page_ptr e entry.page_id)
  offs ← or_fault out_of_bounds entry.offsets
  to ← (if is_last then Offsets.get_readable_to p.allocated_block_ids b else ok none)
  let len : ℕ = if is_last then end_of to else c.io_block_size
  (if leb (offs.0 + len) (length p.page_data)
      then ok (take len (drop offs.0 p.page_data))
      else fault out_of_bounds)

unfoldable pub io_vectors : Config → Engine → List (ℕ × Entry) → Run (List (List ℕ))
unfolding io_vector
io_vectors c e [] = ok []
io_vectors c e ((b, entry) ∷ []) = do v ← io_vector c e true b entry; ok (v ∷ [])
io_vectors c e ((b, entry) ∷ x ∷ rest) = do
  v ← io_vector c e false b entry
  vs ← io_vectors c e (x ∷ rest)
  ok (v ∷ vs)

-- `std::get<3> (iterate_blocks.at (streak_block)) = true` for a run.
unfoldable pub mark_synced : List (ℕ × Entry) → List (ℕ × Entry) → List (ℕ × Entry)
mark_synced [] blocks = blocks
mark_synced ((b, entry) ∷ rest) blocks =
    mark_synced rest (put b (record entry { is_synced = true }) blocks)

module _ (os : Os) (c : Config) where
  -- One `pwritev` for each run, at the place of its first block.
  unfoldable pub write_streaks :
      Option ℕ → Engine → String → List (List (ℕ × Entry)) → os.State → Run (Engine × os.State)
  unfolding io_vectors mark_synced
  write_streaks fd e owner [] w = ok (e, w)
  write_streaks fd e owner ([] ∷ rest) w = write_streaks fd e owner rest w
  write_streaks fd e owner (((b, entry) ∷ run) ∷ rest) w = do
    iov ← io_vectors c e ((b, entry) ∷ run)
    let (_, w') = os.pwritev fd iov (b * c.io_block_size) w
    let e' : Engine = record e {
      owner_ordered_pages_mapping =
          modify owner (mark_synced ((b, entry) ∷ run)) e.owner_ordered_pages_mapping;
    }
    write_streaks fd e' owner rest w'

  unfoldable pub sync_owned : Option ℕ → Engine → String → os.State → Run (Engine × os.State)
  unfolding collect_dirty streaks write_streaks
  sync_owned fd e owner w =
      if contains owner e.owner_pages_mapping
      then (do
        iterate_blocks ← or_fault out_of_range (find owner e.owner_ordered_pages_mapping)
        (new_iterate_blocks, e') ← collect_dirty e iterate_blocks
        -- `new_iterate_blocks.begin ()->first`
        (elim new_iterate_blocks [
          | [] ↦ fault out_of_bounds
          | block ∷ blocks ↦ write_streaks fd e' owner (streaks os.iov_max [] (block ∷ blocks)) w
        ]))
      else ok (e, w)

  -- The results of the calls are ignored, and the method returns 0.
  unfoldable pub sync_pages : Engine → String → ℕ → String → os.State → Run (Engine × os.State)
  unfolding sync_owned
  sync_pages e owner size orig_path w = do
    let (fd, w1) = os.open_write orig_path w
    (e', w2) ← sync_owned fd e owner w1
    let (_, w3) = os.ftruncate fd size w2
    ok (e', os.close fd w3)

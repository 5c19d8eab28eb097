-- ===== src/Cache/Files.antt =====
-- cache.cpp: the operations on whole files: truncation, synchronisation, renaming, removal and the
-- clearing of the cache.
use lazyfs.Base.{
  ℕ, ◌-◌, ◌/◌, ◌%◌, max, String, Bool, true, false, not, ◌&&◌, Option, none, some, List, [], ◌∷◌,
  ltb, if◌then◌else◌, ◌==◌, nat_eq, string_eq,
}
use lazyfs.Base.Assoc.{find, put, erase}
use lazyfs.Base.Run.{Run, ok, ◌>>=◌}
use lazyfs.Config.{Config}
use lazyfs.Os.{Os}
use lazyfs.Engine.{Engine}
use lazyfs.Engine.Release.{remove_cached_blocks, truncate_cached_blocks, get_dirty_blocks_info}
use lazyfs.Engine.SyncPages.{sync_pages}
use lazyfs.Item.{Item, Timespec, new_metadata, set_data_sync_flag, update_metadata}
use lazyfs.Item.Blocks.{truncate_blocks_after, remove_all_blocks, count_blocks}
use lazyfs.Cache.{Cache, get_content, set_item, delete_item}

unfoldable pub truncate_item : Config → Cache → String → ℕ → Run (Bool × Cache)
unfolding get_content set_item remove_cached_blocks truncate_cached_blocks truncate_blocks_after
    remove_all_blocks count_blocks set_data_sync_flag
truncate_item c s owner new_size = elim (get_content s owner) [
  | none ↦ ok (false, s)
  | some item ↦
      if new_size == 0
      then (if ltb 0 (count_blocks item.content)
          then (do
            e ← remove_cached_blocks c s.engine owner
            ok (
              true,
              record (set_item s owner (record item { content = remove_all_blocks item.content })) {
                engine = e;
              },
            ))
          else ok (true, s))
      else (do
        let from_block_id : ℕ = new_size / c.io_block_size
        let index : ℕ = new_size % c.io_block_size
        let (res, d) = truncate_blocks_after item.content from_block_id index
        e ← truncate_cached_blocks c s.engine owner res from_block_id index
        ok (
          true,
          record (set_item s owner (set_data_sync_flag (record item { content = d }) false)) {
            engine = e;
          },
        ))
]

-- `TIMESPEC_TO_TIMEVAL`
abbrev pub timeval : Timespec → ℕ × ℕ
timeval t = (t.tv_sec, t.tv_nsec / 1000)

module _ (os : Os) (c : Config) where
  -- False is -1, true is 0.
  unfoldable pub sync_owner :
      Cache → String → Bool → String → os.State → Run (Bool × Cache × os.State)
  unfolding get_content set_item sync_pages set_data_sync_flag
  sync_owner s owner only_sync_data orig_path w = elim (get_content s owner) [
    | none ↦ ok (false, s, w)
    | some item ↦ (do
      (e, w') ← sync_pages os c s.engine owner item.metadata.size orig_path w
      ok (
        true,
        record (set_item s owner (set_data_sync_flag item true)) { engine = e },
        (if only_sync_data
            then w'
            else os.utimes owner (timeval item.metadata.atim) (timeval item.metadata.mtim) w'),
      ))
  ]

  unfoldable pub sync_all : List (String × String) → Cache → os.State → Run (Cache × os.State)
  unfolding sync_owner
  sync_all [] s w = ok (s, w)
  sync_all ((path, inode) ∷ rest) s w = do
    (_, s', w') ← sync_owner s inode false path w
    sync_all rest s' w'

  unfoldable pub full_checkpoint : Cache → os.State → Run (Cache × os.State)
  unfolding sync_all
  full_checkpoint s w = sync_all s.file_inode_mapping s w

-- The item with one link less, but at least one.
unfoldable pub unlink_item : Item → Item
unfolding update_metadata
unlink_item item =
    update_metadata item (record new_metadata { nlinks = max (item.metadata.nlinks - 1) 1 })
      ("nlinks" ∷ [])

-- The blocks of the content and the content leave the cache.
unfoldable pub discard : Config → Cache → String → Run Cache
unfolding remove_cached_blocks delete_item
discard c s owner =
    remove_cached_blocks c s.engine owner >>= λ e. ok (record (delete_item s owner) { engine = e })

unfoldable pub rename_item : Config → Cache → String → String → Run (Bool × Cache)
unfolding get_content set_item unlink_item discard
rename_item c s old_cid new_cid = elim (find old_cid s.file_inode_mapping) [
  | none ↦ ok (true, s)
  | some inode ↦
      let to_remove_inode : String = elim (find new_cid s.file_inode_mapping) [
        | none ↦ ""
        | some i ↦ i
      ] in
      let s1 : Cache = record s {
        file_inode_mapping = put new_cid inode (erase old_cid s.file_inode_mapping);
      } in
      elim (get_content s1 to_remove_inode) [
        | none ↦ ok (true, s1)
        | some item ↦
            let s2 = set_item s1 to_remove_inode (unlink_item item) in
            if ltb 1 item.metadata.nlinks
            then ok (true, s2)
            else discard c s2 to_remove_inode >>= λ s3. ok (true, s3)
      ]
]

unfoldable pub remove_cached_item : Config → Cache → String → String → Bool → Run (Bool × Cache)
unfolding get_content set_item unlink_item discard
remove_cached_item c s owner path is_from_cache = elim (get_content s owner) [
  | none ↦ ok (false, s)
  | some item ↦
      let s1 : Cache = record s { file_inode_mapping = erase path s.file_inode_mapping } in
      let s2 = set_item s1 owner (unlink_item item) in
      if not is_from_cache && ltb 1 item.metadata.nlinks
      then ok (false, s2)
      else discard c s2 owner >>= λ s3. ok (true, s3)
]

-- The two loops of `clear_all_cache`: over the paths that were known, then over the contents that
-- are left.
unfoldable pub clear_paths : Config → List (String × String) → Cache → Run Cache
unfolding remove_cached_item
clear_paths c [] s = ok s
clear_paths c ((path, inode) ∷ rest) s =
    remove_cached_item c s inode path true >>= λ r. clear_paths c rest r.1

unfoldable pub clear_contents : Config → List (String × Item) → Cache → Run Cache
unfolding discard
clear_contents c [] s = ok s
clear_contents c ((cid, _) ∷ rest) s = discard c s cid >>= λ s'. clear_contents c rest s'

unfoldable pub clear_all_cache : Config → Cache → Run Cache
unfolding clear_paths clear_contents
clear_all_cache c s = clear_paths c s.file_inode_mapping s >>= λ s1. clear_contents c s1.contents s1

-- Each content that is not synced, with its blocks that are not.
unfoldable pub report_unsynced :
    Engine → List (String × Item) → Run (List (String × ℕ × List (ℕ × (ℕ × Option ℕ) × ℕ)))
unfolding get_dirty_blocks_info
report_unsynced e [] = ok []
report_unsynced e ((cid, item) ∷ rest) = do
  unsynced_data ← report_unsynced e rest
  (if item.data_synced
      then ok unsynced_data
      else (do blocks ← get_dirty_blocks_info e cid; ok ((cid, 0, blocks) ∷ unsynced_data)))

unfoldable pub report_unsynced_data :
    Cache → Run (List (String × ℕ × List (ℕ × (ℕ × Option ℕ) × ℕ)))
unfolding report_unsynced
report_unsynced_data s = report_unsynced s.engine s.contents

-- ===== src/Fs/Attributes.antt =====
-- lazyfs.cpp, `lfs_getattr`: the attributes of a file are those that the cache has; a file that it
-- has not is entered with its attributes. A lock that a thread shares with itself is granted.
pub mod Cached
use lazyfs.Base.{
  ℕ, ◌+◌, ◌-◌, ◌*◌, ◌/◌, String, false, not, Option, none, some, [], ◌∷◌, ltb, if◌then◌else◌, ◌==◌,
  nat_eq, string_eq,
}
use lazyfs.Base.Run.{Run, ok, ◌>>=◌}
use lazyfs.Os.{Os, Stat}
use lazyfs.Config.{Config}
use lazyfs.Engine.{op_passthrough}
use lazyfs.Item.{Metadata}
use lazyfs.Cache.{
  Cache, get_original_inode, insert_inode_mapping, has_content_cached, get_content_metadata,
  update_content_metadata,
}
use lazyfs.Cache.Blocks.{put_data_blocks}
use lazyfs.Fs.{Op, with_cache}

abbrev pub stat_metadata : Stat → Metadata
stat_metadata st = record {
  size = st.st_size;
  atim = st.st_atim;
  ctim = st.st_ctim;
  mtim = st.st_mtim;
  nlinks = st.st_nlink;
}

-- The attributes with those of the cache over them.
unfoldable pub cached_stat : Config → Metadata → Stat → Stat
cached_stat c meta st =
    let blocks_ioblksize : ℕ =
      if ltb 0 meta.size then (meta.size - 1) / c.io_block_size + 1 else 0 in
    record st {
      st_size = meta.size;
      st_blocks = blocks_ioblksize * c.io_block_size / c.disk_sector_size;
      st_atim = meta.atim;
      st_ctim = meta.ctim;
      st_mtim = meta.mtim;
      st_nlink = meta.nlinks;
    }

module _ (os : Os) where
  -- The inode of the path, and the cache that maps the path to it.
  unfoldable pub find_inode : String → Stat → Cache → String × Cache
  unfolding get_original_inode insert_inode_mapping
  find_inode path st cache =
      let inode = get_original_inode cache path in
      if inode == ""
      then (os.to_string st.st_ino, insert_inode_mapping cache path (os.to_string st.st_ino) false)
      else (inode, cache)

  -- A file that has no content in the cache gets one, with the attributes.
  unfoldable pub enter_content : Config → String → Stat → Cache → os.State → Run (Cache × os.State)
  unfolding put_data_blocks has_content_cached update_content_metadata
  enter_content c inode st cache w =
      put_data_blocks os c cache inode [] op_passthrough w >>= λ (_, cache', w'). ok (
        if has_content_cached cache' inode
            then (update_content_metadata cache' inode (stat_metadata st)
                ("size" ∷ "atime" ∷ "ctime" ∷ "mtime" ∷ "nlinks" ∷ [])).1
            else cache',
        w',
      )

  -- The attributes of a regular file, from those that `lstat` gave.
  unfoldable pub regular_attributes :
      Config → String → Stat → Cache → os.State → Run (Option Stat × Cache × os.State)
  unfolding find_inode has_content_cached enter_content get_content_metadata cached_stat
  regular_attributes c path st cache w =
      let (inode, cache1) = find_inode path st cache in
      if not (has_content_cached cache1 inode)
      then (enter_content c inode st cache1 w >>= λ (cache2, w'). ok (some st, cache2, w'))
      else elim (get_content_metadata cache1 inode) [
        | none ↦ ok (some st, cache1, w)
        | some meta ↦ ok (some (cached_stat c meta st), cache1, w)
      ]

  -- The attributes, or `none` where `lstat` fails.
  unfoldable pub lfs_getattr : String → Op os (Option Stat)
  unfolding regular_attributes
  lfs_getattr path = with_cache λ c cache w.
      let (res, w1) = os.lstat path w in
      elim res [
        | none ↦ ok (none, cache, w1)
        | some st ↦
            if not st.is_regular
            then ok (some st, cache, w1)
            else regular_attributes c path st cache w1
      ]

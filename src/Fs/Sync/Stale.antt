-- ===== src/Fs/Sync/Stale.antt =====
-- lazyfs.cpp, `lfs_truncate`: what a truncation to a smaller size changes.
use lazyfs.Base.{
  ℕ, String, ◌<◌, ◌≡◌, refl, true, false, none, some, Option, arith, ltb, nat_eq, string_eq,
}
use lazyfs.Base.Assoc.{find}
use lazyfs.Os.{Os}
use lazyfs.Item.{Metadata}
use lazyfs.Cache.{get_content_metadata, get_content}
use lazyfs.Cache.Files.{truncate_item}
use lazyfs.Fs.{Fs, done, with_cache}
use lazyfs.Base.Run.{ok}
use lazyfs.Fs.Sync.{previous_size, change_size}
use lazyfs.Fs.Writes.{FileInfo}

module _ (os : Os) where
  -- A truncation of a file with content in the cache to a smaller size changes neither the data
  -- in the cache nor the file, if no content of the cache has the path for its key, which is
  -- the inode.
  pub change_size-stale :
      (fi : Option FileInfo) (path inode : String) (truncate_size : ℕ) (meta : Metadata) (s : Fs os)
      → get_content_metadata s.cache inode ≡ some meta
      → truncate_size < meta.size
      → find path s.cache.contents ≡ none
      → change_size os fi path inode truncate_size s ≡ done tt s
  unfolding change_size previous_size truncate_item get_content
  change_size-stale fi path inode truncate_size meta s m less absent =
      let up : ltb meta.size truncate_size ≡ false = ground (arith, less) in
      let down : ltb truncate_size meta.size ≡ true = ground (arith, less) in
      let t : truncate_item s.config s.cache path truncate_size ≡ ok (false, s.cache) =
        rw (truncate_item, get_content, absent) refl in
      rw (change_size, previous_size, m) (rw (up, down) (rw (with_cache, t) refl))

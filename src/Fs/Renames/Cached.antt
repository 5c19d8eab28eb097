-- ===== src/Fs/Renames/Cached.antt =====
-- lazyfs.cpp, `lfs_rename`, for a file that the cache has.
use lazyfs.Base.{
  ℕ, ◌≡◌, refl, String, Bool, true, false, some, if◌then◌else◌, ◌==◌, nat_eq, string_eq,
}
use lazyfs.Base.Assoc.{find}
use lazyfs.Os.{Os}
use lazyfs.Cache.{Cache, get_original_inode}
use lazyfs.Cache.Rename.{IsRenamed, rename_item-IsRenamed}
use lazyfs.Engine.Release.Removal.{IsKnown}
use lazyfs.Fs.{Fs, done}
use lazyfs.Fs.Hooks.Quiet.{IsQuiet, trigger-before, trigger-after}
use lazyfs.Fs.Renames.{end_rename, lfs_rename}
use lazyfs.Fs.Writes.{success, error}

module _ (os : Os) (from to inode : String) (s : Fs os) (q : IsQuiet os "rename" from s) where
  end_rename_lem :
      (cache : Cache) (res : Bool) (w : os.State)
      → os.rename from to s.world ≡ (res, w)
      → end_rename os from to (record s { cache = cache })
        ≡ done
            (if res then success 0 else error (os.errno w))
            (record s { cache = cache; world = w })
  unfolding end_rename
  end_rename_lem cache true w e =
      let s1 : Fs os = record s { cache = cache; world = w } in
      rw (e, end_rename)
        (rw
          (trigger-after os true "rename" from to s1
            (record { before = q.before; after = q.after; no_fault = q.no_fault }))
          refl)
  end_rename_lem cache false w e = rw (e, end_rename) refl

  -- If no fault is set for renamings and for the old path, the pages of the owners are pages of the
  -- engine, and the cache has an inode for the old path, then a renaming without flags changes
  -- the paths of the cache, as `IsRenamed` says, whether the call of the operating system
  -- succeeds or not, and returns 0 or the number of its error.
  pub lfs_rename-IsRenamed :
      (depth : ℕ) (res : Bool) (w : os.State)
      → IsKnown s.cache.engine
      → find from s.cache.file_inode_mapping ≡ some inode
      → inode == "" ≡ false
      → os.rename from to s.world ≡ (res, w)
      → (cache : Cache) × IsRenamed s.cache from to inode cache
        × (lfs_rename os depth from to 0 s
            ≡ done
                (some (if res then success 0 else error (os.errno w)))
                (record s { cache = cache; world = w }))
  unfolding lfs_rename get_original_inode
  lfs_rename-IsRenamed depth res w known entry given e =
      let (cache, renamed, is) = rename_item-IsRenamed s.config s.cache from to inode known entry in
      (
        cache,
        is,
        rw
            (
              trigger-before os false "rename" from to s q,
              lfs_rename,
              get_original_inode,
              entry,
              given,
              renamed,
              end_rename_lem cache res w e,
            )
            refl,
      )

-- ===== src/Fs/Frame/Directories.antt =====
-- lazyfs.cpp: what `lfs_readdir` and `lfs_rename` leave alone.
use Prim.Native.String.{count, ◌++◌}
use lazyfs.Base.{ℕ, String, Bool, true, false, none, some, List, [], ◌∷◌, ◌==◌, nat_eq, string_eq}
use lazyfs.Base.Run.{out_of_range}
use lazyfs.Os.{Os}
use lazyfs.Cache.{get_original_inode}
use lazyfs.Fs.Writes.{success, error}
use lazyfs.Fs.Directories.{lfs_get_dir_filenames, lfs_is_dir_empty, fill_entries, lfs_readdir}
use lazyfs.Fs.Renames.{
  substr, rename_cached, replace_prepend, rename_all, lfs_recursive_rename, end_rename, lfs_rename,
}
use lazyfs.Fs.Frame.{
  Keeps, >>=-Keeps, if-Keeps, Option-Keeps, call-Keeps, give-Keeps, get-Keeps, fail-Keeps,
  with_cache-Keeps,
}
use lazyfs.Fs.Frame.Triggers.{trigger-Keeps}
use lazyfs.Fs.Frame.Calls.{failure-Keeps}

module _ {os : Os} where
  pub lfs_readdir-Keeps :
      (filler : String → ℕ → ℕ → os.State → Bool × os.State) (path : String)
      → Keeps (lfs_readdir os filler path)
  unfolding lfs_readdir
  lfs_readdir-Keeps filler path = >>=-Keeps (call-Keeps (os.opendir path)) λ dp.
      Option-Keeps dp failure-Keeps λ entries.
        >>=-Keeps (call-Keeps (fill_entries os filler entries))
          λ _. call-Keeps (λ w. (success 0, os.closedir path w))

  rename_cached-Keeps : (from to : String) → Keeps (rename_cached os from to)
  rename_cached-Keeps from to = with_cache-Keeps _

  replace_prepend-Keeps :
      (from to : String) (paths : List String) → Keeps (replace_prepend os from to paths)
  unfolding replace_prepend
  replace_prepend-Keeps from to [] = give-Keeps tt
  replace_prepend-Keeps from to (it ∷ rest) =
      Option-Keeps (substr (count from) it) (fail-Keeps out_of_range) λ tail.
        >>=-Keeps (rename_cached-Keeps it (to ++ tail)) λ _. replace_prepend-Keeps from to rest

  rename_all-Keeps : (from to : String) (paths : List String) → Keeps (rename_all os from to paths)
  unfolding rename_all
  rename_all-Keeps from to paths = >>=-Keeps (call-Keeps (os.stat to)) λ to_stat.
      Option-Keeps to_stat (replace_prepend-Keeps from to paths) λ st.
        if-Keeps st.is_directory
          (>>=-Keeps (call-Keeps (lfs_is_dir_empty os to)) λ is_empty.
            Option-Keeps is_empty (give-Keeps tt)
              λ empty. if-Keeps empty (replace_prepend-Keeps from to paths) (give-Keeps tt))
          (replace_prepend-Keeps from to paths)

  lfs_recursive_rename-Keeps :
      (depth : ℕ) (from to : String) → Keeps (lfs_recursive_rename os depth from to)
  unfolding lfs_recursive_rename
  lfs_recursive_rename-Keeps depth from to =
      >>=-Keeps (call-Keeps (lfs_get_dir_filenames os depth from)) λ found.
        Option-Keeps found (give-Keeps none)
          λ paths. >>=-Keeps (rename_all-Keeps from to paths) λ _. give-Keeps (some tt)

  end_rename-Keeps : (from to : String) → Keeps (end_rename os from to)
  unfolding end_rename
  end_rename-Keeps from to = >>=-Keeps (call-Keeps (os.rename from to)) λ res.
      if-Keeps res
        (>>=-Keeps (trigger-Keeps true "rename" "after" from to) λ _. give-Keeps (success 0))
        failure-Keeps

  pub lfs_rename-Keeps :
      (depth : ℕ) (from to : String) (flags : ℕ) → Keeps (lfs_rename os depth from to flags)
  unfolding lfs_rename
  lfs_rename-Keeps depth from to flags =
      >>=-Keeps (trigger-Keeps false "rename" "before" from to) λ _.
        if-Keeps (flags == 0)
          (>>=-Keeps get-Keeps λ s.
            if-Keeps (get_original_inode s.cache from == "")
              (>>=-Keeps (lfs_recursive_rename-Keeps depth from to) λ renamed.
                Option-Keeps renamed (give-Keeps none)
                  λ _. >>=-Keeps (end_rename-Keeps from to) λ r. give-Keeps (some r))
              (>>=-Keeps (rename_cached-Keeps from to)
                λ _. >>=-Keeps (end_rename-Keeps from to) λ r. give-Keeps (some r)))
          (give-Keeps (some (error os.einval)))

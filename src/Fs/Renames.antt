-- ===== src/Fs/Renames.antt =====
-- lazyfs.cpp, `lfs_rename`. A directory has no inode in the cache, so that its files are renamed one by
-- one. A lock that a thread shares with itself is granted.
pub mod Cached
use Prim.Native.String.{String, ◌++◌, count}
use lazyfs.Base.{
  ℕ, zero, suc, true, false, Option, none, some, List, [], ◌∷◌, if◌then◌else◌, ◌==◌, nat_eq,
  string_eq,
}
use lazyfs.Base.Run.{ok, out_of_range, ◌>>=◌ as run_bind}
use lazyfs.Os.{Os}
use lazyfs.Cache.{get_original_inode}
use lazyfs.Cache.Files.{rename_item}
use lazyfs.Fs.{Op, done, ◌>>=◌, give, get, call, fail, with_cache}
use lazyfs.Fs.Hooks.{trigger}
use lazyfs.Fs.Directories.{lfs_get_dir_filenames, lfs_is_dir_empty}
use lazyfs.Fs.Writes.{Reply, success, error}

-- `it.substr (n)`
unfoldable pub substr : ℕ → String → Option String
substr zero s = some s
substr (suc n) String.[] = none
substr (suc n) (String.◌∷◌ c s) = substr n s

module _ (os : Os) where
  abbrev pub rename_cached : String → String → Op os Unit
  rename_cached from to =
      with_cache
        λ c cache w. run_bind (rename_item c cache from to) λ (_, cache'). ok (tt, cache', w)

  -- All paths get the new beginning.
  unfoldable pub replace_prepend : String → String → List String → Op os Unit
  unfolding rename_item substr
  replace_prepend from to [] = give tt
  replace_prepend from to (it ∷ rest) =
      let others = replace_prepend from to rest in
      elim (substr (count from) it) [
        | none ↦ fail out_of_range
        | some tail ↦ (rename_cached it (to ++ tail) >>= λ _. others)
      ]

  -- The paths that the walk through the directory has found. What is returned is not looked at. The
  -- paths are kept where the new one is a directory that is not empty or cannot be read.
  unfoldable pub rename_all : String → String → List String → Op os Unit
  unfolding replace_prepend lfs_is_dir_empty
  rename_all from to paths = call (os.stat to) >>= λ to_stat.
      let replace = replace_prepend from to paths in
      elim to_stat [
        | none ↦ replace
        | some st ↦
            if st.is_directory
            then (call (lfs_is_dir_empty os to) >>= λ is_empty. elim is_empty [
              | none ↦ give tt
              | some empty ↦ if empty then replace else give tt
            ])
            else replace
      ]

  -- `depth` bounds the walk; a walk that goes deeper does not return.
  unfoldable pub lfs_recursive_rename : ℕ → String → String → Op os (Option Unit)
  unfolding lfs_get_dir_filenames rename_all
  lfs_recursive_rename depth from to =
      call (lfs_get_dir_filenames os depth from) >>= λ from_dir_filepaths. elim from_dir_filepaths [
        | none ↦ give none
        | some paths ↦ (rename_all from to paths >>= λ _. give (some tt))
      ]

  unfoldable pub end_rename : String → String → Op os Reply
  unfolding trigger
  end_rename from to = call (os.rename from to) >>= λ res.
      if res
      then (trigger os true "rename" "after" from to >>= λ _. give (success 0))
      else (λ s. done (error (os.errno s.world)) s)

  -- Without a result, the walk through the directory was too deep.
  unfoldable pub lfs_rename : ℕ → String → String → ℕ → Op os (Option Reply)
  unfolding trigger get_original_inode lfs_recursive_rename end_rename rename_item
  lfs_rename depth from to flags = do
    _ ← trigger os false "rename" "before" from to
    (if flags == 0
        then (get >>= λ s.
            if get_original_inode s.cache from == ""
            then (lfs_recursive_rename depth from to >>= λ renamed. elim renamed [
              | none ↦ give none
              | some _ ↦ (end_rename from to >>= λ r. give (some r))
            ])
            else (rename_cached from to >>= λ _. end_rename from to >>= λ r. give (some r)))
        else give (some (error os.einval)))

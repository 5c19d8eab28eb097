-- ===== src/Fs/Directories.antt =====
-- lazyfs.cpp: the walks through directories, `lfs_get_dir_filenames`, `lfs_is_dir_empty` and `lfs_readdir`.
-- The walk below a directory goes by the depth that is left; without a result, this was not enough.
pub mod Below
use Prim.Native.String.{String, ◌++◌}
use lazyfs.Base.{
  ℕ, zero, suc, ◌*◌, Bool, ◌||◌, Option, none, some, List, [], ◌∷◌, ◌++◌ as append, leb,
  if◌then◌else◌, ◌==◌, nat_eq, string_eq, length,
}
use lazyfs.Os.{Os, Dirent}
use lazyfs.Fs.{Op, done, ◌>>=◌, call}
use lazyfs.Fs.Writes.{Reply, success, error}

-- `string (dirname) + "/" + string (d_name)`
unfoldable pub base_path : String → String → String
base_path dirname d_name = dirname ++ ("/" ++ d_name)

abbrev pub is_dots : String → Bool
is_dots d_name = d_name == "." || d_name == ".."

-- The paths of two walks, one after the other.
abbrev pub both : Option (List String) → Option (List String) → Option (List String)
both none rest = none
both (some paths) none = none
both (some paths) (some rest) = some (append paths rest)

module _ (os : Os) where
  -- The loop over the entries of a directory, with the walk through what stands below one.
  unfoldable pub entries_filenames :
      (String → os.State → Option (List String) × os.State)
      → String
      → List Dirent
      → os.State
      → Option (List String) × os.State
  unfolding base_path
  entries_filenames walk dirname [] w = (some [], w)
  entries_filenames walk dirname (de ∷ entries) w =
      let path = base_path dirname de.d_name in
      let (below, w1) = if is_dots de.d_name then (some [], w) else walk path w in
      let (rest, w2) = entries_filenames walk dirname entries w1 in
      let here = if is_dots de.d_name then [] else if de.is_file then path ∷ [] else [] in
      (both (some here) (both below rest), w2)

  -- The paths of the regular files below a directory.
  unfoldable pub lfs_get_dir_filenames : ℕ → String → os.State → Option (List String) × os.State
  unfolding entries_filenames
  lfs_get_dir_filenames zero dirname w = (none, w)
  lfs_get_dir_filenames (suc depth) dirname w =
      let (from_dir, w1) = os.opendir dirname w in
      elim from_dir [
        | none ↦ (some [], w1)
        | some entries ↦
            let (paths, w2) = entries_filenames (lfs_get_dir_filenames depth) dirname entries w1 in
            (paths, os.closedir dirname w2)
      ]

  -- `none` stands for -1. There are at most the entries "." and "..".
  unfoldable pub lfs_is_dir_empty : String → os.State → Option Bool × os.State
  lfs_is_dir_empty dirname w =
      let (from_dir, w1) = os.opendir dirname w in
      elim from_dir [
        | none ↦ (none, w1)
        | some entries ↦ (some (leb (length entries) 2), os.closedir dirname w1)
      ]

  -- The entries are given to a function of FUSE, which is true where there is no room left.
  unfoldable pub fill_entries :
      (String → ℕ → ℕ → os.State → Bool × os.State) → List Dirent → os.State → Unit {0} × os.State
  fill_entries filler [] w = (tt, w)
  fill_entries filler (de ∷ entries) w =
      let (full, w1) = filler de.d_name de.d_ino (de.d_type * 4096) w in
      let rest = fill_entries filler entries w1 in if full then (tt, w1) else rest

  unfoldable pub lfs_readdir : (String → ℕ → ℕ → os.State → Bool × os.State) → String → Op os Reply
  unfolding fill_entries
  lfs_readdir filler path = call (os.opendir path) >>= λ dp. elim dp [
    | none ↦ (λ s. done (error (os.errno s.world)) s)
    | some entries ↦
        (call (fill_entries filler entries) >>= λ _. call (λ w. (success 0, os.closedir path w)))
  ]

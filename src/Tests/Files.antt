-- ===== src/Tests/Files.antt =====
-- The theorems on directories, renamings, reads and the report at concrete inputs.
use lazyfs.Base.{
  ℕ, ◌≡◌, refl, String, inl, inr, true, false, none, some, Option, List, [], ◌∷◌, arith, nat_eq,
  string_eq, if◌then◌else◌, ◌==◌, replicate, Bool-cases,
}
use lazyfs.Base.Run.{out_of_bounds}
use lazyfs.Os.{Os, Dirent}
use lazyfs.Item.{new_item, new_metadata}
use lazyfs.Cache.{
  find_files_mapped_to_inode, Cache, is_block_cached, get_original_inode, has_content_cached,
  get_content_metadata,
}
use lazyfs.Cache.Files.{report_unsynced_data, report_unsynced}
use lazyfs.Cache.Rename.{IsRenamed}
use lazyfs.Engine.Release.{get_dirty_blocks_info}
use lazyfs.Fs.{Fs, new, done, failed}
use lazyfs.Fs.Attributes.{lfs_getattr}
use lazyfs.Fs.Directories.{base_path, lfs_get_dir_filenames}
use lazyfs.Fs.Directories.Below.{IsBelow, Lists, IsHigher, lfs_get_dir_filenames-Lists}
use lazyfs.Fs.Hooks.Quiet.{IsQuiet}
use lazyfs.Fs.Reads.{lfs_read}
use lazyfs.Fs.Reads.Uncached.{lfs_read-uncached}
use lazyfs.Fs.Renames.{lfs_rename}
use lazyfs.Fs.Renames.Cached.{lfs_rename-IsRenamed}
use lazyfs.Fs.Report.{command_unsynced_data_report, is_reported}
use lazyfs.Fs.Report.PastEnd.{command_unsynced_data_report-reported}
use lazyfs.Fs.Writes.{FileInfo, success, error, blocks_of}
use lazyfs.Tests.Data.{small, quiet, cache, engine, entry}
use lazyfs.Tests.Caches.{engine-IsKnown}

-- The directory "/d" has the file "f".
abbrev entries : List Dirent
entries =
    record { d_name = "."; d_ino = 1; d_type = 4; is_file = false }
    ∷ record { d_name = "f"; d_ino = 2; d_type = 8; is_file = true }
    ∷ []

abbrev dirs : String → Option (List Dirent)
dirs path = if path == "/d" then some entries else none

abbrev height : String → ℕ
height path = if path == "/d" then 1 else 0

abbrev with_dirs : Os
with_dirs = record quiet { opendir = λ path w. (dirs path, w) }

dirs-IsHigher : (p : String) (es : List Dirent) → dirs p ≡ some es → IsHigher height p es
unfolding base_path
dirs-IsHigher p es h = elim (Bool-cases (p == "/d")) [
  | inl e ↦
      let k : p ≡ "/d" = (string_eq.same_iff p "/d").0 e in
      let g : some entries ≡ some es = rw e at h in
      let f : entries ≡ es = cc in
      rw (← f) (rw k ((λ i. let bad = i in cc), ((λ i. omega arith), tt)))
  | inr e ↦ (let g : none ≡ some es = rw e at h in cc)
]

lfs_get_dir_filenames-Lists_example :
    Lists (lfs_get_dir_filenames with_dirs 2 "/d" tt).0 (IsBelow dirs "/d")
lfs_get_dir_filenames-Lists_example =
    lfs_get_dir_filenames-Lists with_dirs dirs height dirs-IsHigher (λ p w. refl) 2 "/d" tt
      (omega arith)

-- The operating system refuses the renaming.
abbrev refusing : Os
refusing = record quiet { rename = λ from to w. (false, w); errno = λ w. 13 }

abbrev before_rename : Fs refusing
before_rename = new refusing small cache [] tt

before_rename-IsQuiet : IsQuiet refusing "rename" "a" before_rename
unfolding new
before_rename-IsQuiet = record { before = refl; after = refl; no_fault = refl }

lfs_rename-IsRenamed_example :
    (cache' : Cache) × IsRenamed cache "a" "b" "7" cache'
    × (lfs_rename refusing 3 "a" "b" 0 before_rename
        ≡ done (some (error 13)) (record before_rename { cache = cache'; world = tt }))
unfolding new
lfs_rename-IsRenamed_example =
    lfs_rename-IsRenamed refusing "a" "b" "7" before_rename before_rename-IsQuiet 3 false tt
      engine-IsKnown refl refl refl

-- A file of 100 bytes, all 9, of which the blocks 5 and 6 are cached.
abbrev nines : Os
nines = record quiet { pread = λ fd size offset w. (some (replicate size 9), w) }

abbrev sized : Cache
sized = record cache {
  contents = ("7", record new_item { metadata = record new_metadata { size = 100 } }) ∷ [];
}

abbrev before_read : Fs nines
before_read = new nines small sized [] tt

before_read-IsQuiet : IsQuiet nines "read" "a" before_read
unfolding new
before_read-IsQuiet = record { before = refl; after = refl; no_fault = refl }

abbrev opened : FileInfo
opened = record { fh = some 4; direct_io = false; flags = 0 }

lfs_read-uncached_example :
    lfs_read nines (0 ∷ 0 ∷ []) (some opened) "a" (0 ∷ 0 ∷ 0 ∷ []) 20 before_read
    ≡ done (success 3, 9 ∷ 9 ∷ 9 ∷ []) (record before_read { cache = sized; world = tt })
unfolding new lfs_getattr get_original_inode has_content_cached get_content_metadata is_block_cached
    blocks_of
lfs_read-uncached_example =
    lfs_read-uncached nines opened "a" "7" (0 ∷ 0 ∷ []) (0 ∷ 0 ∷ 0 ∷ []) (9 ∷ 9 ∷ 9 ∷ []) 20 4
      before_read _ sized (record new_metadata { size = 100 }) tt tt before_read-IsQuiet refl
      (omega arith) refl refl refl refl (omega arith) (omega arith) (omega arith) (omega arith)
      (refl, (refl, tt)) refl (omega arith)

-- Block 5 is not synced.
abbrev unsynced : Cache
unsynced = record cache {
  engine = record engine {
    owner_ordered_pages_mapping = ("7", (5, record entry { is_synced = false }) ∷ []) ∷ [];
  };
  contents = ("7", record new_item { data_synced = false }) ∷ [];
}

command_unsynced_data_report-reported_example :
    command_unsynced_data_report quiet [] (new quiet small unsynced [] tt) ≡ failed out_of_bounds
unfolding new report_unsynced_data report_unsynced get_dirty_blocks_info is_reported
    find_files_mapped_to_inode
command_unsynced_data_report-reported_example =
    command_unsynced_data_report-reported quiet [] _ (new quiet small unsynced [] tt) refl

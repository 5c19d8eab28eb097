-- ===== src/Fs/Report/PastEnd.antt =====
-- lazyfs.cpp, `command_unsynced_data_report`: what the report reads behind the blocks of an item.
use lazyfs.Base.{
  ℕ, ◌≡◌, refl, String, Bool, true, false, ◌||◌, List, [], ◌∷◌, inl, inr, if◌then◌else◌, Bool-cases,
}
use lazyfs.Base.Run.{ok, fault, out_of_bounds}
use lazyfs.Os.{Os}
use lazyfs.Cache.{find_files_mapped_to_inode}
use lazyfs.Cache.Files.{report_unsynced_data}
use lazyfs.Fs.{Fs, done, failed}
use lazyfs.Fs.Report.{
  DirtyBlock, DirtyItem, unsynced_bytes, add_bytes, report_blocks, is_reported, report_items,
  command_unsynced_data_report, is_empty, has_one_of,
}

-- Some item of a report is gone through: it has blocks, a path, and, where paths are given, one of them.
abbrev pub some_reported : List (String × String) → List String → List DirtyItem → Bool
some_reported mapping paths [] = false
some_reported mapping paths ((ino, size, blocks) ∷ rest) =
    is_reported paths (find_files_mapped_to_inode ino mapping) (ino, size, blocks)
    || some_reported mapping paths rest

report_blocks-fault :
    (total : ℕ) (block : DirtyBlock) (rest : List DirtyBlock)
    → report_blocks total (block ∷ rest) ≡ fault out_of_bounds
unfolding report_blocks
report_blocks-fault total block [] = refl
report_blocks-fault total (id, offs, page) (next ∷ rest) =
    report_blocks-fault (add_bytes total offs) next rest

is_reported-nil :
    (paths files : List String) (ino : String) (size : ℕ)
    → is_reported paths files (ino, size, []) ≡ false
unfolding is_reported
is_reported-nil paths files ino size =
    elim (Bool-cases (if is_empty paths then true else has_one_of paths files)) [
      | inl e ↦ rw e refl
      | inr e ↦ rw e refl
    ]

report_items-reported :
    (mapping : List (String × String)) (paths : List String) (total : ℕ) (items : List DirtyItem)
    → report_items mapping paths total items
      ≡ (if some_reported mapping paths items then fault out_of_bounds else ok total)
unfolding report_items
report_items-reported mapping paths total [] = refl
report_items-reported mapping paths total ((ino, size, []) ∷ rest) =
    rw (is_reported-nil paths (find_files_mapped_to_inode ino mapping) ino size)
      (report_items-reported mapping paths total rest)
report_items-reported mapping paths total ((ino, size, b ∷ blocks) ∷ rest) =
    elim (Bool-cases
      (is_reported paths (find_files_mapped_to_inode ino mapping) (ino, size, b ∷ blocks))) [
        | inl e ↦ rw e (rw (report_blocks-fault total b blocks) refl)
        | inr e ↦ rw e (report_items-reported mapping paths total rest)
      ]

-- Where the list of what is not synced can be made, the report reads behind the end of a vector if
-- an item of the list has blocks that are not synced, a path, and, where paths are given, one of
-- these; otherwise it reports 0 bytes and changes nothing.
pub command_unsynced_data_report-reported :
    (os : Os) (paths : List String) (items : List DirtyItem) (s : Fs os)
    → report_unsynced_data s.cache ≡ ok items
    → command_unsynced_data_report os paths s ≡ (
        if some_reported s.cache.file_inode_mapping paths items
        then failed out_of_bounds
        else done 0 s)
unfolding command_unsynced_data_report unsynced_bytes
command_unsynced_data_report-reported os paths items s h =
    elim (Bool-cases (some_reported s.cache.file_inode_mapping paths items)) [
      | inl e ↦ rw e (
          rw
            (
              command_unsynced_data_report,
              unsynced_bytes,
              h,
              report_items-reported s.cache.file_inode_mapping paths 0 items,
              e,
            )
            refl)
      | inr e ↦ rw e (
          rw
            (
              command_unsynced_data_report,
              unsynced_bytes,
              h,
              report_items-reported s.cache.file_inode_mapping paths 0 items,
              e,
            )
            refl)
    ]

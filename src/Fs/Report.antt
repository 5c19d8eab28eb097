-- ===== src/Fs/Report.antt =====
-- lazyfs.cpp, `command_unsynced_data_report`: the report of the blocks that are not synced. The lines that
-- are logged are left out; what they are computed from is read as in the code.
pub mod PastEnd
use lazyfs.Base.{
  ℕ, ◌≡◌, refl, ◌+◌, ◌-◌, ◌%◌, ◌^◌, String, Bool, true, false, ◌&&◌, ◌||◌, Option, none, some, List,
  [], ◌∷◌, if◌then◌else◌, nat_eq, string_eq, elem,
}
use lazyfs.Base.Run.{Run, ok, fault, Fault, out_of_bounds, ◌>>=◌}
use lazyfs.Os.{Os}
use lazyfs.Cache.{Cache, find_files_mapped_to_inode}
use lazyfs.Cache.Files.{report_unsynced_data}
use lazyfs.Fs.{Fs, Op, done, failed, and_then, give, from_run}

-- A block with its readable offsets and its page; an item with its size and its blocks.
abbrev pub DirtyBlock : Type 0
DirtyBlock = ℕ × (ℕ × Option ℕ) × ℕ

abbrev pub DirtyItem : Type 0
DirtyItem = String × ℕ × List DirtyBlock

-- `offs.second - offs.first + 1`, added to a `size_t`; `none` is -1.
unfoldable pub add_bytes : ℕ → ℕ × Option ℕ → ℕ
add_bytes total (first, none) = (total + 2 ^ 64 - first) % 2 ^ 64
add_bytes total (first, some second) = (total + second + 1 + 2 ^ 64 - first) % 2 ^ 64

-- The loop over the blocks. Each round compares the block with the one behind it, `*std::next (block_it)`,
-- which the last one does not have.
unfoldable pub report_blocks : ℕ → List DirtyBlock → Run ℕ
unfolding add_bytes
report_blocks total [] = ok total
report_blocks total (block ∷ []) = fault out_of_bounds
report_blocks total ((id, offs, page) ∷ next ∷ rest) =
    report_blocks (add_bytes total offs) (next ∷ rest)

-- `find_first_of (files, paths) != files.end ()`
unfoldable pub has_one_of : List String → List String → Bool
has_one_of paths [] = false
has_one_of paths (file ∷ files) = elem file paths || has_one_of paths files

abbrev pub is_empty {ℓ} : {A : Type ℓ} → List A → Bool
is_empty [] = true
is_empty (x ∷ l) = false

-- Whether the blocks of an item are gone through.
unfoldable pub is_reported : List String → List String → DirtyItem → Bool
unfolding has_one_of
is_reported paths_to_exclude files_mapped (ino, size, blocks) =
    (if is_empty paths_to_exclude then true else has_one_of paths_to_exclude files_mapped)
    && (if is_empty blocks then false else if is_empty files_mapped then false else true)

unfoldable pub report_items : List (String × String) → List String → ℕ → List DirtyItem → Run ℕ
unfolding is_reported report_blocks find_files_mapped_to_inode
report_items mapping paths_to_exclude total [] = ok total
report_items mapping paths_to_exclude total ((ino, size, blocks) ∷ rest) =
    (if is_reported paths_to_exclude (find_files_mapped_to_inode ino mapping) (ino, size, blocks)
      then report_blocks total blocks
      else ok total)
    >>= λ total'. report_items mapping paths_to_exclude total' rest

-- The number of bytes that are not synced.
unfoldable pub unsynced_bytes : Cache → List String → Run ℕ
unfolding report_unsynced_data report_items
unsynced_bytes cache paths_to_exclude = report_unsynced_data cache >>= λ res.
    report_items cache.file_inode_mapping paths_to_exclude 0 res

module _ (os : Os) where
  unfoldable pub command_unsynced_data_report : List String → Op os ℕ
  unfolding unsynced_bytes
  command_unsynced_data_report paths_to_exclude s =
      from_run s (unsynced_bytes s.cache paths_to_exclude >>= λ total. ok (total, s.cache, s.world))

  -- The report with which a fault begins to strike.
  unfoldable pub report_injecting : Op os Unit
  unfolding command_unsynced_data_report
  report_injecting s =
      and_then (command_unsynced_data_report s.injecting_fault s) (λ total. give tt)

  -- It fails as the computation of the bytes does, and otherwise changes nothing.
  pub report_injecting_ok :
      (s : Fs os) (n : ℕ)
      → unsynced_bytes s.cache s.injecting_fault ≡ ok n
      → report_injecting s ≡ done tt s
  unfolding report_injecting command_unsynced_data_report
  report_injecting_ok s n h = rw (report_injecting, command_unsynced_data_report, h) refl

  pub report_injecting_fault :
      (s : Fs os) (e : Fault)
      → unsynced_bytes s.cache s.injecting_fault ≡ fault e
      → report_injecting s ≡ failed e
  unfolding report_injecting command_unsynced_data_report
  report_injecting_fault s e h = rw (report_injecting, command_unsynced_data_report, h) refl

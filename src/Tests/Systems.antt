-- ===== src/Tests/Systems.antt =====
-- The theorems on the whole system at concrete inputs.
use lazyfs.Base.{◌≡◌, ◌≢◌, refl, String, none, [], ◌∷◌, arith, elem, nat_eq, string_eq}
use lazyfs.Base.Assoc.{contains, put}
use lazyfs.Base.Run.{fault, out_of_range}
use lazyfs.Cache.{Cache}
use lazyfs.Config.Load.Sound.{IsUsable}
use lazyfs.Faults.{allow_crash_fs_operations}
use lazyfs.Fs.{Fs, new, failed}
use lazyfs.Fs.Calls.{lfs_mkdir, pass_on}
use lazyfs.Fs.Crash.{push_crash_fault, add_crash_fault, trigger_crash_fault}
use lazyfs.Cache.Files.{report_unsynced_data}
use lazyfs.Fs.Report.{unsynced_bytes, report_items}
use lazyfs.Fs.Writes.{success}
use lazyfs.Main.Start.{IsReady, find-entries}
use lazyfs.System.{Reachable, start, step, command, mkdir}
use lazyfs.System.Running.{Reachable-IsRunning, trigger_crash_fault-range}
use lazyfs.Tests.Data.{small, small-IsSound, quiet, engine}
use lazyfs.Worker.{handle_command, no_complaint}
use lazyfs.Worker.Text.{
  tokens, split, cons_first, drop_empty_last, has_prefix, after_equals, behind_equals,
}
use lazyfs.Worker.CrashCommand.{crash_command, crash_attributes, crash_attribute, check_paths}

abbrev empty : Cache
empty = record {
  engine = record engine { owner_pages_mapping = []; free_pages = 1 ∷ 0 ∷ [] };
  contents = [];
  file_inode_mapping = [];
}

abbrev ready : Fs quiet
ready = new quiet small empty [] tt

ready-IsReady : IsReady quiet ready
unfolding new
ready-IsReady = record {
  usable = record { sound = small-IsSound; paged = omega arith };
  free = refl;
  known = λ o pages h. cc;
  empty = refl;
  entries_before = λ op. find-entries quiet op allow_crash_fs_operations;
  entries_after = λ op. find-entries quiet op allow_crash_fs_operations;
}

-- A crash fault is set, and a directory is made.
abbrev armed : Fs quiet
armed = record ready {
  crash_faults_after_map = put "fsync" ((".*/a.*", "none") ∷ []) ready.crash_faults_after_map;
}

armed-Reachable : Reachable ready armed
unfolding new handle_command has_prefix crash_command tokens split cons_first drop_empty_last
    after_equals behind_equals crash_attributes crash_attribute check_paths add_crash_fault
    push_crash_fault lfs_mkdir pass_on
armed-Reachable =
    step (success 0) armed
      (step no_complaint armed start
        (command none "lazyfs::crash::timing=after::op=fsync::from_rgx=/a") refl)
      (mkdir "/d" 0) refl

Reachable-IsRunning_example :
    (armed.config ≡ small)
    × IsUsable small
    × ((op : String)
        → contains op armed.crash_faults_before_map ≡ elem op allow_crash_fs_operations)
    × ((op : String) → contains op armed.crash_faults_after_map ≡ elem op allow_crash_fs_operations)
unfolding new
Reachable-IsRunning_example = Reachable-IsRunning ready armed ready-IsReady armed-Reachable

armed_reported : unsynced_bytes armed.cache armed.injecting_fault ≢ fault out_of_range
unfolding new unsynced_bytes report_unsynced_data report_items
armed_reported = λ e. cc

trigger_crash_fault-range_example :
    ¬ (trigger_crash_fault quiet "fsync" "after" "/b" "" armed ≡ failed out_of_range)
trigger_crash_fault-range_example =
    trigger_crash_fault-range ready armed "fsync" "after" "/b" "" ready-IsReady armed-Reachable refl
      armed_reported

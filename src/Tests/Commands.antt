-- ===== src/Tests/Commands.antt =====
-- The theorems on the worker for faults at concrete inputs.
use lazyfs.Base.{◌≡◌, refl, none, some, [], ◌∷◌, arith, nat_eq, string_eq}
use lazyfs.Base.Run.{out_of_range}
use lazyfs.Os.{Os}
use lazyfs.Faults.{pos, reorder}
use lazyfs.Fs.Commands.Single.{given_seq}
use lazyfs.Cache.{Cache}
use lazyfs.Fs.{Fs, new, done, killed, failed, ◌>>=◌}
use lazyfs.Cache.Files.{report_unsynced_data}
use lazyfs.Fs.Report.{unsynced_bytes, report_items}
use lazyfs.Fs.Crash.{trigger_crash_fault}
use lazyfs.Worker.{handle_command, worker_loop}
use lazyfs.Worker.Text.{
  is_numbers, is_number, tokens, split, drop_empty_last, has_prefix, after_equals, behind_equals,
}
use lazyfs.Worker.CrashCommand.{crash_attributes, crash_attribute, check_paths}
use lazyfs.Worker.RoundTrip.{torn_seq_text, handle_command-torn_seq}
use lazyfs.Worker.Crashes.{crash_text, handle_command-crash, handle_command-no_operation}
use lazyfs.Worker.Clearing.{worker_loop-clear_cache}
use lazyfs.Tests.Data.{small, quiet, cache}
use lazyfs.Tests.Caches.{engine-IsKnown}

abbrev start : Fs quiet
start = new quiet small cache [] tt

-- The numbers of the command are read.
abbrev reading : Os
reading = record quiet { numbers = λ text. some (pos 1 ∷ pos 2 ∷ []); stoi = λ text. some (pos 1) }

abbrev reading_start : Fs reading
reading_start = new reading small cache [] tt

handle_command-torn_seq_example :
    handle_command reading none (torn_seq_text "/a" "write" "1,2" "1") reading_start
    ≡ done
        (record { complaints = []; errors = [] })
        (record reading_start {
          faults = ("/a", reorder (given_seq "write" (pos 1) (pos 1 ∷ pos 2 ∷ [])) ∷ []) ∷ [];
        })
unfolding new is_numbers is_number
handle_command-torn_seq_example =
    handle_command-torn_seq reading none "/a" "1,2" "1" (pos 1) (pos 1 ∷ pos 2 ∷ []) reading_start
      refl refl refl refl refl refl (omega arith) (omega arith, (omega arith, tt)) refl

handle_command-crash_example :
    (handle_command quiet none (crash_text "after" "fsync" "/a") >>= λ _.
    trigger_crash_fault quiet "fsync" "after" "/a" "")
      start
    ≡ killed tt
unfolding new unsynced_bytes report_unsynced_data report_items
handle_command-crash_example =
    handle_command-crash "fsync" "/a" refl refl refl refl refl quiet none "/a" "" [] ".*/a.*" 0
      start refl refl refl refl

handle_command-no_operation_example :
    handle_command quiet none "lazyfs::crash::timing=before::from_rgx=/a" start
    ≡ failed out_of_range
unfolding new tokens split drop_empty_last has_prefix after_equals behind_equals crash_attributes
    crash_attribute check_paths
handle_command-no_operation_example =
    handle_command-no_operation quiet none "lazyfs::crash::timing=before::from_rgx=/a" start refl
      (refl, (refl, (refl, (refl, tt)))) refl refl refl

-- The FIFO gives one command again and again.
abbrev talking : Os
talking = record quiet { read = λ fd size w. (some "lazyfs::clear-cache\n", w) }

abbrev listening : Fs talking
listening = new talking small cache [] tt

worker_loop-clear_cache_example :
    (cache' : Cache) × (cache'.contents ≡ [])
    × (worker_loop talking 3 (some 8) (some (some 9)) listening
        ≡ worker_loop talking 2
            (some 8)
            (some (some 9))
            (record listening { cache = cache'; world = tt }))
unfolding new
worker_loop-clear_cache_example =
    worker_loop-clear_cache talking 2 (some 8) (some 9) listening tt engine-IsKnown refl

-- ===== src/Fs/Hooks.antt =====
-- lazyfs.cpp: the triggers with which an operation begins and ends, and the commands of the cache.
-- `held` says that the thread holds `cache_command_lock` shared; it waits for ever for the lock
-- that the clearing of the cache takes then.
pub mod Quiet
use lazyfs.Base.{String, Bool, List, [], ◌∷◌, if◌then◌else◌, nat_eq, string_eq}
use lazyfs.Base.Run.{ok, deadlock, ◌>>=◌ as run_bind}
use lazyfs.Os.{Os}
use lazyfs.Cache.Files.{clear_all_cache, full_checkpoint}
use lazyfs.Inject.ClearCache.{Action, kill, clear_cache, trigger_configured_clear_fault}
use lazyfs.Fs.{Op, ◌>>=◌, give, fail, with_cache}
use lazyfs.Fs.Crash.{crash, trigger_crash_fault}
use lazyfs.Fs.Report.{report_injecting}

module _ (os : Os) where
  unfoldable pub command_fault_clear_cache : Bool → Op os Unit
  unfolding clear_all_cache
  command_fault_clear_cache held =
      if held
      then fail deadlock
      else with_cache
          λ config cache w. run_bind (clear_all_cache config cache) λ cache'. ok (tt, cache', w)

  unfoldable pub command_checkpoint : Bool → Op os Unit
  unfolding full_checkpoint
  command_checkpoint held =
      if held
      then fail deadlock
      else with_cache λ config cache w.
        run_bind (full_checkpoint os config cache w) λ (cache', w'). ok (tt, cache', w')

  -- What the faults that strike do, each after a report.
  unfoldable pub perform : Bool → List Action → Op os Unit
  unfolding command_fault_clear_cache crash report_injecting
  perform held [] = give tt
  perform held (kill ∷ actions) = crash os
  perform held (clear_cache ∷ actions) =
      let rest = perform held actions in
      report_injecting os >>= λ _. command_fault_clear_cache held >>= λ _. rest

  unfoldable pub trigger_configured : Bool → String → String → String → String → Op os Unit
  unfolding trigger_configured_clear_fault perform
  trigger_configured held opname optiming from_path to_path s =
      let (faults, actions) =
        trigger_configured_clear_fault s.faults opname optiming from_path to_path in
      perform held actions (record s { faults = faults })

  -- The two calls that stand together in each operation.
  unfoldable pub trigger : Bool → String → String → String → String → Op os Unit
  unfolding trigger_crash_fault trigger_configured
  trigger held opname optiming from to = trigger_crash_fault os opname optiming from to >>= λ _.
      trigger_configured held opname optiming from to

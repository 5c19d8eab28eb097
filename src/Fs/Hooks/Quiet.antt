-- ===== src/Fs/Hooks/Quiet.antt =====
-- lazyfs.cpp: the triggers of an operation for which no fault is set, and the clear-cache faults
-- that strike under the lock.
use lazyfs.Base.{
  ℕ, String, ◌≡◌, refl, Bool, true, none, some, List, [], ◌∷◌, if◌then◌else◌, ◌==◌, nat_eq,
  string_eq,
}
use lazyfs.Base.Assoc.{find}
use lazyfs.Base.Run.{ok, deadlock}
use lazyfs.Os.{Os}
use lazyfs.Inject.ClearCache.{Action, clear_cache, trigger_configured_clear_fault}
use lazyfs.Fs.{Fs, done, failed}
use lazyfs.Fs.Crash.{trigger_crash_fault, crash_loop}
use lazyfs.Fs.Report.{unsynced_bytes, report_injecting_ok}
use lazyfs.Fs.Hooks.{trigger, trigger_configured, perform, command_fault_clear_cache}

module _ (os : Os) where
  -- The crash faults of an operation at one of its ends.
  abbrev pub crash_faults : Fs os → String → lazyfs.Fs.CrashFaults os
  crash_faults s optiming =
      if optiming == "before" then s.crash_faults_before_map else s.crash_faults_after_map

  -- No crash fault is set for the operation, and no fault for the path.
  pub record IsQuiet (op path : String) (s : Fs os) : Type 0 where
    pub before : find op s.crash_faults_before_map ≡ some []
    pub after : find op s.crash_faults_after_map ≡ some []
    pub no_fault : find path s.faults ≡ none

  pub trigger-before :
      (held : Bool) (op path to : String) (s : Fs os)
      → IsQuiet op path s
      → trigger os held op "before" path to s ≡ done tt s
  unfolding trigger trigger_crash_fault crash_loop trigger_configured trigger_configured_clear_fault
      perform
  trigger-before held op path to s q = simp (
    trigger, trigger_crash_fault, trigger_configured, trigger_configured_clear_fault, q.before,
    q.no_fault,
  )

  pub trigger-after :
      (held : Bool) (op path to : String) (s : Fs os)
      → IsQuiet op path s
      → trigger os held op "after" path to s ≡ done tt s
  unfolding trigger trigger_crash_fault crash_loop trigger_configured trigger_configured_clear_fault
      perform
  trigger-after held op path to s q = simp (
    trigger, trigger_crash_fault, trigger_configured, trigger_configured_clear_fault, q.after,
    q.no_fault,
  )

  -- If the first thing that the clear-cache faults of a path do at the end of an operation is
  -- to clear the cache, and the report before this ends, then the operation never ends, since its thread waits for a lock that
  -- it holds itself.
  pub trigger_configured-deadlock :
      (op path to : String) (actions : List Action) (n : ℕ) (s : Fs os)
      → unsynced_bytes s.cache s.injecting_fault ≡ ok n
      → (trigger_configured_clear_fault s.faults op "after" path to).1 ≡ clear_cache ∷ actions
      → trigger_configured os true op "after" path to s ≡ failed deadlock
  unfolding trigger_configured perform command_fault_clear_cache
  trigger_configured-deadlock op path to actions n s r h =
      let (faults, _) = trigger_configured_clear_fault s.faults op "after" path to in
      rw (trigger_configured, h, perform, report_injecting_ok os (record s { faults = faults }) n r)
        refl

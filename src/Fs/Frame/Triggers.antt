-- ===== src/Fs/Frame/Triggers.antt =====
-- lazyfs.cpp: what the triggers of faults and the commands of the cache leave alone.
use lazyfs.Base.{
  String, ◌≡◌, refl, Bool, some, List, [], ◌∷◌, if◌then◌else◌, ◌==◌, arith, nat_eq, string_eq,
}
use lazyfs.Base.Assoc.{find, put, contains, contains-find, contains-put}
use lazyfs.Os.{Os}
use lazyfs.Fs.{Fs}
use lazyfs.Fs.Report.{command_unsynced_data_report, report_injecting}
use lazyfs.Fs.Crash.{
  crash, around, push_crash_fault, add_crash_fault, matches, crash_loop, trigger_crash_fault,
}
use lazyfs.Inject.ClearCache.{trigger_configured_clear_fault, Action, kill, clear_cache}
use lazyfs.Fs.Hooks.{
  command_fault_clear_cache, command_checkpoint, perform, trigger_configured, trigger,
}
use lazyfs.Fs.Frame.{
  and_then-Ends, from_run-Ends, Keeps, ends, dies, fails, like, same, Ends-trans, >>=-Keeps,
  if-Keeps, if-Ends, Option-Ends, with_cache-Keeps, give-Keeps, fail-Keeps,
}

put-entries :
    {V : Type 0} (op op' : String) (m : List (String × V)) (v v' : V)
    → find op m ≡ some v
    → contains op' (put op v' m) ≡ contains op' m
put-entries op op' m v v' e =
    ground (arith, contains-put op op' v' m, contains-find op m, string_eq.same_iff op op', e)

module _ {os : Os} where
  push_before-Keeps :
      (op from to : String)
      → Keeps (
          push_crash_fault os
            (λ s. s.crash_faults_before_map)
            (λ m s. record s { crash_faults_before_map = m })
            op
            from
            to)
  unfolding push_crash_fault
  push_before-Keeps op from to s =
      Option-Ends (find op s.crash_faults_before_map) (fails _) λ list e.
        Option-Ends (around os from) (fails _) λ rgx e'. ends _ _ (record {
          config = refl;
          before = λ op'. put-entries op op' _ list _ e;
          after = λ op'. refl;
        })

  push_after-Keeps :
      (op from to : String)
      → Keeps (
          push_crash_fault os
            (λ s. s.crash_faults_after_map)
            (λ m s. record s { crash_faults_after_map = m })
            op
            from
            to)
  unfolding push_crash_fault
  push_after-Keeps op from to s = Option-Ends (find op s.crash_faults_after_map) (fails _) λ list e.
      Option-Ends (around os from) (fails _) λ rgx e'. ends _ _ (record {
        config = refl;
        before = λ op'. refl;
        after = λ op'. put-entries op op' _ list _ e;
      })

  pub add_crash_fault-Keeps :
      (timing op from to : String) → Keeps (add_crash_fault os timing op from to)
  unfolding add_crash_fault
  add_crash_fault-Keeps timing op from to =
      if-Keeps (timing == "before") (push_before-Keeps op from to) (push_after-Keeps op from to)

  report_injecting-Keeps : Keeps (report_injecting os)
  unfolding report_injecting command_unsynced_data_report
  report_injecting-Keeps s = and_then-Ends (from_run-Ends s _) λ total s'. ends tt s' (same s')

  crash-Keeps : Keeps (crash os)
  unfolding crash
  crash-Keeps = >>=-Keeps report_injecting-Keeps λ _ s. dies s.world

  crash_loop-Keeps :
      (is_multi_path : Bool) (from to : String) (list : List (os.Regex × String))
      → Keeps (crash_loop os is_multi_path from to list)
  unfolding crash_loop
  crash_loop-Keeps is_multi_path from to [] s = ends tt s (same s)
  crash_loop-Keeps is_multi_path from to (it ∷ rest) s =
      Option-Ends (matches os is_multi_path from to it) (fails _)
        λ b e. if-Ends b (crash-Keeps s) (crash_loop-Keeps is_multi_path from to rest s)

  pub trigger_crash_fault-Keeps :
      (op timing from to : String) → Keeps (trigger_crash_fault os op timing from to)
  unfolding trigger_crash_fault
  trigger_crash_fault-Keeps op timing from to s =
      Option-Ends
        (find op
          (if timing == "before" then s.crash_faults_before_map else s.crash_faults_after_map))
        (fails _) λ list e. crash_loop-Keeps _ from to list s

  pub command_fault_clear_cache-Keeps : (held : Bool) → Keeps (command_fault_clear_cache os held)
  unfolding command_fault_clear_cache
  command_fault_clear_cache-Keeps held = if-Keeps held (fail-Keeps _) (with_cache-Keeps _)

  pub command_checkpoint-Keeps : (held : Bool) → Keeps (command_checkpoint os held)
  unfolding command_checkpoint
  command_checkpoint-Keeps held = if-Keeps held (fail-Keeps _) (with_cache-Keeps _)

  perform-Keeps : (held : Bool) (actions : List Action) → Keeps (perform os held actions)
  unfolding perform
  perform-Keeps held [] = give-Keeps tt
  perform-Keeps held (kill ∷ actions) = crash-Keeps
  perform-Keeps held (clear_cache ∷ actions) =
      >>=-Keeps report_injecting-Keeps
        λ _. >>=-Keeps (command_fault_clear_cache-Keeps held) λ _. perform-Keeps held actions

  pub trigger_configured-Keeps :
      (held : Bool) (op timing from to : String)
      → Keeps (trigger_configured os held op timing from to)
  unfolding trigger_configured
  trigger_configured-Keeps held op timing from to s =
      let (faults, actions) = trigger_configured_clear_fault s.faults op timing from to in
      let s' : Fs os = record s { faults = faults } in
      Ends-trans (like {s' = s'} refl refl refl) (perform-Keeps held actions s')

  pub trigger-Keeps :
      (held : Bool) (op timing from to : String) → Keeps (trigger os held op timing from to)
  unfolding trigger
  trigger-Keeps held op timing from to =
      >>=-Keeps (trigger_crash_fault-Keeps op timing from to)
        λ _. trigger_configured-Keeps held op timing from to

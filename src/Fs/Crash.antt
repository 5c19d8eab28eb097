-- ===== src/Fs/Crash.antt =====
-- lazyfs.cpp: `add_crash_fault` and `trigger_crash_fault`. Before the process is killed, the unsynced data are
-- reported.
pub mod Kill
use lazyfs.Base.{
  String, Bool, true, not, ◌&&◌, Option, none, some, List, [], ◌∷◌, ◌++◌ as append, if◌then◌else◌,
  ◌==◌, nat_eq, string_eq, elem,
}
use Prim.Native.String.{◌++◌}
use lazyfs.Base.Assoc.{find, put}
use lazyfs.Base.Run.{out_of_range, runtime_error}
use lazyfs.Os.{Os}
use lazyfs.Faults.{fs_op_multi_path}
use lazyfs.Fs.{Fs, CrashFaults, Op, done, killed, failed, ◌>>=◌}
use lazyfs.Fs.Report.{report_injecting}

module _ (os : Os) where
  -- `std::regex (".*" + text + ".*")`
  abbrev pub around : String → Option os.Regex
  around text = os.regex (".*" ++ text ++ ".*")

  unfoldable pub push_crash_fault :
      (Fs os → CrashFaults os)
      → (CrashFaults os → Fs os → Fs os)
      → String
      → String
      → String
      → Op os Unit
  push_crash_fault read write crash_operation crash_regex_from crash_regex_to s =
      elim (find crash_operation (read s)) [
        | none ↦ failed out_of_range
        | some crash_regex_list ↦ elim (around crash_regex_from) [
          | none ↦ failed runtime_error
          | some from_rgx ↦
              let list = append crash_regex_list ((from_rgx, crash_regex_to) ∷ []) in
              done tt (write (put crash_operation list (read s)) s)
        ]
      ]

  unfoldable pub add_crash_fault : String → String → String → String → Op os Unit
  unfolding push_crash_fault
  add_crash_fault crash_timing crash_operation crash_regex_from crash_regex_to =
      if crash_timing == "before"
      then push_crash_fault (λ s. s.crash_faults_before_map)
          (λ m s. record s { crash_faults_before_map = m }) crash_operation crash_regex_from
          crash_regex_to
      else push_crash_fault (λ s. s.crash_faults_after_map)
          (λ m s. record s { crash_faults_after_map = m }) crash_operation crash_regex_from
          crash_regex_to

  -- A crash fault strikes.
  unfoldable pub crash : Op os Unit
  unfolding report_injecting
  crash = report_injecting os >>= λ _. λ s. killed s.world

  -- Whether a crash fault is about the paths; `none` if the expression for the second path throws.
  unfoldable pub matches : Bool → String → String → os.Regex × String → Option Bool
  matches is_multi_path from_op_path to_op_path (from_rgx, to) =
      if is_multi_path
      then elim (around to) [
        | none ↦ none
        | some to_rgx ↦
            let from_matches : Bool =
              if os.regex_match "none" from_rgx
              then os.regex_match from_op_path from_rgx
              else true in
            some (
              if not (to == "none")
              then from_matches && os.regex_match to_op_path to_rgx
              else from_matches)
      ]
      else some (os.regex_match from_op_path from_rgx)

  unfoldable pub crash_loop : Bool → String → String → List (os.Regex × String) → Op os Unit
  unfolding matches crash
  crash_loop is_multi_path from_op_path to_op_path [] s = done tt s
  crash_loop is_multi_path from_op_path to_op_path (it ∷ rest) s =
      let go_on = crash_loop is_multi_path from_op_path to_op_path rest s in
      elim (matches is_multi_path from_op_path to_op_path it) [
        | none ↦ failed runtime_error
        | some regex_match ↦ if regex_match then crash s else go_on
      ]

  unfoldable pub trigger_crash_fault : String → String → String → String → Op os Unit
  unfolding crash_loop
  trigger_crash_fault opname optiming from_op_path to_op_path s =
      let opfaults =
        find opname
          (if optiming == "before" then s.crash_faults_before_map else s.crash_faults_after_map) in
      elim opfaults [
        | none ↦ failed out_of_range
        | some list ↦ crash_loop (elem opname fs_op_multi_path) from_op_path to_op_path list s
      ]

-- ===== src/Fs/Crash/Kill.antt =====
-- lazyfs.cpp: when a crash fault kills the process.
use lazyfs.Base.{
  ℕ, String, ◌≡◌, refl, inl, inr, true, false, some, List, [], ◌∷◌, ◌++◌, arith, nat_eq, string_eq,
  elem, Bool-cases, ==_refl,
}
use lazyfs.Base.Assoc.{find, put, find-put}
use lazyfs.Os.{Os}
use lazyfs.Faults.{fs_op_multi_path}
use lazyfs.Fs.{Fs, done, killed, ◌>>=◌}
use lazyfs.Base.Run.{ok}
use lazyfs.Fs.Report.{unsynced_bytes, report_injecting_ok}
use lazyfs.Fs.Crash.{
  crash, around, matches, crash_loop, add_crash_fault, trigger_crash_fault, push_crash_fault,
}

module _ (os : Os) where
  -- Where the report ends, the process dies.
  crash_lem :
      (s : Fs os) (n : ℕ)
      → unsynced_bytes s.cache s.injecting_fault ≡ ok n
      → crash os s ≡ killed s.world
  unfolding crash
  crash_lem s n r = rw (crash, report_injecting_ok os s n r) refl

  -- The list of an operation is searched to the fault that is added, unless one before it kills.
  crash_loop-append :
      (path to : String) (list : List (os.Regex × String)) (rgx : os.Regex) (text : String) (n : ℕ)
      (s : Fs os)
      → unsynced_bytes s.cache s.injecting_fault ≡ ok n
      → os.regex_match path rgx ≡ true
      → crash_loop os false path to (list ++ (rgx, text) ∷ []) s ≡ killed s.world
  unfolding crash_loop matches
  crash_loop-append path to [] rgx text n s r h = rw h (crash_lem s n r)
  crash_loop-append path to ((rgx', t) ∷ list) rgx text n s r h =
      elim (Bool-cases (os.regex_match path rgx')) [
        | inl e ↦ rw e (crash_lem s n r)
        | inr e ↦ rw e (crash_loop-append path to list rgx text n s r h)
      ]

  -- The state with one crash fault more.
  abbrev pub added : String → List (os.Regex × String) → os.Regex → String → Fs os → Fs os
  added op list rgx text s = record s {
    crash_faults_after_map = put op (list ++ (rgx, text) ∷ []) s.crash_faults_after_map;
  }

  pub add_crash_fault-after :
      (op text to : String) (list : List (os.Regex × String)) (rgx : os.Regex) (s : Fs os)
      → find op s.crash_faults_after_map ≡ some list
      → around os text ≡ some rgx
      → add_crash_fault os "after" op text to s ≡ done tt (added op list rgx to s)
  unfolding add_crash_fault push_crash_fault
  add_crash_fault-after op text to list rgx s known compiles =
      rw (known, compiles, add_crash_fault, push_crash_fault) refl

  trigger_crash_fault-added :
      (op path to text : String) (list : List (os.Regex × String)) (rgx : os.Regex) (s : Fs os)
      → trigger_crash_fault os op "after" path to (added op list rgx text s)
        ≡ crash_loop os
            (elem op fs_op_multi_path)
            path
            to
            (list ++ (rgx, text) ∷ [])
            (added op list rgx text s)
  unfolding trigger_crash_fault
  trigger_crash_fault-added op path to text list rgx s =
      let e : find op (put op (list ++ (rgx, text) ∷ []) s.crash_faults_after_map)
          ≡ some (list ++ (rgx, text) ∷ []) =
        ground
          (arith, find-put op op (list ++ (rgx, text) ∷ []) s.crash_faults_after_map, ==_refl op) in
      rw (e, trigger_crash_fault) refl

  -- A crash fault "after" an operation on one path, for which the map of crash faults has an
  -- entry, kills the process at the end of the next such operation on a path that its
  -- expression matches, and the operating system keeps what it has. The expression can be made, and
  -- the report before the kill ends.
  pub add_crash_fault-trigger :
      (op text path to : String) (list : List (os.Regex × String)) (rgx : os.Regex) (n : ℕ)
      (s : Fs os)
      → unsynced_bytes s.cache s.injecting_fault ≡ ok n
      → elem op fs_op_multi_path ≡ false
      → find op s.crash_faults_after_map ≡ some list
      → around os text ≡ some rgx
      → os.regex_match path rgx ≡ true
      → (add_crash_fault os "after" op text "none" >>= λ _.
            trigger_crash_fault os op "after" path to)
          s
        ≡ killed s.world
  add_crash_fault-trigger op text path to list rgx n s r single known compiles here =
      rw (add_crash_fault-after op text "none" list rgx s known compiles) (
        rw (trigger_crash_fault-added op path to "none" list rgx s) (
          rw single
            (crash_loop-append path to list rgx "none" n (added op list rgx "none" s) r here)))

  -- A crash fault "after" an operation on two paths, for any second path and a first path whose
  -- expression does not match the text "none", kills the process at the end of the next such
  -- operation on any paths. No other crash fault is set for the end of the operation, and the
  -- expressions of the first path and of "none" can be made, and the report before the kill ends.
  pub add_crash_fault-any_path :
      (op text path to : String) (rgx to_rgx : os.Regex) (n : ℕ) (s : Fs os)
      → unsynced_bytes s.cache s.injecting_fault ≡ ok n
      → elem op fs_op_multi_path ≡ true
      → find op s.crash_faults_after_map ≡ some []
      → around os text ≡ some rgx
      → around os "none" ≡ some to_rgx
      → os.regex_match "none" rgx ≡ false
      → (add_crash_fault os "after" op text "none" >>= λ _.
            trigger_crash_fault os op "after" path to)
          s
        ≡ killed s.world
  unfolding crash_loop matches
  add_crash_fault-any_path op text path to rgx to_rgx n s r multi known compiles second other =
      rw (add_crash_fault-after op text "none" [] rgx s known compiles) (
        rw (trigger_crash_fault-added op path to "none" [] rgx s) (
          rw (multi, second, other, crash_loop, matches)
            (crash_lem (added op [] rgx "none" s) n r)))

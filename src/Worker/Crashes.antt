-- ===== src/Worker/Crashes.antt =====
-- lazyfs/src/main.cpp, `fht_worker`: what the command "lazyfs::crash" leads to.
use text.Mathlib.TextEquality.{eq_iff}
use lazyfs.Base.{
  ℕ, ◌≡◌, refl, ap, ap₂, ◌∙◌, String, Bool, true, false, ◌&&◌, not, none, some, Option, List, [],
  ◌∷◌, arith, if◌then◌else◌, ◌==◌, nat_eq, string_eq, elem,
}
use lazyfs.Base.Assoc.{find}
use lazyfs.Base.Run.{ok, out_of_range}
use lazyfs.Os.{Os}
use lazyfs.Faults.{allow_crash_fs_operations, fs_op_multi_path}
use lazyfs.Fs.{Fs, failed, killed, ◌>>=◌, give, and_then_assoc}
use lazyfs.Fs.Crash.{around, add_crash_fault, push_crash_fault, trigger_crash_fault}
use lazyfs.Fs.Crash.Kill.{add_crash_fault-trigger}
use lazyfs.Fs.Report.{unsynced_bytes}
use lazyfs.Worker.{handle_command, no_complaint}
use lazyfs.Worker.Text.{has_prefix, after_equals, behind_equals, tokens}
use lazyfs.Worker.Text.Printed.{cat, no_colon, joined, AreTokens, tokens-joined, cons-ne-nil}
use lazyfs.Worker.CrashCommand.{
  complain, operation_not_available, CrashAttributes, no_crash_attributes, crash_command,
  crash_attributes, crash_attribute, check_paths,
}

-- No attribute gives the operation.
abbrev pub HasNoOp : List String → Type 0
HasNoOp [] = Unit {0}
HasNoOp (current ∷ rest) = (has_prefix "op=" current ≡ false) × HasNoOp rest

crash_attribute-operation :
    (a : CrashAttributes) (current : String)
    → has_prefix "op=" current ≡ false
    → (crash_attribute a current).crash_operation ≡ a.crash_operation
unfolding crash_attribute
crash_attribute-operation a current h = ground arith

crash_attributes-operation :
    (a : CrashAttributes) (parts : List String)
    → HasNoOp parts
    → (crash_attributes a parts).crash_operation ≡ a.crash_operation
unfolding crash_attributes
crash_attributes-operation a [] h = refl
crash_attributes-operation a (current ∷ rest) h =
    rw (crash_attributes-operation (crash_attribute a current) rest h.1)
      (crash_attribute-operation a current h.0)

check_paths-operation : (a : CrashAttributes) → (check_paths a).crash_operation ≡ a.crash_operation
unfolding check_paths
check_paths-operation a = ground arith

module _ (os : Os) where
  add_crash_fault-unknown :
      (timing op from to : String) (s : Fs os)
      → find op s.crash_faults_before_map ≡ none
      → find op s.crash_faults_after_map ≡ none
      → add_crash_fault os timing op from to s ≡ failed out_of_range
  unfolding add_crash_fault push_crash_fault
  add_crash_fault-unknown timing op from to s before after = ground arith

  -- A command "lazyfs::crash" that the worker finds valid, and that does not name an operation,
  -- throws `out_of_range` in the worker, where the maps of crash faults have no entry "none".
  pub handle_command-no_operation :
      (fd : Option (Option ℕ)) (command : String) (s : Fs os)
      → has_prefix "lazyfs::crash" command ≡ true
      → HasNoOp (tokens command)
      → (check_paths (crash_attributes no_crash_attributes (tokens command))).valid ≡ true
      → find "none" s.crash_faults_before_map ≡ none
      → find "none" s.crash_faults_after_map ≡ none
      → handle_command os fd command s ≡ failed out_of_range
  unfolding handle_command crash_command
  handle_command-no_operation fd command s crash no_op valid before after =
      let a : CrashAttributes = crash_attributes no_crash_attributes (tokens command) in
      let operation : (check_paths a).crash_operation ≡ "none" =
        check_paths-operation a
        ∙ crash_attributes-operation no_crash_attributes (tokens command) no_op in
      rw
        (
          handle_command,
          crash,
          crash_command,
          valid,
          operation,
          add_crash_fault-unknown (check_paths a).crash_timing "none" (check_paths a).crash_from_rgx
              (check_paths a).crash_to_rgx s before after,
        )
        refl

crash_dispatch :
    (os : Os) (fd : Option (Option ℕ)) (command : String) (s : Fs os) (a : CrashAttributes)
    (parts : List String)
    → tokens command ≡ parts
    → check_paths (crash_attributes no_crash_attributes parts) ≡ a
    → has_prefix "lazyfs::crash" command ≡ true
    → a.valid ≡ true
    → handle_command os fd command s
      ≡ (add_crash_fault os a.crash_timing a.crash_operation a.crash_from_rgx a.crash_to_rgx
            >>= λ _. give no_complaint)
          s
unfolding handle_command crash_command
crash_dispatch os fd command s a parts e f crash valid =
    rw (handle_command, crash, crash_command, e, f, valid)
      (and_then_assoc
        (add_crash_fault os a.crash_timing a.crash_operation a.crash_from_rgx a.crash_to_rgx s) _ _)

-- The command that sets a crash fault for an operation on one path.
abbrev pub crash_parts : String → String → String → List String
crash_parts timing op rgx = "crash" ∷ cat "timing=" timing ∷ cat "op=" op ∷ cat "from_rgx=" rgx ∷ []

abbrev pub crash_text : String → String → String → String
crash_text timing op rgx = joined ("lazyfs" ∷ crash_parts timing op rgx)

abbrev all : (String → Bool) → List String → Bool
all p [] = true
all p (x ∷ l) = p x && all p l

-- A test that holds of some texts holds of each of them.
elem-all :
    (p : String → Bool) (op : String) (l : List String)
    → all p l ≡ true
    → elem op l ≡ true
    → p op ≡ true
elem-all p op [] h e = cc
elem-all p op (x ∷ l) h e = ground (arith, elem-all p op l, eq_iff x op)

module _ (op rgx : String) (known : elem op allow_crash_fs_operations ≡ true)
    (single : elem op fs_op_multi_path ≡ false) (rgx_free : no_colon rgx ≡ true)
    (rgx_given : rgx == "" ≡ false) (rgx_set : rgx == "none" ≡ false) where
  op_free : no_colon op ≡ true
  op_free = elem-all no_colon op allow_crash_fs_operations refl known

  op_given : not (op == "") ≡ true
  op_given = elem-all (λ s. not (s == "")) op allow_crash_fs_operations refl known

  crash_parts-AreTokens : AreTokens ("lazyfs" ∷ crash_parts "after" op rgx)
  crash_parts-AreTokens = (
    refl,
    refl,
    (refl, refl, (refl, refl, (op_free, cons-ne-nil _ _, (rgx_free, cons-ne-nil _ _, tt)))),
  )

  op_attribute :
      (a : CrashAttributes) → crash_attribute a (cat "op=" op) ≡ record a { crash_operation = op }
  unfolding crash_attribute has_prefix after_equals behind_equals
  op_attribute a =
      ap₂
        (λ (given known : Bool).
          if given && known
          then record a { crash_operation = op }
          else complain operation_not_available a)
        op_given known

  rgx_attribute :
      (a : CrashAttributes)
      → crash_attribute a (cat "from_rgx=" rgx) ≡ record a { crash_from_rgx = rgx }
  unfolding crash_attribute has_prefix after_equals behind_equals
  rgx_attribute a = rw rgx_given refl

  paths_given :
      check_paths (record no_crash_attributes {
        crash_operation = op;
        crash_timing = "after";
        crash_from_rgx = rgx;
      })
      ≡ record no_crash_attributes {
        crash_operation = op;
        crash_timing = "after";
        crash_from_rgx = rgx;
      }
  unfolding check_paths
  paths_given = rw (check_paths, single, rgx_set) refl

  crash_attributes_lem :
      check_paths (crash_attributes no_crash_attributes ("lazyfs" ∷ crash_parts "after" op rgx))
      ≡ record no_crash_attributes {
        crash_operation = op;
        crash_timing = "after";
        crash_from_rgx = rgx;
      }
  unfolding crash_attributes crash_attribute has_prefix after_equals behind_equals
  crash_attributes_lem =
      let e = op_attribute (record no_crash_attributes { crash_timing = "after" }) in
      let f =
        rgx_attribute
          (record no_crash_attributes { crash_timing = "after"; crash_operation = op }) in
      ap (λ a. check_paths (crash_attribute a (cat "from_rgx=" rgx))) e
      ∙ ap check_paths f
      ∙ paths_given

  crash_reaches :
      (os : Os) (fd : Option (Option ℕ)) (s : Fs os)
      → handle_command os fd (crash_text "after" op rgx) s
        ≡ (add_crash_fault os "after" op rgx "none" >>= λ _. give no_complaint) s
  unfolding joined has_prefix
  crash_reaches os fd s =
      crash_dispatch os fd (crash_text "after" op rgx) s _ _
        (tokens-joined "lazyfs" _ crash_parts-AreTokens) crash_attributes_lem refl refl

  -- The command that gives "after", an operation on one path and an expression, in this order,
  -- kills the process at the next trigger "after" this operation on a path that the expression
  -- matches, and the operating system keeps what it has. The expression is not empty, is not
  -- "none", has no colon and can be made, the map of crash faults has an entry for the
  -- operation, and the report before the kill ends.
  pub handle_command-crash :
      (os : Os) (fd : Option (Option ℕ)) (path to : String) (list : List (os.Regex × String))
      (compiled : os.Regex) (n : ℕ) (s : Fs os)
      → unsynced_bytes s.cache s.injecting_fault ≡ ok n
      → find op s.crash_faults_after_map ≡ some list
      → around os rgx ≡ some compiled
      → os.regex_match path compiled ≡ true
      → (handle_command os fd (crash_text "after" op rgx) >>= λ _.
            trigger_crash_fault os op "after" path to)
          s
        ≡ killed s.world
  handle_command-crash os fd path to list compiled n s r entry compiles here =
      rw
        (
          crash_reaches os fd s,
          and_then_assoc (add_crash_fault os "after" op rgx "none" s) (λ _. give no_complaint)
              (λ _. trigger_crash_fault os op "after" path to),
        )
        (add_crash_fault-trigger os op rgx path to list compiled n s r single entry compiles here)

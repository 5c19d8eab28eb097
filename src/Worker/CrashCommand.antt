-- ===== src/Worker/CrashCommand.antt =====
-- lazyfs/src/main.cpp, `fht_worker`: the command "lazyfs::crash" with its attributes.
use lazyfs.Base.{
  String, Bool, true, false, not, ◌&&◌, ◌||◌, List, [], ◌∷◌, ◌++◌, if◌then◌else◌, ◌==◌, nat_eq,
  string_eq, elem,
}
use lazyfs.Os.{Os}
use lazyfs.Faults.{allow_crash_fs_operations, fs_op_multi_path}
use lazyfs.Fs.{Op, ◌>>=◌, give}
use lazyfs.Fs.Crash.{add_crash_fault}
use lazyfs.Worker.Text.{has_prefix, after_equals, tokens}

-- What the worker complains about.
pub data Complaint : Type 0 where
  operation_not_available bad_timing rgx_missing only_from_rgx : Complaint
  file_not_specified parts_not_number parts_bytes_not_numbers persist_not_numbers : Complaint
  occurrence_not_number unknown_attribute parts_missing : Complaint

-- The variables of the loop over the attributes.
pub record CrashAttributes : Type 0 where
  pub crash_operation : String
  pub crash_timing : String
  pub crash_from_rgx : String
  pub crash_to_rgx : String
  pub valid : Bool
  pub errors : List Complaint

abbrev pub no_crash_attributes : CrashAttributes
no_crash_attributes = record {
  crash_operation = "none";
  crash_timing = "none";
  crash_from_rgx = "none";
  crash_to_rgx = "none";
  valid = true;
  errors = [];
}

abbrev pub complain : Complaint → CrashAttributes → CrashAttributes
complain e a = record a { valid = false; errors = a.errors ++ (e ∷ []) }

-- One attribute. Other texts are passed over.
unfoldable pub crash_attribute : CrashAttributes → String → CrashAttributes
unfolding has_prefix after_equals
crash_attribute a current =
    let value = after_equals current in
    if has_prefix "op=" current
    then (if not (value == "") && elem value allow_crash_fs_operations
        then record a { crash_operation = value }
        else complain operation_not_available a)
    else if has_prefix "timing=" current
    then (if not (value == "") && (value == "before" || value == "after")
        then record a { crash_timing = value }
        else complain bad_timing a)
    else if has_prefix "from_rgx=" current
    then (if not (value == "") then record a { crash_from_rgx = value } else a)
    else if has_prefix "to_rgx=" current
    then (if not (value == "") then record a { crash_to_rgx = value } else a)
    else a

unfoldable pub crash_attributes : CrashAttributes → List String → CrashAttributes
unfolding crash_attribute
crash_attributes a [] = a
crash_attributes a (current ∷ rest) = crash_attributes (crash_attribute a current) rest

-- Which paths an operation needs.
unfoldable pub check_paths : CrashAttributes → CrashAttributes
check_paths a =
    if elem a.crash_operation fs_op_multi_path
    then (if a.crash_from_rgx == "none" && a.crash_to_rgx == "none"
        then complain rgx_missing a
        else a)
    else if a.crash_from_rgx == "none" || not (a.crash_to_rgx == "none")
    then complain only_from_rgx a
    else a

module _ (os : Os) where
  -- The complaints are logged.
  unfoldable pub crash_command : String → Op os (List Complaint)
  unfolding tokens crash_attributes check_paths add_crash_fault
  crash_command command =
      let a = check_paths (crash_attributes no_crash_attributes (tokens command)) in
      if a.valid
      then (add_crash_fault os a.crash_timing a.crash_operation a.crash_from_rgx a.crash_to_rgx
          >>= λ _. give [])
      else give a.errors

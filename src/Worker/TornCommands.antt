-- ===== src/Worker/TornCommands.antt =====
-- lazyfs/src/main.cpp, `fht_worker`: the commands "lazyfs::torn-op" and "lazyfs::torn-seq".
use lazyfs.Base.{
  String, Bool, true, false, not, ◌&&◌, List, [], ◌∷◌, ◌++◌, if◌then◌else◌, ◌==◌, nat_eq, string_eq,
}
use lazyfs.Os.{Os}
use lazyfs.Faults.{Error}
use lazyfs.Fs.{Op, ◌>>=◌, give}
use lazyfs.Fs.Commands.{add_torn_op_fault, add_torn_seq_fault}
use lazyfs.Worker.Text.{has_prefix, after_equals, tokens, is_number, is_numbers}
use lazyfs.Worker.CrashCommand.{
  Complaint, operation_not_available, file_not_specified, parts_not_number, parts_bytes_not_numbers,
  persist_not_numbers, occurrence_not_number, unknown_attribute, parts_missing,
}

-- The variables of both loops; "none" stands for an attribute that is not given.
pub record TornAttributes : Type 0 where
  pub file : String
  pub op : String
  pub parts : String
  pub parts_bytes : String
  pub persist : String
  pub occurrence : String
  pub valid_fault : Bool
  pub errors : List Complaint

abbrev pub no_torn_attributes : TornAttributes
no_torn_attributes = record {
  file = "none";
  op = "none";
  parts = "none";
  parts_bytes = "none";
  persist = "none";
  occurrence = "none";
  valid_fault = true;
  errors = [];
}

abbrev pub complain : Complaint → TornAttributes → TornAttributes
complain e a = record a { valid_fault = false; errors = a.errors ++ (e ∷ []) }

unfoldable pub torn_op_attribute : TornAttributes → String → TornAttributes
unfolding has_prefix after_equals is_number is_numbers
torn_op_attribute a current =
    let value = after_equals current in
    if has_prefix "file=" current
    then (if not (value == "") then record a { file = value } else complain file_not_specified a)
    else if has_prefix "parts=" current
    then (if is_number value then record a { parts = value } else complain parts_not_number a)
    else if has_prefix "parts_bytes=" current
    then (if is_numbers value
        then record a { parts_bytes = value }
        else complain parts_bytes_not_numbers a)
    else if has_prefix "persist=" current
    then (if is_numbers value then record a { persist = value } else complain persist_not_numbers a)
    else if has_prefix "occurrence=" current
    then (if is_number value
        then record a { occurrence = value }
        else complain occurrence_not_number a)
    else if not (current == "lazyfs") && not (current == "torn-op")
    then complain unknown_attribute a
    else a

unfoldable pub torn_op_attributes : TornAttributes → List String → TornAttributes
unfolding torn_op_attribute
torn_op_attributes a [] = a
torn_op_attributes a (current ∷ rest) = torn_op_attributes (torn_op_attribute a current) rest

-- One of the two ways to say what the parts are has to be given.
unfoldable pub check_parts : TornAttributes → TornAttributes
check_parts a = if a.parts == "none" && a.parts_bytes == "none" then complain parts_missing a else a

unfoldable pub torn_seq_attribute : TornAttributes → String → TornAttributes
unfolding has_prefix after_equals is_number is_numbers
torn_seq_attribute a current =
    let value = after_equals current in
    if has_prefix "file=" current
    then (if not (value == "") then record a { file = value } else complain file_not_specified a)
    else if has_prefix "op=" current
    then (if not (value == "") then record a { op = value } else complain operation_not_available a)
    else if has_prefix "persist=" current
    then (if is_numbers value then record a { persist = value } else complain persist_not_numbers a)
    else if has_prefix "occurrence=" current
    then (if is_number value
        then record a { occurrence = value }
        else complain occurrence_not_number a)
    else if not (current == "lazyfs") && not (current == "torn-seq")
    then complain unknown_attribute a
    else a

unfoldable pub torn_seq_attributes : TornAttributes → List String → TornAttributes
unfolding torn_seq_attribute
torn_seq_attributes a [] = a
torn_seq_attributes a (current ∷ rest) = torn_seq_attributes (torn_seq_attribute a current) rest

module _ (os : Os) where
  -- The complaints and the errors are logged.
  unfoldable pub torn_op_command : String → Op os (List Complaint × List Error)
  unfolding tokens torn_op_attributes check_parts add_torn_op_fault
  torn_op_command command =
      let a = check_parts (torn_op_attributes no_torn_attributes (tokens command)) in
      if a.valid_fault
      then (add_torn_op_fault os a.file a.parts a.parts_bytes a.persist a.occurrence >>= λ errors.
          give (a.errors, errors))
      else give (a.errors, [])

  unfoldable pub torn_seq_command : String → Op os (List Complaint × List Error)
  unfolding tokens torn_seq_attributes add_torn_seq_fault
  torn_seq_command command =
      let a = torn_seq_attributes no_torn_attributes (tokens command) in
      if a.valid_fault
      then (add_torn_seq_fault os a.file a.op a.persist a.occurrence >>= λ errors.
          give (a.errors, errors))
      else give (a.errors, [])

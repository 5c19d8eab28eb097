-- ===== src/Worker/Frame.antt =====
-- lazyfs/src/main.cpp, `fht_worker`: what the commands leave alone.
use lazyfs.Base.{ℕ, String, true, false, Option, [], ◌==◌, nat_eq, string_eq}
use lazyfs.Os.{Os}
use lazyfs.Fs.Frame.{Keeps, >>=-Keeps, if-Keeps, Option-Keeps, call-Keeps, give-Keeps, get-Keeps}
use lazyfs.Fs.Frame.Triggers.{
  add_crash_fault-Keeps, command_fault_clear_cache-Keeps, command_checkpoint-Keeps,
}
use lazyfs.Fs.Frame.Commands.{
  add_torn_op_fault-Keeps, add_torn_seq_fault-Keeps, command_unsynced_data_report-Keeps,
}
use lazyfs.Worker.{no_complaint, clear_cache_command, handle_command}
use lazyfs.Worker.Text.{has_prefix, tokens}
use lazyfs.Worker.CrashCommand.{crash_attributes, no_crash_attributes, check_paths, crash_command}
use lazyfs.Worker.TornCommands.{
  torn_op_attributes, torn_seq_attributes, no_torn_attributes, check_parts, torn_op_command,
  torn_seq_command,
}

module _ {os : Os} where
  crash_command-Keeps : (command : String) → Keeps (crash_command os command)
  unfolding crash_command
  crash_command-Keeps command =
      let a = check_paths (crash_attributes no_crash_attributes (tokens command)) in
      if-Keeps a.valid
        (>>=-Keeps
          (add_crash_fault-Keeps a.crash_timing a.crash_operation a.crash_from_rgx a.crash_to_rgx)
          λ _. give-Keeps [])
        (give-Keeps a.errors)

  torn_op_command-Keeps : (command : String) → Keeps (torn_op_command os command)
  unfolding torn_op_command
  torn_op_command-Keeps command =
      let a = check_parts (torn_op_attributes no_torn_attributes (tokens command)) in
      if-Keeps a.valid_fault
        (>>=-Keeps (add_torn_op_fault-Keeps a.file a.parts a.parts_bytes a.persist a.occurrence)
          λ errors. give-Keeps (a.errors, errors))
        (give-Keeps (a.errors, []))

  torn_seq_command-Keeps : (command : String) → Keeps (torn_seq_command os command)
  unfolding torn_seq_command
  torn_seq_command-Keeps command =
      let a = torn_seq_attributes no_torn_attributes (tokens command) in
      if-Keeps a.valid_fault
        (>>=-Keeps (add_torn_seq_fault-Keeps a.file a.op a.persist a.occurrence)
          λ errors. give-Keeps (a.errors, errors))
        (give-Keeps (a.errors, []))

  clear_cache_command-Keeps : (fd : Option (Option ℕ)) → Keeps (clear_cache_command os fd)
  unfolding clear_cache_command
  clear_cache_command-Keeps fd = >>=-Keeps (command_fault_clear_cache-Keeps false) λ _.
      >>=-Keeps
        (Option-Keeps fd (give-Keeps true) λ n. call-Keeps (os.write n "finished::clear-cache\n"))
        λ _. give-Keeps no_complaint

  pub handle_command-Keeps :
      (fd : Option (Option ℕ)) (command : String) → Keeps (handle_command os fd command)
  unfolding handle_command
  handle_command-Keeps fd command =
      if-Keeps (has_prefix "lazyfs::crash" command)
        (>>=-Keeps (crash_command-Keeps command)
          λ complaints. give-Keeps (record { complaints = complaints; errors = [] }))
        (if-Keeps (command == "lazyfs::clear-cache") (clear_cache_command-Keeps fd) (
          if-Keeps (has_prefix "lazyfs::torn-op" command)
            (>>=-Keeps (torn_op_command-Keeps command) λ (complaints, errors).
              give-Keeps (record { complaints = complaints; errors = errors }))
            (if-Keeps (has_prefix "lazyfs::torn-seq" command)
              (>>=-Keeps (torn_seq_command-Keeps command) λ (complaints, errors).
                give-Keeps (record { complaints = complaints; errors = errors }))
              (if-Keeps (command == "lazyfs::cache-checkpoint")
                (>>=-Keeps (command_checkpoint-Keeps false) λ _. give-Keeps no_complaint)
                (if-Keeps (command == "lazyfs::unsynced-data-report")
                  (>>=-Keeps get-Keeps λ s.
                    >>=-Keeps (command_unsynced_data_report-Keeps s.injecting_fault)
                      λ _. give-Keeps no_complaint)
                  (give-Keeps no_complaint))))))

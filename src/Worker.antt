-- ===== src/Worker.antt =====
-- lazyfs/src/main.cpp, `fht_worker`: the thread that takes commands from a FIFO. A text from the FIFO
-- is one command; its characters are bytes. What is logged is left out, but for the complaints.
pub mod Text
pub mod CrashCommand
pub mod TornCommands
pub mod RoundTrip
pub mod Crashes
pub mod Clearing
pub mod Frame
use lazyfs.Base.{
  ℕ, zero, suc, String, Bool, true, false, Option, none, some, List, [], if◌then◌else◌, ◌==◌,
  nat_eq, string_eq,
}
use lazyfs.Os.{Os}
use lazyfs.Faults.{Error}
use lazyfs.Fs.{Op, ◌>>=◌, give, get, call}
use lazyfs.Fs.Hooks.{command_fault_clear_cache, command_checkpoint}
use lazyfs.Fs.Report.{command_unsynced_data_report}
use Text.{has_prefix, c_string, drop_last}
use CrashCommand.{Complaint, crash_command}
use TornCommands.{torn_op_command, torn_seq_command}

-- What a command leads to: the complaints of the worker and the errors of the file system.
pub record Answer : Type 0 where
  pub complaints : List Complaint
  pub errors : List Error

abbrev pub no_complaint : Answer
no_complaint = record { complaints = []; errors = [] }

module _ (os : Os) where
  -- The descriptor is that of the FIFO for completed faults, if there is one.
  unfoldable pub clear_cache_command : Option (Option ℕ) → Op os Answer
  unfolding command_fault_clear_cache
  clear_cache_command fd_fifo_completed = do
    _ ← command_fault_clear_cache os false
    _ ← (elim fd_fifo_completed [
      | none ↦ give true
      | some fd ↦ call (os.write fd "finished::clear-cache\n")
    ])
    give no_complaint

  unfoldable pub handle_command : Option (Option ℕ) → String → Op os Answer
  unfolding has_prefix crash_command torn_op_command torn_seq_command clear_cache_command
      command_checkpoint command_unsynced_data_report
  handle_command fd_fifo_completed command =
      if has_prefix "lazyfs::crash" command
      then (crash_command os command >>= λ complaints.
          give (record { complaints = complaints; errors = [] }))
      else if command == "lazyfs::clear-cache"
      then clear_cache_command fd_fifo_completed
      else if has_prefix "lazyfs::torn-op" command
      then (torn_op_command os command >>= λ (complaints, errors).
          give (record { complaints = complaints; errors = errors }))
      else if has_prefix "lazyfs::torn-seq" command
      then (torn_seq_command os command >>= λ (complaints, errors).
          give (record { complaints = complaints; errors = errors }))
      else if command == "lazyfs::cache-checkpoint"
      then (command_checkpoint os false >>= λ _. give no_complaint)
      else if command == "lazyfs::unsynced-data-report"
      then (get >>= λ s.
          command_unsynced_data_report os s.injecting_fault >>= λ _. give no_complaint)
      else give no_complaint

  -- `n` rounds of the loop. The result is true if the loop has ended.
  unfoldable pub worker_loop : ℕ → Option ℕ → Option (Option ℕ) → Op os Bool
  unfolding handle_command c_string drop_last
  worker_loop zero fd_fifo fd_fifo_completed = give false
  worker_loop (suc n) fd_fifo fd_fifo_completed =
      let rest = worker_loop n fd_fifo fd_fifo_completed in
      call (os.read fd_fifo 255) >>= λ ret. elim ret [
        | none ↦ give true
        | some buffer ↦
            if buffer == ""
            then give true
            else (handle_command fd_fifo_completed (c_string (drop_last buffer)) >>= λ _. rest)
      ]

  -- The FIFOs are opened; that for completed faults only if it has a path. The result is false where
  -- the worker still runs after `n` commands.
  unfoldable pub fht_worker : ℕ → Op os Bool
  unfolding worker_loop
  fht_worker n = get >>= λ s. call (os.open_flags s.config.fifo_path os.o_rdwr) >>= λ fd_fifo.
      elim fd_fifo [
        | none ↦ give true
        | some fd ↦
            if s.config.fifo_path_completed == ""
            then (worker_loop n (some fd) none >>= λ ended.
                if ended then (call (λ w. (true, os.close (some fd) w))) else give false)
            else (call (os.open_flags s.config.fifo_path_completed os.o_wronly)
                >>= λ fd_fifo_completed. elim fd_fifo_completed [
                  | none ↦ give true
                  | some fd' ↦
                      (worker_loop n (some fd) (some (some fd')) >>= λ ended.
                      if ended
                      then (call (λ w. (true, os.close (some fd') (os.close (some fd) w))))
                      else give false)
                ])
      ]

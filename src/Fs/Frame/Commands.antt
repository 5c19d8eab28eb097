-- ===== src/Fs/Frame/Commands.antt =====
-- lazyfs.cpp: what the commands of the file system leave alone.
use lazyfs.Base.{String, refl, List, []}
use lazyfs.Os.{Os}
use lazyfs.Faults.{pos, negsuc}
use lazyfs.Fs.Commands.{number_or, numbers_or, add_torn_op_fault, add_torn_seq_fault}
use lazyfs.Fs.Report.{command_unsynced_data_report}
use lazyfs.Fs.Frame.{Keeps, ends, fails, like, Option-Ends, from_run-Ends}

module _ {os : Os} where
  pub add_torn_op_fault-Keeps :
      (path parts parts_bytes persist occurrence : String)
      → Keeps (add_torn_op_fault os path parts parts_bytes persist occurrence)
  unfolding add_torn_op_fault
  add_torn_op_fault-Keeps path parts parts_bytes persist occurrence s =
      Option-Ends (os.numbers persist) (fails _) λ _ _.
        Option-Ends (numbers_or os [] parts_bytes) (fails _) λ _ _.
          Option-Ends (number_or os (negsuc 0) parts) (fails _) λ _ _.
            Option-Ends (number_or os (pos 1) occurrence) (fails _)
              λ _ _. ends _ _ (like refl refl refl)

  pub add_torn_seq_fault-Keeps :
      (path op persist occurrence : String)
      → Keeps (add_torn_seq_fault os path op persist occurrence)
  unfolding add_torn_seq_fault
  add_torn_seq_fault-Keeps path op persist occurrence s =
      Option-Ends (os.numbers persist) (fails _) λ _ _.
        Option-Ends (number_or os (pos 1) occurrence) (fails _)
          λ _ _. ends _ _ (like refl refl refl)

  pub command_unsynced_data_report-Keeps :
      (paths_to_exclude : List String) → Keeps (command_unsynced_data_report os paths_to_exclude)
  unfolding command_unsynced_data_report
  command_unsynced_data_report-Keeps paths_to_exclude s = from_run-Ends s _

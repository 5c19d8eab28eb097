-- ===== src/Fs/Frame/Writes.antt =====
-- lazyfs.cpp: what a write leaves alone, the faults of writes included.
use lazyfs.Base.{
  ℕ, leb, refl, String, true, false, ◌&&◌, Option, none, List, [], ◌∷◌, ◌+◌, drop, take, length,
  ◌==◌, not, nat_eq, string_eq,
}
use lazyfs.Base.Assoc.{find}
use lazyfs.Os.{Os}
use lazyfs.Faults.{ReorderF, SplitWriteF}
use lazyfs.Inject.ClearCache.{equals}
use lazyfs.Fs.{done}
use lazyfs.Fs.PersistWrite.{
  is_persisted, is_back, restart_counter, check_and_delete_pendingwrite,
  get_and_update_reorder_fault, store, begin_group, release_pending, persist_current, persist_write,
}
use lazyfs.Fs.SplitWrite.{Part, parts_of, next_split, write_parts, split_parts, split_write}
use lazyfs.Fs.Frame.{
  Ends-trans, Keeps, ends, fails, same, >>=-Keeps, if-Keeps, if-Ends, Option-Keeps, Option-Ends,
  give-Keeps, Run-Ends, like,
}
use lazyfs.Fs.Frame.Triggers.{add_crash_fault-Keeps}

module _ {os : Os} where
  pub restart_counter-Keeps : (path op : String) → Keeps (restart_counter os path op)
  unfolding restart_counter
  restart_counter-Keeps path op s = ends tt _ (like refl refl refl)

  pub check_and_delete_pendingwrite-Keeps :
      (path : String) → Keeps (check_and_delete_pendingwrite os path)
  unfolding check_and_delete_pendingwrite
  check_and_delete_pendingwrite-Keeps path s = ends _ _ (like refl refl refl)

  get_and_update_reorder_fault-Keeps :
      (path op : String) → Keeps (get_and_update_reorder_fault os path op)
  unfolding get_and_update_reorder_fault
  get_and_update_reorder_fault-Keeps path op s =
      Option-Ends (find path s.faults) (ends _ s (same s)) λ v e. ends _ _ (like refl refl refl)

  store-Keeps : (path : String) (buf : List ℕ) (offset : ℕ) → Keeps (store os path buf offset)
  unfolding store
  store-Keeps path buf offset s = ends _ _ (like refl refl refl)

  begin_group-Keeps : (path : String) (f : ReorderF) → Keeps (begin_group os path f)
  unfolding begin_group
  begin_group-Keeps path f s =
      if-Ends (f.counter == 2) (ends _ _ (like refl refl refl)) (ends f s (same s))

  drop_pending-Keeps : Keeps {os = os} (λ s. done false (record s { pending_write = none }))
  drop_pending-Keeps s = ends false _ (like refl refl refl)

  release_pending-Keeps : (path : String) (f : ReorderF) → Keeps (release_pending os path f)
  unfolding release_pending
  release_pending-Keeps path f s = Option-Ends s.pending_write (ends false s (same s)) λ w _.
      if-Ends (equals f.group_counter f.occurrence)
        (>>=-Keeps (store-Keeps w.path w.buf w.offset)
          (λ all.
            if-Keeps (all && length f.persist == 1)
              (>>=-Keeps (add_crash_fault-Keeps "after" "write" path "none") λ _. give-Keeps true)
              drop_pending-Keeps)
          s)
        (drop_pending-Keeps s)

  persist_current-Keeps :
      (path : String) (f : ReorderF) (buf : List ℕ) (offset : ℕ)
      → Keeps (persist_current os path f buf offset)
  unfolding persist_current
  persist_current-Keeps path f buf offset =
      if-Keeps (not (is_persisted f.counter f.persist)) (give-Keeps false) (
        if-Keeps (f.counter == 1) (λ s. ends _ _ (like refl refl refl))
          (if-Keeps (equals f.group_counter f.occurrence)
            (>>=-Keeps (store-Keeps path buf offset) λ all.
              if-Keeps (all && is_back f.counter f.persist)
                (>>=-Keeps (add_crash_fault-Keeps "after" "write" path "none") λ _. give-Keeps true)
                (give-Keeps false))
            (give-Keeps false)))

  pub persist_write-Keeps :
      (path : String) (buf : List ℕ) (offset : ℕ) → Keeps (persist_write os path buf offset)
  unfolding persist_write
  persist_write-Keeps path buf offset =
      >>=-Keeps (get_and_update_reorder_fault-Keeps path "write") λ fault.
        Option-Keeps fault (give-Keeps false) λ f0. >>=-Keeps (begin_group-Keeps path f0) λ f.
          >>=-Keeps (release_pending-Keeps path f)
            λ returns. if-Keeps returns (give-Keeps false) (persist_current-Keeps path f buf offset)

  write_parts-Keeps :
      (fd : Option ℕ) (buf : List ℕ) (ps : List Part) → Keeps (write_parts os fd buf ps)
  unfolding write_parts
  write_parts-Keeps fd buf [] s = ends true s (same s)
  write_parts-Keeps fd buf (p ∷ ps) s =
      let (pw, w) = os.pwrite fd (take p.size (drop p.buf_i buf)) p.off s.world in
      if-Ends (leb (p.buf_i + p.size) (length buf))
        (Option-Ends pw (ends _ _ (like refl refl refl)) λ n _.
          if-Ends (n == p.size)
            (Ends-trans (like refl refl refl)
              (write_parts-Keeps fd buf ps (record s { world = w })))
            (ends _ _ (like refl refl refl)))
        (fails _)

  split_parts-Keeps :
      (f : SplitWriteF) (path : String) (buf : List ℕ) (offset : ℕ)
      → Keeps (split_parts os f path buf offset)
  unfolding split_parts
  split_parts-Keeps f path buf offset s =
      let (fd, w) = os.open_create path s.world in
      Run-Ends (parts_of f (length buf) offset) λ parts.
        Option-Ends parts (ends _ _ (like refl refl refl)) λ ps _.
          Ends-trans (like refl refl refl) (
            >>=-Keeps (write_parts-Keeps fd buf ps)
              (λ all.
                if-Keeps all
                  (>>=-Keeps (add_crash_fault-Keeps "after" "write" path "none")
                    λ _. give-Keeps true)
                  (give-Keeps false))
              (record s { world = w }))

  pub split_write-Keeps :
      (path : String) (buf : List ℕ) (offset : ℕ) → Keeps (split_write os path buf offset)
  unfolding split_write
  split_write-Keeps path buf offset s =
      Option-Ends (find path s.faults) (ends _ s (same s)) λ v_faults _.
        Option-Ends (next_split v_faults) (ends _ s (same s)) λ (g, v_faults') _.
          if-Ends (equals g.counter g.occurrence)
            (Ends-trans (like refl refl refl) (split_parts-Keeps g path buf offset _))
            (ends _ _ (like refl refl refl))

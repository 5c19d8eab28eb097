-- ===== src/Fs/PersistWrite/Restart.antt =====
-- lazyfs.cpp, `restart_counter` and `check_and_delete_pendingwrite`, with which a call of fsync ends a
-- group of writes.
use lazyfs.Base.{
  sym, remove, ℕ, String, ◌≡◌, refl, ap, true, false, Bool, Option, none, some, List, arith, ◌==◌,
  nat_eq, string_eq, ==_refl, inl, inr, Bool-cases,
}
use lazyfs.Base.Assoc.{put, find-put}
use lazyfs.Os.{Os}
use lazyfs.Faults.{ℤ, ReorderF}
use lazyfs.Fs.{Fs, Write, Op, done, ◌>>=◌}
use lazyfs.Fs.Crash.{around}
use lazyfs.Fs.PersistWrite.{
  increase_counter, reset_counter, update_reorders, change_faults, restart_counter,
  check_and_delete_pendingwrite, persist_write, is_persisted,
}
use lazyfs.Fs.PersistWrite.Reorders.{update_reorders-last}
use lazyfs.Fs.PersistWrite.Steps.{WritesAll, IsTracked, At, Next}
use lazyfs.Fs.PersistWrite.Groups.{hold, persist_write-first}

module _ (os : Os) (path : String) where
  -- The end of a group, as `lfs_fsync` has it.
  abbrev pub end_group : Op os Bool
  end_group = restart_counter os path "write" >>= λ _. check_and_delete_pendingwrite os path

  restart_counter-Next :
      (f : ReorderF) (p : Option Write) (w : os.State) (s : Fs os)
      → At os path f p w s
      → Next os path (reset_counter f) p w (restart_counter os path "write" s) tt
  unfolding restart_counter
  restart_counter-Next f p w s (t, hp, hw) =
      let v = update_reorders reset_counter "write" t.v_faults in
      let s' : Fs os = record s { faults = put path v s.faults } in
      (
        s',
        rw (restart_counter, change_faults, t.found) refl,
        (
          record {
            v_faults = v;
            found = ground (arith, find-put path path v s.faults, ==_refl path);
            last = update_reorders-last reset_counter (λ g. refl) "write" t.v_faults f t.last;
            list = t.list;
            known = t.known;
          },
          hp,
          hw,
        ),
      )

  -- The path has the write on hold, if there is one.
  abbrev pub IsOwn : Option Write → Type 0
  IsOwn none = Unit
  IsOwn (some w) = w.path ≡ path

  -- The state without a write on hold.
  abbrev deleted : Fs os → Fs os
  deleted s = record s { pending_write = none; injecting_fault = remove path s.injecting_fault }

  deleted-IsTracked :
      (f : ReorderF) (s : Fs os) → IsTracked os path f s → IsTracked os path f (deleted s)
  deleted-IsTracked f s t = record {
    v_faults = t.v_faults;
    found = t.found;
    last = t.last;
    list = t.list;
    known = t.known;
  }

  check_and_delete-Next :
      (f : ReorderF) (p : Option Write) (w : os.State) (s : Fs os)
      → At os path f p w s
      → IsOwn p
      → (b : Bool) × Next os path f none w (check_and_delete_pendingwrite os path s) b
  unfolding check_and_delete_pendingwrite
  check_and_delete-Next f none w s (t, hp, hw) own = (
    false,
    (deleted s, simp (check_and_delete_pendingwrite, hp), (deleted-IsTracked f s t, refl, hw)),
  )
  check_and_delete-Next f (some held) w s (t, hp, hw) own =
      let same : (held.path == path) ≡ true = (string_eq.same_iff held.path path).1 own in
      (
        true,
        (
          deleted s,
          simp (check_and_delete_pendingwrite, hp, same),
          (deleted-IsTracked f s t, refl, hw),
        ),
      )

  -- A group of one write, which a call of fsync ends, stores nothing, and the fault stands as
  -- before it: the group is not counted, and no write is on hold. Before it the fault has
  -- counted no write of a group and no write is on hold; every `pwrite` writes all bytes, the
  -- map of crash faults has an entry for writes, and the expression of the path can be made.
  pub persist_write-single :
      (writes_all : WritesAll os) (rgx : os.Regex) (compiles : around os path ≡ some rgx)
      (f : ReorderF) (s : Fs os) (buf : List ℕ) (offset : ℕ)
      → IsTracked os path f s
      → s.pending_write ≡ none
      → f.counter ≡ 0
      → (b : Bool) × (s' : Fs os) × ((persist_write os path buf offset >>= λ _. end_group) s
          ≡ done b s')
        × IsTracked os path f s'
        × (s'.pending_write ≡ none)
        × (s'.world ≡ s.world)
  persist_write-single writes_all rgx compiles f s buf offset t free zero_count =
      let held = hold os path writes_all rgx compiles f.persist buf offset in
      let f1 = increase_counter f in
      let (s1, e1, h1) =
        persist_write-first os path writes_all rgx compiles f s.world s buf offset (t, free, refl)
          zero_count in
      let (s2, e2, h2) = restart_counter-Next f1 held s.world s1 h1 in
      let (b, (s3, e3, h3)) =
        check_and_delete-Next (reset_counter f1) held s.world s2 h2 (own f.persist) in
      let back : reset_counter f1 ≡ f = ap (λ (n : ℕ). record f { counter = n }) (sym zero_count) in
      (b, s3, rw e1 (rw e2 e3), (rw back at h3.0), h3.1, h3.2)
    where
      own : (persist : List ℤ) → IsOwn (hold os path writes_all rgx compiles persist buf offset)
      own persist = elim (Bool-cases (is_persisted 1 persist)) [
        | inl e ↦ rw e refl
        | inr e ↦ rw e tt
      ]

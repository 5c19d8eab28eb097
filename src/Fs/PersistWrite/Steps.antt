-- ===== src/Fs/PersistWrite/Steps.antt =====
-- lazyfs.cpp, `persist_write`: what each of its parts does to a path that has a torn-seq fault, when the
-- system calls succeed.
use lazyfs.Base.{
  ℕ, String, ◌≡◌, refl, true, false, Option, some, List, [], ◌∷◌, ◌++◌, arith, ◌==◌, nat_eq,
  string_eq, length, ==_refl,
}
use lazyfs.Base.Assoc.{find, put, find-put}
use lazyfs.Os.{Os}
use lazyfs.Faults.{Fault, ReorderF}
use lazyfs.Fs.{Fs, Write, Op, Outcome, done, and_then}
use lazyfs.Fs.PersistWrite.{
  last_reorder, update_reorders, update_last_reorder, increase_counter, increase_group_counter,
  change_faults, get_and_update_reorder_fault, begin_group,
}
use lazyfs.Fs.PersistWrite.Reorders.{update_reorders-last, update_last_reorder-last}

-- What the operating system holds after `open`, `pwrite` and `close`.
abbrev pub stored : (os : Os) → String → List ℕ → ℕ → os.State → os.State
stored os path buf offset w =
    let (fd, w1) = os.open_create path w in os.close fd (os.pwrite fd buf offset w1).1

-- Every `pwrite` writes all bytes.
abbrev pub WritesAll : Os → Type 0
WritesAll os =
    (fd : Option ℕ) (buf : List ℕ) (offset : ℕ) (w : os.State)
    → (os.pwrite fd buf offset w).0 ≡ some (length buf)

-- `f` is the torn-seq fault of the path's writes.
pub record IsTracked (os : Os) (path : String) (f : ReorderF) (s : Fs os) : Type 0 where
  pub v_faults : List Fault
  pub found : find path s.faults ≡ some v_faults
  pub last : last_reorder "write" v_faults ≡ some f
  pub list : List (os.Regex × String)
  pub known : find "write" s.crash_faults_after_map ≡ some list

module _ (os : Os) (path : String) where
  -- A state with the fault, the write on hold, and what the operating system holds.
  abbrev pub At : ReorderF → Option Write → os.State → Fs os → Type 0
  At f p w s = IsTracked os path f s × (s.pending_write ≡ p) × (s.world ≡ w)

  -- The outcome is a value and such a state.
  abbrev pub Next : {A : Type 0} → ReorderF → Option Write → os.State → Outcome os A → A → Type 0
  Next f p w o a = (s : Fs os) × (o ≡ done a s) × At f p w s

  pub Next-and_then :
      {A B : Type 0} {f g : ReorderF} {p q : Option Write} {w u : os.State} {o : Outcome os A}
      {a : A} {b : B} (k : A → Op os B)
      → Next f p w o a
      → ((s : Fs os) → At f p w s → Next g q u (k a s) b)
      → Next g q u (and_then o k) b
  Next-and_then k (s, e, h) next = rw e (next s h)

  pub get_and_update_reorder_fault-Next :
      (f : ReorderF) (p : Option Write) (w : os.State) (s : Fs os)
      → At f p w s
      → Next
          (increase_counter f)
          p
          w
          (get_and_update_reorder_fault os path "write" s)
          (some (increase_counter f))
  unfolding get_and_update_reorder_fault
  get_and_update_reorder_fault-Next f p w s (t, hp, hw) =
      let v = update_reorders increase_counter "write" t.v_faults in
      let l = update_reorders-last increase_counter (λ g. refl) "write" t.v_faults f t.last in
      let s' : Fs os = record s { faults = put path v s.faults } in
      (
        s',
        rw (t.found, get_and_update_reorder_fault) (rw l refl),
        (
          record {
            v_faults = v;
            found = ground (arith, find-put path path v s.faults, ==_refl path);
            last = l;
            list = t.list;
            known = t.known;
          },
          hp,
          hw,
        ),
      )

  pub begin_group-Next :
      (f : ReorderF) (p : Option Write) (w : os.State) (s : Fs os)
      → At f p w s
      → (f.counter == 2) ≡ true
      → Next (increase_group_counter f) p w (begin_group os path f s) (increase_group_counter f)
  unfolding begin_group
  begin_group-Next f p w s (t, hp, hw) two =
      let v = update_last_reorder increase_group_counter "write" t.v_faults in
      let l =
        update_last_reorder-last increase_group_counter (λ g. refl) "write" t.v_faults f t.last in
      let s' : Fs os = record s {
        injecting_fault = s.injecting_fault ++ path ∷ [];
        faults = put path v s.faults;
      } in
      (
        s',
        rw (two, begin_group, change_faults, t.found) refl,
        (
          record {
            v_faults = v;
            found = ground (arith, find-put path path v s.faults, ==_refl path);
            last = l;
            list = t.list;
            known = t.known;
          },
          hp,
          hw,
        ),
      )

  pub begin_group-other :
      (f : ReorderF) (p : Option Write) (w : os.State) (s : Fs os)
      → At f p w s
      → (f.counter == 2) ≡ false
      → Next f p w (begin_group os path f s) f
  unfolding begin_group
  begin_group-other f p w s h other = (s, rw (other, begin_group) refl, h)

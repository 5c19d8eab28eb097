-- ===== src/Fs/PersistWrite/Stores.antt =====
-- lazyfs.cpp, `persist_write`: what is stored and what is put on hold, when every `pwrite` writes all
-- bytes.
use lazyfs.Base.{
  ℕ, String, ◌≡◌, refl, ap, Bool-cases, inl, inr, true, false, Option, none, some, List, [], ◌∷◌,
  ◌++◌, ◌==◌, nat_eq, string_eq, length, ==_refl,
}
use lazyfs.Base.Assoc.{find-put}
use lazyfs.Os.{Os}
use lazyfs.Faults.{ReorderF}
use lazyfs.Inject.ClearCache.{equals}
use lazyfs.Fs.{Fs, Write, and_then, give}
use lazyfs.Fs.Crash.{around, add_crash_fault}
use lazyfs.Fs.Crash.Kill.{added, add_crash_fault-after}
use lazyfs.Fs.PersistWrite.{is_persisted, is_back, store, release_pending, persist_current}
use lazyfs.Fs.PersistWrite.Steps.{stored, WritesAll, At, Next}

module _ (os : Os) (path : String) where
  -- What the system calls and the expression of the path do.
  module _ (writes_all : WritesAll os) (rgx : os.Regex) (compiles : around os path ≡ some rgx) where
    -- The state after `store`.
    abbrev after_store : String → List ℕ → ℕ → Fs os → Fs os
    after_store to buf offset s = record s { world = stored os to buf offset s.world }

    after_store-At :
        (f : ReorderF) (p : Option Write) (w : os.State) (s : Fs os) (to : String) (buf : List ℕ)
        (offset : ℕ)
        → At os path f p w s
        → At os path f p (stored os to buf offset w) (after_store to buf offset s)
    after_store-At f p w s to buf offset (t, hp, hw) = (
      record {
        v_faults = t.v_faults;
        found = t.found;
        last = t.last;
        list = t.list;
        known = t.known;
      },
      hp,
      ap (stored os to buf offset) hw,
    )

    add_crash_fault-Next :
        (f : ReorderF) (p : Option Write) (w : os.State) (s : Fs os)
        → At os path f p w s
        → Next os path f p w (add_crash_fault os "after" "write" path "none" s) tt
    add_crash_fault-Next f p w s (t, hp, hw) = (
      added os "write" t.list rgx "none" s,
      add_crash_fault-after os "write" path "none" t.list rgx s t.known compiles,
      (
        record {
          v_faults = t.v_faults;
          found = t.found;
          last = t.last;
          list = t.list ++ (rgx, "none") ∷ [];
          known = find-put "write" "write" (t.list ++ (rgx, "none") ∷ []) s.crash_faults_after_map;
        },
        hp,
        hw,
      ),
    )

    -- Nothing is on hold.
    pub release_pending-none :
        (f : ReorderF) (w : os.State) (s : Fs os)
        → At os path f none w s
        → Next os path f none w (release_pending os path f s) false
    unfolding release_pending
    release_pending-none f w s (t, hp, hw) = (s, simp (release_pending, hp), (t, hp, hw))

    -- In the fault's group the write on hold is persisted, unless it is the only one to persist.
    pub release_pending-some :
        (f : ReorderF) (held : Write) (w : os.State) (s : Fs os)
        → At os path f (some held) w s
        → equals f.group_counter f.occurrence ≡ true
        → (length f.persist == 1) ≡ false
        → Next os path f none
            (stored os held.path held.buf held.offset w)
            (release_pending os path f s)
            false
    unfolding release_pending
    release_pending-some f held w s (t, hp, hw) group several =
        let fd = os.open_create held.path s.world in
        let s' : Fs os = record s {
          world = stored os held.path held.buf held.offset s.world;
          pending_write = none;
        } in
        (
          s',
          simp (
            release_pending,
            store,
            hp,
            group,
            writes_all fd.0 held.buf held.offset fd.1,
            ==_refl (length held.buf),
            several,
          ),
          (
            record {
              v_faults = t.v_faults;
              found = t.found;
              last = t.last;
              list = t.list;
              known = t.known;
            },
            refl,
            ap (stored os held.path held.buf held.offset) hw,
          ),
        )

    -- A write that is not to persist.
    pub persist_current-skip :
        (f : ReorderF) (p : Option Write) (w : os.State) (s : Fs os) (buf : List ℕ) (offset : ℕ)
        → At os path f p w s
        → is_persisted f.counter f.persist ≡ false
        → Next os path f p w (persist_current os path f buf offset s) false
    unfolding persist_current
    persist_current-skip f p w s buf offset h skip = (s, rw (persist_current, skip) refl, h)

    -- The first write is put on hold.
    pub persist_current-first :
        (f : ReorderF) (p : Option Write) (w : os.State) (s : Fs os) (buf : List ℕ) (offset : ℕ)
        → At os path f p w s
        → is_persisted f.counter f.persist ≡ true
        → (f.counter == 1) ≡ true
        → let held : Write = record {
          path = path;
          buf = buf;
          size = length buf;
          offset = offset;
        } in
          Next os path f (some held) w (persist_current os path f buf offset s) false
    unfolding persist_current
    persist_current-first f p w s buf offset (t, hp, hw) kept first =
        let held : Write = record { path = path; buf = buf; size = length buf; offset = offset } in
        (
          record s { pending_write = some held },
          rw (persist_current, kept, first) refl,
          (
            record {
              v_faults = t.v_faults;
              found = t.found;
              last = t.last;
              list = t.list;
              known = t.known;
            },
            refl,
            hw,
          ),
        )

    -- A later write that is to persist; the result says whether it is the last one.
    pub persist_current-later :
        (f : ReorderF) (p : Option Write) (w : os.State) (s : Fs os) (buf : List ℕ) (offset : ℕ)
        → At os path f p w s
        → is_persisted f.counter f.persist ≡ true
        → (f.counter == 1) ≡ false
        → equals f.group_counter f.occurrence ≡ true
        → Next os path f p
            (stored os path buf offset w)
            (persist_current os path f buf offset s)
            (is_back f.counter f.persist)
    unfolding persist_current
    persist_current-later f p w s buf offset h kept later group =
        let fd = os.open_create path s.world in
        let wrote = writes_all fd.0 buf offset fd.1 in
        let s1 = after_store path buf offset s in
        let h1 = after_store-At f p w s path buf offset h in
        elim (Bool-cases (is_back f.counter f.persist)) [
          | inr other ↦ rw other (
            s1,
            rw (persist_current, kept, later, group, store, wrote, ==_refl (length buf)) refl,
            h1,
          )
          | inl back ↦
              let (s2, e2, h2) = add_crash_fault-Next f p (stored os path buf offset w) s1 h1 in
              rw back (
                s2,
                rw (persist_current, kept, later, group, store, wrote, ==_refl (length buf))
                    (ap (λ o. and_then o (λ _. give true)) e2),
                h2,
              )
        ]

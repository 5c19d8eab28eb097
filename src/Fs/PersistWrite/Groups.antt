-- ===== src/Fs/PersistWrite/Groups.antt =====
-- lazyfs.cpp, `persist_write`: which writes of a group a torn-seq fault persists.
use lazyfs.Base.{
  ℕ, ◌+◌, String, ◌≡◌, refl, ap, ◌∙◌, Bool-cases, inl, inr, true, false, ◌&&◌, Bool, Option, none,
  some, List, [], ◌∷◌, arith, if◌then◌else◌, ◌==◌, nat_eq, string_eq, length,
}
use lazyfs.Os.{Os}
use lazyfs.Faults.{ℤ, ReorderF}
use lazyfs.Inject.ClearCache.{equals}
use lazyfs.Fs.{Fs, Write, Op, done, ◌>>=◌, give}
use lazyfs.Fs.Crash.{around}
use lazyfs.Fs.PersistWrite.{
  begin_group, release_pending, persist_current, increase_counter, increase_group_counter,
  is_persisted, is_back, persist_write,
}
use lazyfs.Fs.PersistWrite.Steps.{
  stored, WritesAll, IsTracked, At, Next, Next-and_then, get_and_update_reorder_fault-Next,
  begin_group-Next, begin_group-other,
}
use lazyfs.Fs.PersistWrite.Stores.{
  release_pending-none, release_pending-some, persist_current-skip, persist_current-first,
  persist_current-later,
}

module _ (os : Os) (path : String) where
  -- A write of a file after the other: the bytes and the offset of each.
  abbrev pub write_all : List (List ℕ × ℕ) → Op os Unit
  write_all [] = give tt
  write_all ((buf, offset) ∷ writes) = persist_write os path buf offset >>= λ _. write_all writes

  -- What the operating system holds when the writes that the fault names are stored, the first
  -- one of the list being the write `k`.
  abbrev pub keep : List ℤ → ℕ → List (List ℕ × ℕ) → os.State → os.State
  keep persist k [] w = w
  keep persist k ((buf, offset) ∷ writes) w =
      keep persist (k + 1) writes
        (if is_persisted k persist then stored os path buf offset w else w)

  module _ (writes_all : WritesAll os) (rgx : os.Regex) (compiles : around os path ≡ some rgx) where
    -- What is on hold after the first write.
    abbrev pub hold : List ℤ → List ℕ → ℕ → Option Write
    hold persist buf offset =
        if is_persisted 1 persist
        then some (record { path = path; buf = buf; size = length buf; offset = offset })
        else none

    -- The parts of `persist_write` after one another.
    persist_write-Next :
        (f g : ReorderF) (p p1 q : Option Write) (w w1 u : os.State) (b : Bool) (s : Fs os)
        (buf : List ℕ) (offset : ℕ)
        → At os path f p w s
        → ((s' : Fs os)
            → At os path (increase_counter f) p w s'
            → Next os path g p w (begin_group os path (increase_counter f) s') g)
        → ((s' : Fs os)
            → At os path g p w s'
            → Next os path g p1 w1 (release_pending os path g s') false)
        → ((s' : Fs os)
            → At os path g p1 w1 s'
            → Next os path g q u (persist_current os path g buf offset s') b)
        → Next os path g q u (persist_write os path buf offset s) b
    unfolding persist_write
    persist_write-Next f g p p1 q w w1 u b s buf offset h begins releases ends =
        Next-and_then os path _ (get_and_update_reorder_fault-Next os path f p w s h) λ s1 h1.
          Next-and_then os path _ (begins s1 h1)
            λ s2 h2. Next-and_then os path _ (releases s2 h2) ends

    pub persist_write-first :
        (f : ReorderF) (w : os.State) (s : Fs os) (buf : List ℕ) (offset : ℕ)
        → At os path f none w s
        → f.counter ≡ 0
        → Next os path
            (increase_counter f)
            (hold f.persist buf offset)
            w
            (persist_write os path buf offset s)
            false
    persist_write-first f w s buf offset h zero_count =
        let f1 = increase_counter f in
        let one : f1.counter ≡ 1 = omega (arith, zero_count) in
        persist_write-Next f f1 none none (hold f.persist buf offset) w w w false s buf offset h
          (λ s' h'. begin_group-other os path f1 none w s' h' (ground (arith, one)))
          (λ s' h'. release_pending-none os path writes_all rgx compiles f1 w s' h')
          (λ s' h'. elim (Bool-cases (is_persisted 1 f.persist)) [
            | inl kept ↦ rw kept (
                persist_current-first os path writes_all rgx compiles f1 none w s' buf offset h'
                  (rw one kept) (ground (arith, one)))
            | inr skip ↦ rw skip (
                persist_current-skip os path writes_all rgx compiles f1 none w s' buf offset h'
                  (rw one skip))
          ])

    -- A write that is not the first one of the fault's group.
    persist_current-Next :
        (f : ReorderF) (w : os.State) (s : Fs os) (buf : List ℕ) (offset count : ℕ)
        → At os path f none w s
        → f.counter ≡ count
        → (count == 1) ≡ false
        → equals f.group_counter f.occurrence ≡ true
        → Next os path f none
            (if is_persisted count f.persist then stored os path buf offset w else w)
            (persist_current os path f buf offset s)
            (is_persisted count f.persist && is_back count f.persist)
    persist_current-Next f w s buf offset count h e later group =
        elim (Bool-cases (is_persisted count f.persist)) [
          | inl kept ↦ rw kept (
              rw (← e) (
                persist_current-later os path writes_all rgx compiles f none w s buf offset h
                  (rw e kept) (rw e later) group))
          | inr skip ↦ rw skip (
              persist_current-skip os path writes_all rgx compiles f none w s buf offset h
                (rw e skip))
        ]

    release_pending-hold :
        (f : ReorderF) (w : os.State) (s : Fs os) (buf : List ℕ) (offset : ℕ)
        → At os path f (hold f.persist buf offset) w s
        → equals f.group_counter f.occurrence ≡ true
        → (is_persisted 1 f.persist && length f.persist == 1) ≡ false
        → Next os path f none
            (if is_persisted 1 f.persist then stored os path buf offset w else w)
            (release_pending os path f s)
            false
    release_pending-hold f w s buf offset h group several =
        elim (Bool-cases (is_persisted 1 f.persist)) [
          | inl kept ↦ rw kept (
              release_pending-some os path writes_all rgx compiles f
                (record { path = path; buf = buf; size = length buf; offset = offset }) w s
                (rw kept at h) group (rw kept at several))
          | inr skip ↦
              rw skip (release_pending-none os path writes_all rgx compiles f w s (rw skip at h))
        ]

    -- The fault after the second write of a group.
    abbrev second : ReorderF → ReorderF
    second f = increase_group_counter (increase_counter f)

    persist_write-second :
        (f : ReorderF) (w : os.State) (s : Fs os) (buf buf' : List ℕ) (offset offset' : ℕ)
        → At os path f (hold f.persist buf offset) w s
        → f.counter ≡ 1
        → equals (f.group_counter + 1) f.occurrence ≡ true
        → (is_persisted 1 f.persist && length f.persist == 1) ≡ false
        → Next os path
            (second f)
            none
            (keep f.persist 1 ((buf, offset) ∷ (buf', offset') ∷ []) w)
            (persist_write os path buf' offset' s)
            (is_persisted 2 f.persist && is_back 2 f.persist)
    persist_write-second f w s buf buf' offset offset' h one group several =
        let held = hold f.persist buf offset in
        let w1 = if is_persisted 1 f.persist then stored os path buf offset w else w in
        let f1 = increase_counter f in
        let two : f1.counter ≡ 2 = omega (arith, one) in
        persist_write-Next f (second f) held none none w w1
          (keep f.persist 1 ((buf, offset) ∷ (buf', offset') ∷ []) w)
          (is_persisted 2 f.persist && is_back 2 f.persist) s buf' offset' h
          (λ s' h'. begin_group-Next os path f1 held w s' h' (ground (arith, two)))
          (λ s' h'. release_pending-hold (second f) w s' buf offset h' group several)
          (λ s' h'. persist_current-Next (second f) w1 s' buf' offset' 2 h' two refl group)

    persist_write-later :
        (f : ReorderF) (w : os.State) (s : Fs os) (buf : List ℕ) (offset k : ℕ)
        → At os path f none w s
        → f.counter ≡ k + 2
        → equals f.group_counter f.occurrence ≡ true
        → Next os path
            (increase_counter f)
            none
            (if is_persisted (k + 3) f.persist then stored os path buf offset w else w)
            (persist_write os path buf offset s)
            (is_persisted (k + 3) f.persist && is_back (k + 3) f.persist)
    persist_write-later f w s buf offset k h count group =
        let f1 = increase_counter f in
        let c : f1.counter ≡ k + 3 = omega (arith, count) in
        persist_write-Next f f1 none none none w w
          (if is_persisted (k + 3) f.persist then stored os path buf offset w else w)
          (is_persisted (k + 3) f.persist && is_back (k + 3) f.persist) s buf offset h
          (λ s' h'. begin_group-other os path f1 none w s' h' (ground (arith, c)))
          (λ s' h'. release_pending-none os path writes_all rgx compiles f1 w s' h')
          (λ s' h'. persist_current-Next f1 w s' buf offset (k + 3) h' c (ground arith) group)

    later-writes :
        (f : ReorderF) (w : os.State) (s : Fs os) (k : ℕ) (writes : List (List ℕ × ℕ))
        → At os path f none w s
        → f.counter ≡ k + 2
        → equals f.group_counter f.occurrence ≡ true
        → (s' : Fs os) × (write_all writes s ≡ done tt s')
          × (s'.world ≡ keep f.persist (k + 3) writes w)
    later-writes f w s k [] h count group = (s, refl, h.2)
    later-writes f w s k ((buf, offset) ∷ writes) h count group =
        let (s1, e, h1) = persist_write-later f w s buf offset k h count group in
        let w1 = if is_persisted (k + 3) f.persist then stored os path buf offset w else w in
        let (s2, e2, h2) =
          later-writes (increase_counter f) w1 s1 (k + 1) writes h1 (omega (arith, count)) group in
        (s2, rw e e2, h2 ∙ ap (λ (n : ℕ). keep f.persist n writes w1) (omega arith))

    -- In the group of its occurrence a torn-seq fault of a file stores the writes that it
    -- names, in their order, and no others. The fault is the last torn-seq fault of the file
    -- for writes, it has counted no write of the group, and it names more than the first
    -- write; no write is on hold; the group has two writes or more; every `pwrite` writes all
    -- bytes; the map of crash faults has an entry for writes, and the expression of the path
    -- can be made.
    pub persist_write-group :
        (f : ReorderF) (s : Fs os) (first : List ℕ × ℕ) (next : List ℕ × ℕ)
        (writes : List (List ℕ × ℕ))
        → IsTracked os path f s
        → s.pending_write ≡ none
        → f.counter ≡ 0
        → equals (f.group_counter + 1) f.occurrence ≡ true
        → (is_persisted 1 f.persist && length f.persist == 1) ≡ false
        → (s' : Fs os) × (write_all (first ∷ next ∷ writes) s ≡ done tt s')
          × (s'.world ≡ keep f.persist 1 (first ∷ next ∷ writes) s.world)
    persist_write-group f s (buf, offset) (buf', offset') writes t free zero_count group several =
        let (s1, e1, h1) = persist_write-first f s.world s buf offset (t, free, refl) zero_count in
        let (s2, e2, h2) =
          persist_write-second (increase_counter f) s.world s1 buf buf' offset offset' h1
            (omega (arith, zero_count)) group several in
        let w2 = keep f.persist 1 ((buf, offset) ∷ (buf', offset') ∷ []) s.world in
        let (s3, e3, h3) =
          later-writes (second (increase_counter f)) w2 s2 0 writes h2 (omega (arith, zero_count))
            group in
        (s3, rw e1 (rw e2 e3), h3)

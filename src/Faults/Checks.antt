-- ===== src/Faults/Checks.antt =====
-- faults.cpp: what the faults that pass the checks are.
use lazyfs.Base.{
  string_eq, elem, ◌<◌, String, ◌≡◌, refl, ◌≢◌, ◌↔◌, ◌⊎◌, Bool, true, false, not, ◌&&◌, ◌||◌, none,
  some, List, [], ◌∷◌, ◌++◌, arith, if◌then◌else◌, ◌==◌, nat_eq, length, All,
}
use text.Mathlib.TextEquality.{eq_iff}
use lazyfs.Faults.{
  ℤ, pos, negsuc, is_nonpos, exceeds, ReorderF, ClearF, validate_reorder, validate_clear,
  validate_split_write, any_fails, report, allow_crash_fs_operations, fs_op_multi_path, Error,
  operation_must_be_write, persist_out_of_parts, occurrence_must_be_positive,
  persist_must_be_positive, parts_must_be_positive, parts_bytes_must_be_positive, paths_missing,
  timing_unknown, only_from, operation_not_available,
}

-- A positive integer.
abbrev pub IsPos : ℤ → Type 0
IsPos (pos n) = 0 < n
IsPos (negsuc n) = ⊥

is_nonpos_iff : (z : ℤ) → (is_nonpos z ≡ false) ↔ IsPos z
is_nonpos_iff (pos n) = ground arith
is_nonpos_iff (negsuc n) = (λ h. cc, λ h. absurd h)

any_fails_iff :
    (bad : ℤ → Bool) (ps : List ℤ) → (any_fails bad ps ≡ false) ↔ All (λ p. bad p ≡ false) ps
unfolding any_fails
any_fails_iff bad [] = (λ h. tt, λ h. refl)
any_fails_iff bad (p ∷ ps) =
    let ih = any_fails_iff bad ps in
    (λ h. (ground arith, ih.0 (ground arith)), λ h. ground (arith, ih.1 h.1))

All-iff :
    {A : Type 0} {P Q : A → Type 0} (xs : List A) → ((a : A) → P a ↔ Q a) → All P xs ↔ All Q xs
All-iff [] e = (λ h. tt, λ h. tt)
All-iff (x ∷ xs) e =
    let ih = All-iff xs e in (λ h. ((e x).0 h.0, ih.0 h.1), λ h. ((e x).1 h.0, ih.1 h.1))

report-append :
    (b : Bool) (e : Error) (es : List Error) → ((report b e ++ es) ≡ []) ↔ ((b ≡ false) × (es ≡ []))
report-append true e es = (λ h. cc, λ h. cc)
report-append false e es = (λ h. (refl, h), λ h. h.1)

All-IsPos_iff : (ps : List ℤ) → (any_fails is_nonpos ps ≡ false) ↔ All IsPos ps
All-IsPos_iff ps =
    let a = any_fails_iff is_nonpos ps in
    let b = All-iff ps is_nonpos_iff in (λ h. b.0 (a.0 h), λ h. a.1 (b.1 h))

report_iff : (b : Bool) (e : Error) → (report b e ≡ []) ↔ (b ≡ false)
report_iff true e = (λ h. cc, λ h. cc)
report_iff false e = (λ h. refl, λ h. refl)

-- A torn-seq fault passes the check exactly if its operation is "write", and its occurrence and
-- the writes to persist are positive.
pub validate_reorder-eq-nil :
    (f : ReorderF)
    → (validate_reorder f ≡ []) ↔ ((f.op ≡ "write") × IsPos f.occurrence × All IsPos f.persist)
unfolding validate_reorder
validate_reorder-eq-nil f =
    let a = report-append (not (f.op == "write")) operation_must_be_write (
      report (is_nonpos f.occurrence) occurrence_must_be_positive
      ++ report (any_fails is_nonpos f.persist) persist_must_be_positive) in
    let b =
      report-append (is_nonpos f.occurrence) occurrence_must_be_positive
        (report (any_fails is_nonpos f.persist) persist_must_be_positive) in
    let c = report_iff (any_fails is_nonpos f.persist) persist_must_be_positive in
    (
      λ h.
          let p = a.0 h in
          let q = b.0 p.1 in
          (
            ground (arith, p.0, eq_iff f.op "write"),
            (is_nonpos_iff f.occurrence).0 q.0,
            (All-IsPos_iff f.persist).0 (c.0 q.1),
          ),
      λ h. a.1 (
        ground (arith, h.0, eq_iff f.op "write"),
        b.1 ((is_nonpos_iff f.occurrence).1 h.1, c.1 ((All-IsPos_iff f.persist).1 h.2)),
      ),
    )

-- The place of a part to persist among `n` parts.
abbrev pub IsPart : ℤ → ℤ → Type 0
IsPart n p = IsPos p × (exceeds p n ≡ false)

IsPart-iff : (n p : ℤ) → ((is_nonpos p || exceeds p n) ≡ false) ↔ IsPart n p
IsPart-iff n p = ground (arith, is_nonpos_iff p)

parts_iff :
    (n : ℤ) (ps : List ℤ)
    → (report (any_fails (λ p. is_nonpos p || exceeds p n) ps) persist_out_of_parts ≡ [])
      ↔ All (IsPart n) ps
parts_iff n ps =
    let bad : ℤ → Bool = λ p. is_nonpos p || exceeds p n in
    let a = report_iff (any_fails bad ps) persist_out_of_parts in
    let b = any_fails_iff bad ps in
    let c = All-iff {P = λ p. bad p ≡ false} {Q = IsPart n} ps (IsPart-iff n) in
    (λ h. c.0 (b.0 (a.0 h)), λ h. a.1 (b.1 (c.1 h)))

-- A torn-op fault with a number of parts passes exactly if its occurrence and that number are
-- positive and each part to persist is one of the parts; with sizes of parts, exactly if its
-- occurrence and the sizes are positive and each part to persist is one of as many parts as there
-- are sizes.
pub validate_split_write-eq-nil :
    (occurrence : ℤ) (persist : List ℤ)
    → ((parts : ℤ)
        → (validate_split_write occurrence persist (some parts) none ≡ [])
          ↔ (IsPos occurrence × IsPos parts × All (IsPart parts) persist))
      × ((sizes : List ℤ)
          → (validate_split_write occurrence persist none (some sizes) ≡ [])
            ↔ (IsPos occurrence × All IsPos sizes × All (IsPart (pos (length sizes))) persist))
unfolding validate_split_write
validate_split_write-eq-nil occurrence persist = (
  λ parts.
      let a =
        report-append (is_nonpos occurrence) occurrence_must_be_positive
          (report (is_nonpos parts) parts_must_be_positive ++ last_error (pos_or parts)) in
      let b = report-append (is_nonpos parts) parts_must_be_positive (last_error (pos_or parts)) in
      let c = parts_iff parts persist in
      (
        λ h.
            let p = a.0 h in
            let q = b.0 p.1 in
            ((is_nonpos_iff occurrence).0 p.0, (is_nonpos_iff parts).0 q.0, c.0 q.1),
        λ h. a.1 ((is_nonpos_iff occurrence).1 h.0, b.1 ((is_nonpos_iff parts).1 h.1, c.1 h.2)),
      ),
  λ sizes.
      let a = report-append (is_nonpos occurrence) occurrence_must_be_positive (
        report (any_fails is_nonpos sizes) parts_bytes_must_be_positive
        ++ last_error (pos (length sizes))) in
      let b =
        report-append (any_fails is_nonpos sizes) parts_bytes_must_be_positive
          (last_error (pos (length sizes))) in
      let c = parts_iff (pos (length sizes)) persist in
      (
        λ h.
            let p = a.0 h in
            let q = b.0 p.1 in
            ((is_nonpos_iff occurrence).0 p.0, (All-IsPos_iff sizes).0 q.0, c.0 q.1),
        λ h. a.1 ((is_nonpos_iff occurrence).1 h.0, b.1 ((All-IsPos_iff sizes).1 h.1, c.1 h.2)),
      ),
)
  where
    pos_or : ℤ → ℤ
    pos_or z = z

    last_error : ℤ → List Error
    last_error n = report (any_fails (λ p. is_nonpos p || exceeds p n) persist) persist_out_of_parts

not-false : (b : Bool) → not b ≡ false → b ≡ true
not-false true h = refl
not-false false h = cc

timing_iff :
    (t : String)
    → ((not (t == "before") && not (t == "after")) ≡ false) ↔ ((t ≡ "before") ⊎ (t ≡ "after"))
timing_iff t = ground (arith, eq_iff t "before", eq_iff t "after")

-- The last check of `validate_clear`.
abbrev paths_errors : Bool → String → String → List Error
paths_errors several from to =
    if several
    then report (from == "none" || to == "none") paths_missing
    else report (from == "none" || not (to == "none")) only_from

paths_iff :
    (several : Bool) (from to : String)
    → (paths_errors several from to ≡ []) ↔ ((from ≢ "none") × ((several ≡ true) ↔ (to ≢ "none")))
paths_iff true from to = ground (arith, eq_iff from "none", eq_iff to "none")
paths_iff false from to = ground (arith, eq_iff from "none", eq_iff to "none")

-- A clear-cache fault passes exactly if its occurrence is positive, its operation is one of the
-- list, its timing is "before" or "after", it has a first path, and it has a second path exactly
-- if its operation has two.
pub validate_clear-eq-nil :
    (f : ClearF)
    → (validate_clear f ≡ []) ↔ (
        IsPos f.occurrence
        × (elem f.op allow_crash_fs_operations ≡ true)
        × ((f.timing ≡ "before") ⊎ (f.timing ≡ "after"))
        × (f.from ≢ "none")
        × ((elem f.op fs_op_multi_path ≡ true) ↔ (f.to ≢ "none")))
unfolding validate_clear
validate_clear-eq-nil f =
    let timing : List Error =
      report (not (f.timing == "before") && not (f.timing == "after")) timing_unknown in
    let a = report-append (is_nonpos f.occurrence) occurrence_must_be_positive (
      report (not (elem f.op allow_crash_fs_operations)) operation_not_available
      ++ (timing ++ paths_errors (elem f.op fs_op_multi_path) f.from f.to)) in
    let b =
      report-append (not (elem f.op allow_crash_fs_operations)) operation_not_available
        (timing ++ paths_errors (elem f.op fs_op_multi_path) f.from f.to) in
    let c =
      report-append (not (f.timing == "before") && not (f.timing == "after")) timing_unknown
        (paths_errors (elem f.op fs_op_multi_path) f.from f.to) in
    let d = paths_iff (elem f.op fs_op_multi_path) f.from f.to in
    let t = timing_iff f.timing in
    (
      λ h.
          let p = a.0 h in
          let q = b.0 p.1 in
          let r = c.0 q.1 in
          let w = d.0 r.1 in
          (
            (is_nonpos_iff f.occurrence).0 p.0,
            not-false (elem f.op allow_crash_fs_operations) q.0,
            t.0 r.0,
            w.0,
            w.1,
          ),
      λ h. a.1 ((is_nonpos_iff f.occurrence).1 h.0, b.1 (rw h.1, c.1 (t.1 h.2, d.1 (h.3, h.4)))),
    )

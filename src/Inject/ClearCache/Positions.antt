-- ===== src/Inject/ClearCache/Positions.antt =====
-- Which of a sequence of operations a clear-cache fault strikes at.
use lazyfs.Base.{
  ℕ, string_eq, elem, eq_apart, zero, suc, ◌+◌, String, ◌≡◌, refl, ap, ◌∙◌, true, false, not, ◌||◌,
  Option, none, some, arith, if◌then◌else◌, ◌==◌, nat_eq,
}
use text.Mathlib.TextEquality.{eq_iff}
use lazyfs.Faults.{ClearF, allow_crash_fs_operations, fs_op_multi_path}
use lazyfs.Inject.ClearCache.{
  Action, kill, clear_cache, equals, operation, paired_operation, unlink_operation,
}

-- The fault after a number of operations that it is about.
abbrev pub after_operations : String → String → ℕ → ClearF → ClearF
after_operations opname to_path zero f = f
after_operations opname to_path (suc n) f =
    (operation opname to_path (after_operations opname to_path n f)).0

-- The fault is about this operation on these paths.
abbrev pub IsAbout : String → String → ClearF → Type 0
IsAbout opname to_path f =
    (f.op ≡ opname) × ((not (elem opname fs_op_multi_path) || to_path == f.to) ≡ true)

-- The operation calls the trigger, once with each timing.
abbrev pub IsPaired : String → Type 0
IsPaired opname = (elem opname allow_crash_fs_operations ≡ true) × ((opname == "unlink") ≡ false)

operation_paired :
    (opname to_path : String) (f : ClearF)
    → IsPaired opname
    → operation opname to_path f ≡ paired_operation opname to_path f
unfolding operation
operation_paired opname to_path f u = rw (operation, u.1) refl

paired_operation-counter :
    (opname to_path : String) (f : ClearF)
    → IsAbout opname to_path f
    → (paired_operation opname to_path f).0 ≡ record f { counter = f.counter + 1 }
unfolding paired_operation
paired_operation-counter opname to_path f h = ground (arith, eq_iff f.op opname)

operation-counter :
    (opname to_path : String) (f : ClearF)
    → IsPaired opname
    → IsAbout opname to_path f
    → (operation opname to_path f).0 ≡ record f { counter = f.counter + 1 }
operation-counter opname to_path f u h =
    rw (operation_paired opname to_path f u) (paired_operation-counter opname to_path f h)

after_operations-counter :
    (opname to_path : String) (n : ℕ) (f : ClearF)
    → IsPaired opname
    → IsAbout opname to_path f
    → after_operations opname to_path n f ≡ record f { counter = n + f.counter }
after_operations-counter opname to_path zero f u h =
    ap (λ (k : ℕ). record f { counter = k }) (omega arith)
after_operations-counter opname to_path (suc n) f u h =
    ap (λ g. (operation opname to_path g).0) (after_operations-counter opname to_path n f u h)
    ∙ operation-counter opname to_path (record f { counter = n + f.counter }) u h
    ∙ ap (λ (k : ℕ). record f { counter = k }) (omega arith)

abbrev pub strike : ClearF → Option Action
strike f = some (if f.crash then kill else clear_cache)

paired_operation-before :
    (opname to_path : String) (f : ClearF)
    → IsAbout opname to_path f
    → f.timing ≡ "before"
    → let (_, a, b) = paired_operation opname to_path f in
      (a ≡ (if equals f.counter f.occurrence then strike f else none)) × (b ≡ none)
unfolding paired_operation
paired_operation-before opname to_path f h t =
    ground
      (arith, eq_iff f.op opname, eq_iff f.timing "before", eq_apart f.timing "before" "after" refl)

-- The fault that is fresh, after a number of operations, and the next operation.
next_operation :
    (opname to_path : String) (f : ClearF) (n : ℕ)
    → IsPaired opname
    → IsAbout opname to_path f
    → f.counter ≡ 0
    → operation opname to_path (after_operations opname to_path n f)
      ≡ paired_operation opname to_path (record f { counter = n })
next_operation opname to_path f n u h z =
    let fresh : n + f.counter ≡ n = omega (arith, z) in
    rw (after_operations-counter opname to_path n f u h, fresh)
      (operation_paired opname to_path (record f { counter = n }) u)

-- A fresh fault with the timing "before" that is about an operation other than the removal of a
-- file strikes before the operation that follows the one of its occurrence, counted from 1, and at
-- no other one.
pub operation-before :
    (opname to_path : String) (f : ClearF) (n : ℕ)
    → IsPaired opname
    → IsAbout opname to_path f
    → f.timing ≡ "before"
    → f.counter ≡ 0
    → let (_, a, b) = operation opname to_path (after_operations opname to_path n f) in
      (a ≡ (if equals n f.occurrence then strike f else none)) × (b ≡ none)
operation-before opname to_path f n u h t z =
    rw (next_operation opname to_path f n u h z)
      (paired_operation-before opname to_path (record f { counter = n }) h t)

unlink_silent :
    (g : ClearF)
    → g.timing ≡ "after"
    → ((unlink_operation g).1 ≡ none) × ((unlink_operation g).2 ≡ none)
unfolding unlink_operation
unlink_silent g e = ground (arith, eq_apart g.timing "after" "before" refl, eq_iff g.timing "after")

abbrev pub after_unlinks : ℕ → ClearF → ClearF
after_unlinks zero f = f
after_unlinks (suc n) f = (unlink_operation (after_unlinks n f)).0

unlink_operation-timing : (f : ClearF) → (unlink_operation f).0.timing ≡ f.timing
unfolding unlink_operation
unlink_operation-timing f = ground arith

after_unlinks-timing : (n : ℕ) (f : ClearF) → (after_unlinks n f).timing ≡ f.timing
unfolding unlink_operation
after_unlinks-timing zero f = refl
after_unlinks-timing (suc n) f =
    unlink_operation-timing (after_unlinks n f) ∙ after_unlinks-timing n f

-- However many files are removed, a fault with the timing "after" never strikes at a removal.
pub unlink_operation-after :
    (f : ClearF) (n : ℕ)
    → f.timing ≡ "after"
    → let (_, a, b) = unlink_operation (after_unlinks n f) in (a ≡ none) × (b ≡ none)
unlink_operation-after f n t =
    let g = after_unlinks n f in
    let e : g.timing ≡ "after" = after_unlinks-timing n f ∙ t in unlink_silent g e

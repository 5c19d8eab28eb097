-- ===== src/Inject/ClearCache.antt =====
-- lazyfs.cpp, `trigger_configured_clear_fault`: when a clear-cache fault strikes. Each operation
-- but `lfs_unlink` calls it with the timing "before", does its work, and calls it with the timing
-- "after". What is done when a fault strikes is `perform` of Fs/Hooks. Atomic counters are numbers that do not
-- wrap.
pub mod Positions
use lazyfs.Base.{
  ℕ, string_eq, elem, ◌+◌, String, Bool, false, not, ◌&&◌, ◌||◌, Option, none, some, List, [], ◌∷◌,
  if◌then◌else◌, ◌==◌, nat_eq,
}
use lazyfs.Base.Assoc.{find, put}
use lazyfs.Faults.{ℤ, pos, negsuc, Fault, ClearF, reorder, split_write, clear, fs_op_multi_path}

-- What a fault that strikes does to the file system.
pub data Action : Type 0 where
  kill clear_cache : Action

-- `current_count == clear_fault->occurrence`
abbrev pub equals : ℕ → ℤ → Bool
equals n (pos m) = n == m
equals n (negsuc m) = false

-- The body of the loop, for a fault of the class `ClearF`.
unfoldable pub step_clear : String → String → String → ClearF → ClearF × Option Action
step_clear opname optiming to_path f =
    if f.op == opname && (not (elem opname fs_op_multi_path) || to_path == f.to)
    then (let current_count = f.counter in
        let g : ClearF = if optiming == "before" then record f { counter = f.counter + 1 } else f in
        if f.timing == optiming && equals current_count f.occurrence
        then (g, some (if f.crash then kill else clear_cache))
        else (g, none))
    else (f, none)

-- The loop over the faults of a path. Nothing follows a `kill`.
unfoldable pub trigger_loop : String → String → String → List Fault → List Fault × List Action
unfolding step_clear
trigger_loop opname optiming to_path [] = ([], [])
trigger_loop opname optiming to_path (reorder f ∷ rest) =
    let (rest', actions) = trigger_loop opname optiming to_path rest in (reorder f ∷ rest', actions)
trigger_loop opname optiming to_path (split_write f ∷ rest) =
    let (rest', actions) = trigger_loop opname optiming to_path rest in
    (split_write f ∷ rest', actions)
trigger_loop opname optiming to_path (clear f ∷ rest) =
    let (rest', actions) = trigger_loop opname optiming to_path rest in
    let (f', action) = step_clear opname optiming to_path f in
    elim action [
      | none ↦ (clear f' ∷ rest', actions)
      | some a ↦ elim a [
        | kill ↦ (clear f' ∷ rest, kill ∷ [])
        | clear_cache ↦ (clear f' ∷ rest', clear_cache ∷ actions)
      ]
    ]

unfoldable pub trigger_configured_clear_fault :
    List (String × List Fault)
    → String
    → String
    → String
    → String
    → List (String × List Fault) × List Action
unfolding trigger_loop
trigger_configured_clear_fault faults opname optiming from_path to_path =
    elim (find from_path faults) [
      | none ↦ (faults, [])
      | some v_faults ↦
          let (v_faults', actions) = trigger_loop opname optiming to_path v_faults in
          (put from_path v_faults' faults, actions)
    ]

-- `lfs_unlink` makes the call with the timing "before" twice.
unfoldable pub unlink_operation : ClearF → ClearF × Option Action × Option Action
unfolding step_clear
unlink_operation f =
    let (g, a) = step_clear "unlink" "before" "" f in
    let (h, b) = step_clear "unlink" "before" "" g in (h, a, b)

-- Another operation makes it once with each timing.
unfoldable pub paired_operation : String → String → ClearF → ClearF × Option Action × Option Action
unfolding step_clear
paired_operation opname to_path f =
    let (g, a) = step_clear opname "before" to_path f in
    let (h, b) = step_clear opname "after" to_path g in (h, a, b)

-- The two calls of an operation that succeeds, for one fault: the fault afterwards and what it
-- did at the first and at the second.
unfoldable pub operation : String → String → ClearF → ClearF × Option Action × Option Action
unfolding unlink_operation paired_operation
operation opname to_path f =
    if opname == "unlink" then unlink_operation f else paired_operation opname to_path f

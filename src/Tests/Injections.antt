-- ===== src/Tests/Injections.antt =====
-- The theorems on faults and their injection at concrete inputs.
use lazyfs.Base.{
  ◌≡◌, ◌≢◌, ◌↔◌, refl, false, none, some, List, [], ◌∷◌, nat_eq, string_eq, length, All,
}
use lazyfs.Base.Assoc.{find}
use lazyfs.Base.Run.{ok}
use lazyfs.Faults.Registry.{Registry}
use lazyfs.Faults.Registry.Every.{Every, IsSingle}
use lazyfs.Faults.Load.{Injection, sort, insert_in_order, load_injections}
use lazyfs.Faults.Load.Checked.{
  torn_seq_table, IsChecked, load_injections-IsSingle, load_injections-IsChecked,
  load_injections-unchecked,
}
use lazyfs.Faults.{
  reorder, new_reorder, any_fails, ℤ, pos, ReorderF, ClearF, validate_reorder, validate_split_write,
}
use lazyfs.Faults.Checks.{IsPos, IsPart, validate_split_write-eq-nil}
use lazyfs.Inject.ClearCache.{clear_cache, operation, unlink_operation}
use lazyfs.Inject.ClearCache.Positions.{
  after_operations, after_unlinks, operation-before, unlink_operation-after,
}

abbrev seq : ReorderF
seq = record {
  op = "write";
  counter = 0;
  persist = pos 1 ∷ pos 3 ∷ [];
  occurrence = pos 2;
  group_counter = 0;
}

validate_split_write-eq-nil_example :
    ((parts : ℤ)
      → (validate_split_write (pos 1) (pos 2 ∷ []) (some parts) none ≡ [])
        ↔ (IsPos (pos 1) × IsPos parts × All (IsPart parts) (pos 2 ∷ [])))
    × ((sizes : List ℤ)
        → (validate_split_write (pos 1) (pos 2 ∷ []) none (some sizes) ≡ [])
          ↔ (IsPos (pos 1) × All IsPos sizes × All (IsPart (pos (length sizes))) (pos 2 ∷ [])))
validate_split_write-eq-nil_example = validate_split_write-eq-nil (pos 1) (pos 2 ∷ [])

abbrev late : ClearF
late = record {
  timing = "after";
  op = "fsync";
  from = "/a";
  to = "none";
  occurrence = pos 1;
  counter = 0;
  crash = false;
}

-- With the timing "before" it is the second one that does.
operation-before_example :
    let f = record late { timing = "before" } in
    let (_, a, b) = operation "fsync" "" (after_operations "fsync" "" 1 f) in
    (a ≡ some clear_cache) × (b ≡ none)
operation-before_example =
    operation-before "fsync" "" (record late { timing = "before" }) 1 (refl, refl) (refl, refl) refl
      refl

unlink_operation-after_example :
    let (_, a, b) = unlink_operation (after_unlinks 3 (record late { op = "unlink" })) in
    (a ≡ none) × (b ≡ none)
unlink_operation-after_example = unlink_operation-after (record late { op = "unlink" }) 3 refl

-- Two torn-seq faults of one file, the writes of the first out of order, and a clear-cache fault.
abbrev tables : List Injection
tables =
    torn_seq_table "/a" "write" (pos 1) (pos 3 ∷ pos 1 ∷ [])
    ∷ torn_seq_table "/a" "write" (pos 2) (pos 2 ∷ [])
    ∷ record (torn_seq_table "/a" "fsync" (pos 1) []) {
      type = some "clear-cache";
      timing = some "after";
      from = some "/a";
      crash = some false;
    }
    ∷ []

tables-IsTyped : All (λ i. i.type ≢ none) tables
tables-IsTyped = ((λ h. cc), ((λ h. cc), ((λ h. cc), tt)))

load_injections-IsSingle_example :
    (faults : Registry) × (load_injections tables [] ≡ ok faults) × Every IsSingle faults
load_injections-IsSingle_example = load_injections-IsSingle tables tables-IsTyped

load_injections-IsChecked_example :
    (faults : Registry) × (load_injections tables [] ≡ ok faults) × Every (All IsChecked) faults
load_injections-IsChecked_example = load_injections-IsChecked tables tables-IsTyped

bad_seq : validate_reorder (new_reorder "read" (sort (pos 1 ∷ [])) (pos 1)) ≢ []
unfolding validate_reorder any_fails new_reorder sort insert_in_order
bad_seq = λ h. cc

-- A torn-seq fault on reads.
load_injections-unchecked_example :
    (faults : Registry) × (f : ReorderF) × (load_injections
        (torn_seq_table "/a" "read" (pos 1) (pos 1 ∷ []) ∷ [])
        []
      ≡ ok faults)
    × (find "/a" faults ≡ some (reorder f ∷ []))
    × (validate_reorder f ≢ [])
load_injections-unchecked_example =
    load_injections-unchecked "/a" "read" (pos 1) (pos 1 ∷ []) bad_seq

-- ===== src/Faults.antt =====
-- libs/libpcache/include/faults/faults.hpp and src/faults.cpp: the faults that can be injected and
-- the checks of their parameters. An `int` of a fault is an integer: `negsuc n` is -(n + 1).
pub mod Checks
pub mod Registry
pub mod Load
use lazyfs.Base.{
  ℕ, string_eq, String, Bool, true, false, not, ◌&&◌, ◌||◌, Option, none, some, List, [], ◌∷◌, ◌++◌,
  ltb, if◌then◌else◌, ◌==◌, nat_eq, length, elem,
}

pub data ℤ : Type 0 where
  pos : ℕ → ℤ
  negsuc : ℕ → ℤ

-- `p <= 0`
abbrev pub is_nonpos : ℤ → Bool
is_nonpos (pos n) = n == 0
is_nonpos (negsuc n) = true

-- `p > n`, for `n` a count
abbrev pub exceeds : ℤ → ℤ → Bool
exceeds (pos m) (pos n) = ltb n m
exceeds (pos m) (negsuc n) = true
exceeds (negsuc m) (pos n) = false
exceeds (negsuc m) (negsuc n) = ltb m n

pub data Error : Type 0 where
  operation_must_be_write occurrence_must_be_positive persist_must_be_positive : Error
  parts_must_be_positive parts_bytes_must_be_positive parts_undefined persist_out_of_parts : Error
  operation_not_available timing_unknown paths_missing only_from : Error
  only_one_torn_op only_one_torn_seq : Error

-- A torn-seq fault.
pub record ReorderF : Type 0 where
  pub op : String
  pub counter : ℕ
  pub persist : List ℤ
  pub occurrence : ℤ
  pub group_counter : ℕ

-- A torn-op fault. `parts` is -1 where the sizes of the parts are given.
pub record SplitWriteF : Type 0 where
  pub occurrence : ℤ
  pub counter : ℕ
  pub persist : List ℤ
  pub parts : ℤ
  pub parts_bytes : List ℤ

-- A clear-cache fault.
pub record ClearF : Type 0 where
  pub timing : String
  pub op : String
  pub from : String
  pub to : String
  pub occurrence : ℤ
  pub counter : ℕ
  pub crash : Bool

pub data Fault : Type 0 where
  reorder : ReorderF → Fault
  split_write : SplitWriteF → Fault
  clear : ClearF → Fault

unfoldable pub new_reorder : String → List ℤ → ℤ → ReorderF
new_reorder op persist occurrence = record {
  op = op;
  counter = 0;
  persist = persist;
  occurrence = occurrence;
  group_counter = 0;
}

unfoldable pub new_split_write : ℤ → List ℤ → ℤ → SplitWriteF
new_split_write occurrence persist parts = record {
  occurrence = occurrence;
  counter = 0;
  persist = persist;
  parts = parts;
  parts_bytes = [];
}

unfoldable pub new_split_write_bytes : ℤ → List ℤ → List ℤ → SplitWriteF
new_split_write_bytes occurrence persist parts_bytes = record {
  occurrence = occurrence;
  counter = 0;
  persist = persist;
  parts = negsuc 0;
  parts_bytes = parts_bytes;
}

unfoldable pub new_clear : String → String → String → String → ℤ → Bool → ClearF
new_clear timing op from to occurrence crash = record {
  timing = timing;
  op = op;
  from = from;
  to = to;
  occurrence = occurrence;
  counter = 0;
  crash = crash;
}

-- An error if the test holds: `if (b) errors.push_back (e)`.
abbrev pub report : Bool → Error → List Error
report b e = if b then e ∷ [] else []

-- A loop with `break` at the first element that fails.
unfoldable pub any_fails : (ℤ → Bool) → List ℤ → Bool
any_fails bad [] = false
any_fails bad (p ∷ ps) = bad p || any_fails bad ps

unfoldable pub validate_reorder : ReorderF → List Error
unfolding any_fails
validate_reorder f =
    report (not (f.op == "write")) operation_must_be_write
    ++ (report (is_nonpos f.occurrence) occurrence_must_be_positive
        ++ report (any_fails is_nonpos f.persist) persist_must_be_positive)

-- The number of parts. `size ()` of the vector is an `int` here.
unfoldable pub nr_parts : Option ℤ → Option (List ℤ) → ℤ
nr_parts (some parts) parts_bytes = parts
nr_parts none (some parts_bytes) = pos (length parts_bytes)
nr_parts none none = pos 1

-- Neither `parts` nor `parts_bytes` is given.
abbrev pub undefined : Option ℤ → Option (List ℤ) → Bool
undefined none none = true
undefined _ _ = false

unfoldable pub validate_split_write : ℤ → List ℤ → Option ℤ → Option (List ℤ) → List Error
unfolding any_fails nr_parts
validate_split_write occurrence persist parts parts_bytes =
    report (is_nonpos occurrence) occurrence_must_be_positive
    ++ (report (elim parts [ none ↦ false | some p ↦ is_nonpos p ]) parts_must_be_positive
        ++ (report (elim parts_bytes [ none ↦ false | some ps ↦ any_fails is_nonpos ps ])
              parts_bytes_must_be_positive
            ++ (report (undefined parts parts_bytes) parts_undefined
                ++ report
                    (any_fails (λ p. is_nonpos p || exceeds p (nr_parts parts parts_bytes)) persist)
                    persist_out_of_parts)))

abbrev pub allow_crash_fs_operations : List String
allow_crash_fs_operations =
    "unlink" ∷ "truncate" ∷ "fsync" ∷ "write" ∷ "create" ∷ "access" ∷ "open" ∷ "read" ∷ "rename"
    ∷ "link" ∷ "symlink" ∷ []

abbrev pub fs_op_multi_path : List String
fs_op_multi_path = "rename" ∷ "link" ∷ "symlink" ∷ []

unfoldable pub validate_clear : ClearF → List Error
validate_clear f =
    report (is_nonpos f.occurrence) occurrence_must_be_positive
    ++ (report (not (elem f.op allow_crash_fs_operations)) operation_not_available
        ++ (report (not (f.timing == "before") && not (f.timing == "after")) timing_unknown
            ++ (if elem f.op fs_op_multi_path
                then report (f.from == "none" || f.to == "none") paths_missing
                else report (f.from == "none" || not (f.to == "none")) only_from)))

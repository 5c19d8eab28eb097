-- ===== src/Faults/Load/Checked.antt =====
-- config.cpp, `load_config`: which faults a configuration file leaves.
use lazyfs.Base.{
  String, ◌≡◌, refl, ◌≢◌, ◌↔◌, ◌⊎◌, inl, inr, Bool, true, Option, none, some, List, [], ◌∷◌, ◌++◌,
  arith, nat_eq, string_eq, Bool-cases, All, elem, length, ==_refl,
}
use lazyfs.Base.Assoc.{find, put}
use lazyfs.Base.Run.{ok}
use lazyfs.Faults.{
  ℤ, pos, negsuc, Fault, ClearF, SplitWriteF, ReorderF, reorder, split_write, clear, new_reorder,
  new_split_write, new_split_write_bytes, validate_reorder, validate_split_write,
  allow_crash_fs_operations, fs_op_multi_path,
}
use lazyfs.Faults.Checks.{IsPos, IsPart, validate_clear-eq-nil, validate_split_write-eq-nil}
use lazyfs.Faults.Registry.{Registry, is_reorder_of, is_split_write, is_clear, register}
use lazyfs.Faults.Registry.Every.{
  Every, Keeps, IsSingle, reorder-Keeps, split_write-Keeps, clear-Keeps,
}
use lazyfs.Faults.Load.{
  Injection, sort, is_empty, torn_op_fault, load_torn_seq, load_injection, load_injections,
}
use lazyfs.Faults.Load.Sorted.{IsAscending, sort_lem}
use lazyfs.Faults.Load.Kept.{load_injections-Every, is_empty-nil}

-- A torn-op fault that the injection can use: the parts to persist are parts of the write.
abbrev pub IsTornOp : SplitWriteF → Type 0
IsTornOp g =
    IsPos g.occurrence
    × ((IsPos g.parts × All (IsPart g.parts) g.persist)
        ⊎ ((g.parts ≡ negsuc 0)
            × All IsPos g.parts_bytes
            × All (IsPart (pos (length g.parts_bytes))) g.persist))

-- A clear-cache fault with a known operation and timing, and the paths of that operation.
abbrev pub IsClearCache : ClearF → Type 0
IsClearCache f =
    IsPos f.occurrence
    × (elem f.op allow_crash_fs_operations ≡ true)
    × ((f.timing ≡ "before") ⊎ (f.timing ≡ "after"))
    × (f.from ≢ "none")
    × ((elem f.op fs_op_multi_path ≡ true) ↔ (f.to ≢ "none"))

abbrev pub IsChecked : Fault → Type 0
IsChecked (reorder f) = IsAscending f.persist
IsChecked (split_write g) = IsTornOp g
IsChecked (clear f) = IsClearCache f

All-snoc :
    (v : List Fault) (f : Fault) → All IsChecked v → IsChecked f → All IsChecked (v ++ f ∷ [])
All-snoc [] f h k = (k, tt)
All-snoc (g ∷ v) f h k = (h.0, All-snoc v f h.1 k)

All-Keeps : (excludes : Fault → Bool) (f : Fault) → IsChecked f → Keeps (All IsChecked) excludes f
All-Keeps excludes f k = ((k, tt), λ v _ h. All-snoc v f h k)

torn_op_fault-IsTornOp :
    (occurrence : ℤ) (persist : List ℤ) (parts : Option ℤ) (bytes : Option (List ℤ)) (f : Fault)
    → torn_op_fault occurrence persist parts bytes ≡ some f
    → (g : SplitWriteF) × (f ≡ split_write g) × IsTornOp g
unfolding torn_op_fault new_split_write new_split_write_bytes
torn_op_fault-IsTornOp occurrence persist none none f h = cc
torn_op_fault-IsTornOp occurrence persist (some p) (some ps) f h = cc
torn_op_fault-IsTornOp occurrence persist (some p) none f h =
    elim (Bool-cases (is_empty (validate_split_write occurrence persist (some p) none))) [
      | inl e ↦
          let k =
            ((validate_split_write-eq-nil occurrence persist).0 p).0
              (is_empty-nil (validate_split_write occurrence persist (some p) none) e) in
          (new_split_write occurrence persist p, ground arith, (k.0, inl (k.1, k.2)))
      | inr e ↦ absurd (ground arith)
    ]
torn_op_fault-IsTornOp occurrence persist none (some ps) f h =
    elim (Bool-cases (is_empty (validate_split_write occurrence persist none (some ps)))) [
      | inl e ↦
          let k =
            ((validate_split_write-eq-nil occurrence persist).1 ps).0
              (is_empty-nil (validate_split_write occurrence persist none (some ps)) e) in
          (new_split_write_bytes occurrence persist ps, ground arith, (k.0, inr (refl, k.1, k.2)))
      | inr e ↦ absurd (ground arith)
    ]

-- If every injection of a configuration has a type, then it is loaded, and each path has at most
-- one torn-op fault, at most one clear-cache fault, and at most one torn-seq fault for each operation.
pub load_injections-IsSingle :
    (injections : List Injection)
    → All (λ i. i.type ≢ none) injections
    → (faults : Registry) × (load_injections injections [] ≡ ok faults) × Every IsSingle faults
unfolding new_reorder
load_injections-IsSingle injections t =
    load_injections-Every IsSingle
      (λ op persist occurrence. reorder-Keeps (new_reorder op (sort persist) occurrence))
      (λ occurrence persist parts bytes f h.
        let (g, e, _) = torn_op_fault-IsTornOp occurrence persist parts bytes f h in
        rw e (split_write-Keeps g))
      (λ f _. clear-Keeps f) injections [] t (λ file v h. cc)

-- If every injection of a configuration has a type, then it is loaded, and each torn-op and each
-- clear-cache fault that it leaves is well formed; the writes of each torn-seq fault are in order.
pub load_injections-IsChecked :
    (injections : List Injection)
    → All (λ i. i.type ≢ none) injections
    → (faults : Registry) × (load_injections injections [] ≡ ok faults)
      × Every (All IsChecked) faults
unfolding new_reorder
load_injections-IsChecked injections t =
    load_injections-Every (All IsChecked)
      (λ op persist occurrence.
        All-Keeps (is_reorder_of op) (reorder (new_reorder op (sort persist) occurrence))
          (sort_lem persist).0)
      (λ occurrence persist parts bytes f h.
        let (g, e, k) = torn_op_fault-IsTornOp occurrence persist parts bytes f h in
        rw e (All-Keeps is_split_write (split_write g) k))
      (λ f h. All-Keeps is_clear (clear f) ((validate_clear-eq-nil f).0 h)) injections [] t
      (λ file v h. cc)

-- A table of a torn-seq fault with all its keys.
abbrev pub torn_seq_table : String → String → ℤ → List ℤ → Injection
torn_seq_table file op occurrence persist = record {
  type = some "torn-seq";
  file = some file;
  op = some op;
  occurrence = some occurrence;
  persist = some persist;
  parts = none;
  parts_bytes = none;
  timing = none;
  from = none;
  to = none;
  crash = none;
}

-- A torn-seq fault that fails its check is loaded nevertheless.
pub load_injections-unchecked :
    (file op : String) (occurrence : ℤ) (persist : List ℤ)
    → validate_reorder (new_reorder op (sort persist) occurrence) ≢ []
    → (faults : Registry) × (f : ReorderF) × (load_injections
          (torn_seq_table file op occurrence persist ∷ [])
          []
        ≡ ok faults)
      × (find file faults ≡ some (reorder f ∷ []))
      × (validate_reorder f ≢ [])
unfolding load_injections load_injection load_torn_seq register
load_injections-unchecked file op occurrence persist h =
    let f = new_reorder op (sort persist) occurrence in
    (put file (reorder f ∷ []) [], f, refl, rw (==_refl file) refl, h)

-- ===== src/Fs/PersistWrite/Reorders.antt =====
-- lazyfs.cpp: the torn-seq fault of an operation, and changes of it.
use lazyfs.Base.{
  String, ◌≡◌, refl, ◌∙◌, inl, inr, true, false, Option, none, some, List, [], ◌∷◌, arith, ◌==◌,
  nat_eq, string_eq, Bool-cases, Option-cases,
}
use lazyfs.Faults.{Fault, ReorderF, reorder, split_write, clear}
use lazyfs.Faults.Registry.{any_fault, is_reorder_of}
use lazyfs.Fs.PersistWrite.{last_reorder, update_reorders, update_last_reorder}

-- The change keeps the operation.
abbrev pub KeepsOp : (ReorderF → ReorderF) → Type 0
KeepsOp g = (f : ReorderF) → (g f).op ≡ f.op

abbrev change : (ReorderF → ReorderF) → Option ReorderF → Option ReorderF
change g none = none
change g (some f) = some (g f)

module _ (g : ReorderF → ReorderF) (keeps : KeepsOp g) (op : String) where
  last_reorder-update_reorders :
      (v : List Fault) → last_reorder op (update_reorders g op v) ≡ change g (last_reorder op v)
  unfolding last_reorder update_reorders
  last_reorder-update_reorders [] = refl
  last_reorder-update_reorders (split_write f ∷ v) = last_reorder-update_reorders v
  last_reorder-update_reorders (clear f ∷ v) = last_reorder-update_reorders v
  last_reorder-update_reorders (reorder f ∷ v) =
      rw (last_reorder-update_reorders v) (elim (Option-cases (last_reorder op v)) [
        | inr (h, e) ↦ rw e refl
        | inl e ↦ elim (Bool-cases (f.op == op)) [
          | inl same ↦ rw (e, same) (rw (keeps f, same) refl)
          | inr other ↦ rw (e, other) (rw other refl)
        ]
      ])

  any_fault-last_reorder :
      (v : List Fault)
      → any_fault (is_reorder_of op) v ≡ elim (last_reorder op v) [ none ↦ false | some _ ↦ true ]
  unfolding last_reorder is_reorder_of
  any_fault-last_reorder [] = refl
  any_fault-last_reorder (split_write f ∷ v) = any_fault-last_reorder v
  any_fault-last_reorder (clear f ∷ v) = any_fault-last_reorder v
  any_fault-last_reorder (reorder f ∷ v) =
      rw (any_fault-last_reorder v) (elim (Option-cases (last_reorder op v)) [
        | inr (h, e) ↦ rw e (ground arith)
        | inl e ↦ rw e (ground arith)
      ])

  last_reorder-update_last_reorder :
      (v : List Fault) → last_reorder op (update_last_reorder g op v) ≡ change g (last_reorder op v)
  unfolding last_reorder update_last_reorder
  last_reorder-update_last_reorder [] = refl
  last_reorder-update_last_reorder (split_write f ∷ v) = last_reorder-update_last_reorder v
  last_reorder-update_last_reorder (clear f ∷ v) = last_reorder-update_last_reorder v
  last_reorder-update_last_reorder (reorder f ∷ v) = elim (Option-cases (last_reorder op v)) [
    | inr (h, e) ↦
        let a : any_fault (is_reorder_of op) v ≡ true = any_fault-last_reorder v ∙ rw e refl in
        rw a (rw (last_reorder-update_last_reorder v) (rw e refl))
    | inl e ↦
        let a : any_fault (is_reorder_of op) v ≡ false = any_fault-last_reorder v ∙ rw e refl in
        rw a (elim (Bool-cases (f.op == op)) [
          | inl same ↦ rw (e, same) (rw (keeps f, same) refl)
          | inr other ↦ rw (e, other) (rw other refl)
        ])
  ]

  -- The fault of the operation after a change of it.
  pub update_reorders-last :
      (v : List Fault) (f : ReorderF)
      → last_reorder op v ≡ some f
      → last_reorder op (update_reorders g op v) ≡ some (g f)
  update_reorders-last v f h = last_reorder-update_reorders v ∙ rw h refl

  pub update_last_reorder-last :
      (v : List Fault) (f : ReorderF)
      → last_reorder op v ≡ some f
      → last_reorder op (update_last_reorder g op v) ≡ some (g f)
  update_last_reorder-last v f h = last_reorder-update_last_reorder v ∙ rw h refl

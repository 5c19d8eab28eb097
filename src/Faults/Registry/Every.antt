-- ===== src/Faults/Registry/Every.antt =====
-- What holds of the faults of every path when faults are registered.
use lazyfs.Base.{
  String, ℕ, ◌+◌, ◌≤◌, ◌≡◌, refl, inl, inr, Bool, false, Option, none, some, List, [], ◌∷◌, ◌++◌,
  arith, if◌then◌else◌, ◌==◌, nat_eq, string_eq, Bool-cases,
}
use lazyfs.Base.Assoc.{find, put, find-put}
use lazyfs.Faults.{Fault, reorder, split_write, clear}
use lazyfs.Faults.Registry.{Registry, register, any_fault, is_reorder_of, is_split_write, is_clear}

abbrev pub Every : (List Fault → Type 0) → Registry → Type 0
Every Q faults = (file : String) (v : List Fault) → find file faults ≡ some v → Q v

-- `f` may come first, or join faults that it is not excluded by.
abbrev pub Keeps : (List Fault → Type 0) → (Fault → Bool) → Fault → Type 0
Keeps Q excludes f =
    Q (f ∷ []) × ((v : List Fault) → any_fault excludes v ≡ false → Q v → Q (v ++ f ∷ []))

module _ (Q : List Fault → Type 0) where
  put-Every :
      (file : String) (v : List Fault) (faults : Registry)
      → Q v
      → Every Q faults
      → Every Q (put file v faults)
  put-Every file v faults q h j w g = elim (Bool-cases (file == j)) [
    | inl e ↦ let same : v ≡ w = ground (arith, find-put file j v faults) in rw (← same) q
    | inr e ↦ h j w (ground (arith, find-put file j v faults))
  ]

  pub register-Every :
      (excludes : Fault → Bool) (file : String) (f : Fault) (faults : Registry)
      → Keeps Q excludes f
      → Every Q faults
      → Every Q (register excludes file f faults)
  unfolding register
  register-Every excludes file f faults k h = go (find file faults) refl
    where
      go :
          (o : Option (List Fault))
          → find file faults ≡ o
          → Every Q (register excludes file f faults)
      go none g = rw (g, register) (put-Every file (f ∷ []) faults k.0 h)
      go (some v) g = elim (Bool-cases (any_fault excludes v)) [
        | inl e ↦ rw (g, register) (rw e h)
        | inr e ↦
            rw (g, register) (rw e (put-Every file (v ++ f ∷ []) faults (k.1 v e (h file v g)) h))
      ]

-- How many faults pass a test.
abbrev pub count_faults : (Fault → Bool) → List Fault → ℕ
count_faults p [] = 0
count_faults p (f ∷ v) = (if p f then 1 else 0) + count_faults p v

count_faults-snoc :
    (p : Fault → Bool) (v : List Fault) (f : Fault)
    → count_faults p (v ++ f ∷ []) ≡ count_faults p v + (if p f then 1 else 0)
count_faults-snoc p [] f = omega arith
count_faults-snoc p (g ∷ v) f = omega (arith, count_faults-snoc p v f)

count_faults-none :
    (p : Fault → Bool) (v : List Fault) → any_fault p v ≡ false → count_faults p v ≡ 0
count_faults-none p [] h = refl
count_faults-none p (g ∷ v) h = ground (arith, count_faults-none p v)

-- At most one torn-op fault, one clear-cache fault, and one torn-seq fault for each operation.
pub record IsSingle (v : List Fault) : Type 0 where
  pub split_writes : count_faults is_split_write v ≤ 1
  pub clears : count_faults is_clear v ≤ 1
  pub reorders : (op : String) → count_faults (is_reorder_of op) v ≤ 1

module _ (f : Fault) (v : List Fault) (h : IsSingle v) where
  IsSingle-snoc :
      count_faults is_split_write v + (if is_split_write f then 1 else 0) ≤ 1
      → count_faults is_clear v + (if is_clear f then 1 else 0) ≤ 1
      → ((op : String)
          → count_faults (is_reorder_of op) v + (if is_reorder_of op f then 1 else 0) ≤ 1)
      → IsSingle (v ++ f ∷ [])
  IsSingle-snoc a b c = record {
    split_writes = omega (arith, a, count_faults-snoc is_split_write v f);
    clears = omega (arith, b, count_faults-snoc is_clear v f);
    reorders = λ op. omega (arith, c op, count_faults-snoc (is_reorder_of op) v f);
  }

IsSingle-nil : IsSingle []
IsSingle-nil = record {
  split_writes = omega arith;
  clears = omega arith;
  reorders = λ op. omega arith;
}

pub reorder-Keeps : (f : lazyfs.Faults.ReorderF) → Keeps IsSingle (is_reorder_of f.op) (reorder f)
unfolding is_reorder_of is_split_write is_clear
reorder-Keeps f = (step [] refl IsSingle-nil, step)
  where
    step :
        (v : List Fault)
        → any_fault (is_reorder_of f.op) v ≡ false
        → IsSingle v
        → IsSingle (v ++ reorder f ∷ [])
    step v e h =
        IsSingle-snoc (reorder f) v h (omega (arith, h.split_writes)) (omega (arith, h.clears))
          λ op. elim (Bool-cases (f.op == op)) [
            | inl same ↦
                let t : f.op ≡ op = (string_eq.same_iff f.op op).0 same in
                rw same (omega (arith, rw t at (count_faults-none (is_reorder_of f.op) v e)))
            | inr other ↦ rw other (omega (arith, h.reorders op))
          ]

pub split_write-Keeps :
    (f : lazyfs.Faults.SplitWriteF) → Keeps IsSingle is_split_write (split_write f)
unfolding is_reorder_of is_split_write is_clear
split_write-Keeps f = (step [] refl IsSingle-nil, step)
  where
    step :
        (v : List Fault)
        → any_fault is_split_write v ≡ false
        → IsSingle v
        → IsSingle (v ++ split_write f ∷ [])
    step v e h =
        IsSingle-snoc (split_write f) v h (omega (arith, count_faults-none is_split_write v e))
          (omega (arith, h.clears)) (λ op. omega (arith, h.reorders op))

pub clear-Keeps : (f : lazyfs.Faults.ClearF) → Keeps IsSingle is_clear (clear f)
unfolding is_reorder_of is_split_write is_clear
clear-Keeps f = (step [] refl IsSingle-nil, step)
  where
    step :
        (v : List Fault) → any_fault is_clear v ≡ false → IsSingle v → IsSingle (v ++ clear f ∷ [])
    step v e h =
        IsSingle-snoc (clear f) v h (omega (arith, h.split_writes))
          (omega (arith, count_faults-none is_clear v e)) (λ op. omega (arith, h.reorders op))

-- ===== src/Base/Assoc.antt =====
-- The standard containers `std::map` and `std::unordered_map` as association lists. A key that
-- is inserted twice keeps its first entry, as `insert` says; `m[k] = v` is `put`.
use Prim.Native.Nat.{ℕ, ◌<◌}
use mathlib.Core.Path.{◌≡◌, refl}
use mathlib.Core.Bool.{Bool, true, false}
use mathlib.Core.List.{List, [], ◌∷◌}
use mathlib.Core.Option.{Option, none, some}
use native.Mathlib.Omega.{arith}
use lazyfs.Base.Tests.{ltb, nat_eq, if◌then◌else◌, Key, ◌==◌}

module _ {ℓ κ} {K : Type ℓ} {V : Type κ} ⦃e : Key K⦄ where
  abbrev pub find : K → List (K × V) → Option V
  find k [] = none
  find k ((j, v) ∷ m) = if j == k then some v else find k m

  abbrev pub contains : K → List (K × V) → Bool
  contains k [] = false
  contains k ((j, v) ∷ m) = if j == k then true else contains k m

  abbrev pub erase : K → List (K × V) → List (K × V)
  erase k [] = []
  erase k ((j, v) ∷ m) = if j == k then erase k m else (j, v) ∷ erase k m

  -- `m[k] = v`
  abbrev pub put : K → V → List (K × V) → List (K × V)
  put k v [] = (k, v) ∷ []
  put k v ((j, w) ∷ m) = if j == k then (k, v) ∷ m else (j, w) ∷ put k v m

  -- `m.insert ({k, v})`
  abbrev pub insert : K → V → List (K × V) → List (K × V)
  insert k v m = if contains k m then m else (k, v) ∷ m

  pub contains-find :
      (k : K) (m : List (K × V)) → contains k m ≡ elim (find k m) [ none ↦ false | some _ ↦ true ]
  contains-find k [] = refl
  contains-find k ((j, v) ∷ m) = ground (arith, contains-find k m)

  pub find-put :
      (k j : K) (v : V) (m : List (K × V))
      → find j (put k v m) ≡ (if k == j then some v else find j m)
  find-put k j v [] = refl
  find-put k j v ((i, w) ∷ m) =
      ground (arith, find-put k j v m, e.same_iff k j, e.same_iff i k, e.same_iff i j)

  pub find-erase :
      (k j : K) (m : List (K × V)) → find j (erase k m) ≡ (if k == j then none else find j m)
  find-erase k j [] = ground arith
  find-erase k j ((i, w) ∷ m) =
      ground (arith, find-erase k j m, e.same_iff k j, e.same_iff i k, e.same_iff i j)

  pub find-insert :
      (k j : K) (v : V) (m : List (K × V))
      → find j (insert k v m)
        ≡ (if k == j then elim (find k m) [ none ↦ some v | some w ↦ some w ] else find j m)
  find-insert k j v m = ground (arith, contains-find k m, e.same_iff k j)

-- `std::map`: the entries stand in the order of their keys.
module _ {ℓ} {V : Type ℓ} where
  -- `insert` of a `std::map`, which keeps an entry that is there.
  abbrev pub insert_sorted : ℕ → V → List (ℕ × V) → List (ℕ × V)
  insert_sorted k v [] = (k, v) ∷ []
  insert_sorted k v ((j, w) ∷ m) =
      if ltb k j
      then (k, v) ∷ (j, w) ∷ m
      else if j == k
      then (j, w) ∷ m
      else (j, w) ∷ insert_sorted k v m

  -- Every key is above the bound.
  abbrev pub Above : ℕ → List (ℕ × V) → Type 0
  Above b [] = Unit
  Above b ((k, v) ∷ m) = (b < k) × Above b m

  abbrev pub IsSorted : List (ℕ × V) → Type 0
  IsSorted [] = Unit
  IsSorted ((k, v) ∷ m) = Above k m × IsSorted m

-- Keys that stand once each.
module _ {ℓ κ} {K : Type ℓ} {V : Type κ} ⦃e : Key K⦄ where
  abbrev pub IsUnique : List (K × V) → Type 0
  IsUnique [] = Unit
  IsUnique ((k, v) ∷ m) = (contains k m ≡ false) × IsUnique m

  pub erase_of_absent : (k : K) (m : List (K × V)) → contains k m ≡ false → erase k m ≡ m
  erase_of_absent k [] h = refl
  erase_of_absent k ((j, v) ∷ m) h = ground (arith, erase_of_absent k m)

  pub contains-erase :
      (k j : K) (m : List (K × V))
      → contains j (erase k m) ≡ (if k == j then false else contains j m)
  contains-erase k j [] = ground arith
  contains-erase k j ((i, w) ∷ m) =
      ground (arith, contains-erase k j m, e.same_iff k j, e.same_iff i k, e.same_iff i j)

  pub contains-put :
      (k j : K) (v : V) (m : List (K × V))
      → contains j (put k v m) ≡ (if k == j then true else contains j m)
  contains-put k j v [] = refl
  contains-put k j v ((i, w) ∷ m) =
      ground (arith, contains-put k j v m, e.same_iff k j, e.same_iff i k, e.same_iff i j)

  pub erase-IsUnique : (k : K) (m : List (K × V)) → IsUnique m → IsUnique (erase k m)
  erase-IsUnique k [] u = tt
  erase-IsUnique k ((j, v) ∷ m) u = ground (arith, erase-IsUnique k m u.1, contains-erase k j m)

  pub put-IsUnique : (k : K) (v : V) (m : List (K × V)) → IsUnique m → IsUnique (put k v m)
  put-IsUnique k v [] u = (refl, tt)
  put-IsUnique k v ((j, w) ∷ m) u =
      ground (arith, put-IsUnique k v m u.1, contains-put k j v m, e.same_iff k j, e.same_iff j k)

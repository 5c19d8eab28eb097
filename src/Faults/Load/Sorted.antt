-- ===== src/Faults/Load/Sorted.antt =====
-- config.cpp, `load_config`: the writes to persist of a torn-seq fault in order.
use lazyfs.Base.{
  ℕ, ◌+◌, ◌≡◌, refl, ◌∙◌, inl, inr, true, false, Bool, List, [], ◌∷◌, arith, if◌then◌else◌, ◌==◌,
  nat_eq, string_eq, Bool-cases,
}
use lazyfs.Faults.{ℤ, pos, negsuc, exceeds}
use lazyfs.Faults.Load.{insert_in_order, sort}

-- No element exceeds the one behind it.
abbrev pub IsAscending : List ℤ → Type 0
IsAscending [] = Unit
IsAscending (x ∷ []) = Unit
IsAscending (x ∷ y ∷ ys) = (exceeds x y ≡ false) × IsAscending (y ∷ ys)

-- The same integer.
abbrev pub int_beq : ℤ → ℤ → Bool
int_beq (pos m) (pos n) = m == n
int_beq (negsuc m) (negsuc n) = m == n
int_beq _ _ = false

-- How often an integer stands in a list.
abbrev pub count_int : ℤ → List ℤ → ℕ
count_int z [] = 0
count_int z (x ∷ xs) = (if int_beq x z then 1 else 0) + count_int z xs

exceeds-flip : (x y : ℤ) → exceeds x y ≡ true → exceeds y x ≡ false
exceeds-flip (pos m) (pos n) h = ground arith
exceeds-flip (pos m) (negsuc n) h = refl
exceeds-flip (negsuc m) (pos n) h = cc
exceeds-flip (negsuc m) (negsuc n) h = ground arith

insert_in_order-IsAscending :
    (x : ℤ) (ys : List ℤ) → IsAscending ys → IsAscending (insert_in_order x ys)
unfolding insert_in_order
insert_in_order-IsAscending x [] h = tt
insert_in_order-IsAscending x (y ∷ []) h = elim (Bool-cases (exceeds x y)) [
  | inl e ↦ rw e (exceeds-flip x y e, tt)
  | inr e ↦ rw e (e, tt)
]
insert_in_order-IsAscending x (y ∷ z ∷ ys) h = elim (Bool-cases (exceeds x y)) [
  | inl e ↦ elim (Bool-cases (exceeds x z)) [
    | inl f ↦ let ih = insert_in_order-IsAscending x (z ∷ ys) h.1 in rw (e, f) (h.0, rw f at ih)
    | inr f ↦
        let ih = insert_in_order-IsAscending x (z ∷ ys) h.1 in
        rw (e, f) (exceeds-flip x y e, rw f at ih)
  ]
  | inr e ↦ rw e (e, h)
]

sort-IsAscending : (xs : List ℤ) → IsAscending (sort xs)
unfolding sort
sort-IsAscending [] = tt
sort-IsAscending (x ∷ xs) = insert_in_order-IsAscending x (sort xs) (sort-IsAscending xs)

count_int-insert_in_order :
    (z x : ℤ) (ys : List ℤ)
    → count_int z (insert_in_order x ys) ≡ (if int_beq x z then 1 else 0) + count_int z ys
unfolding insert_in_order
count_int-insert_in_order z x [] = refl
count_int-insert_in_order z x (y ∷ ys) = elim (Bool-cases (exceeds x y)) [
  | inl e ↦ rw e (omega (arith, count_int-insert_in_order z x ys))
  | inr e ↦ rw e refl
]

count_int-sort : (z : ℤ) (xs : List ℤ) → count_int z (sort xs) ≡ count_int z xs
unfolding sort
count_int-sort z [] = refl
count_int-sort z (x ∷ xs) =
    count_int-insert_in_order z x (sort xs) ∙ omega (arith, count_int-sort z xs)

-- The writes to persist are put in ascending order, and each stays as often as it was.
pub sort_lem :
    (xs : List ℤ) → IsAscending (sort xs) × ((z : ℤ) → count_int z (sort xs) ≡ count_int z xs)
sort_lem xs = (sort-IsAscending xs, λ z. count_int-sort z xs)

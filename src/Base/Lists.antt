-- ===== src/Base/Lists.antt =====
-- Byte buffers and vectors: lists measured and indexed by native numbers.
use Prim.Native.Nat.{ℕ, zero, suc, ◌+◌, ◌-◌, ◌≤◌, ◌<◌, min}
use mathlib.Core.Path.{◌≡◌, refl, ap}
use mathlib.Core.Bool.{Bool, true, false, ◌&&◌}
use mathlib.Core.List.{List, [], ◌∷◌, ◌++◌}
use mathlib.Core.Option.{Option, none, some}
use native.Mathlib.Omega.{arith}
use lazyfs.Base.Tests.{nat_eq, ltb, leb, if◌then◌else◌, Key, ◌==◌}

module _ {ℓ} {A : Type ℓ} where
  abbrev pub length : List A → ℕ
  length [] = 0
  length (x ∷ xs) = suc (length xs)

  abbrev pub get_or : List A → ℕ → A → A
  get_or [] i d = d
  get_or (x ∷ xs) zero d = x
  get_or (x ∷ xs) (suc i) d = get_or xs i d

  abbrev pub get_elem? : List A → ℕ → Option A
  get_elem? [] i = none
  get_elem? (x ∷ xs) zero = some x
  get_elem? (x ∷ xs) (suc i) = get_elem? xs i

  abbrev pub take : ℕ → List A → List A
  take zero xs = []
  take (suc n) [] = []
  take (suc n) (x ∷ xs) = x ∷ take n xs

  abbrev pub drop : ℕ → List A → List A
  drop zero xs = xs
  drop (suc n) [] = []
  drop (suc n) (x ∷ xs) = drop n xs

  abbrev pub replicate : ℕ → A → List A
  replicate zero a = []
  replicate (suc n) a = a ∷ replicate n a

  -- `memcpy (xs + i, src, length src)`. What would fall behind the end of `xs` is dropped.
  abbrev pub blit : List A → ℕ → List A → List A
  blit [] i src = []
  blit (x ∷ xs) zero [] = x ∷ xs
  blit (x ∷ xs) zero (y ∷ src) = y ∷ blit xs zero src
  blit (x ∷ xs) (suc i) src = x ∷ blit xs i src

  pub length-append : (xs ys : List A) → length (xs ++ ys) ≡ length xs + length ys
  length-append [] ys = omega arith
  length-append (x ∷ xs) ys = omega (arith, length-append xs ys)

  pub length-replicate : (n : ℕ) (a : A) → length (replicate n a) ≡ n
  length-replicate zero a = refl
  length-replicate (suc n) a = ap suc (length-replicate n a)

  pub length-blit : (xs : List A) (i : ℕ) (src : List A) → length (blit xs i src) ≡ length xs
  length-blit [] i src = refl
  length-blit (x ∷ xs) zero [] = refl
  length-blit (x ∷ xs) zero (y ∷ src) = ap suc (length-blit xs zero src)
  length-blit (x ∷ xs) (suc i) src = ap suc (length-blit xs i src)

  pub length-take : (n : ℕ) (xs : List A) → length (take n xs) ≡ min n (length xs)
  length-take zero xs = omega arith
  length-take (suc n) [] = omega arith
  length-take (suc n) (x ∷ xs) = omega (arith, length-take n xs)

  pub length-drop : (n : ℕ) (xs : List A) → length (drop n xs) ≡ length xs - n
  length-drop zero xs = omega arith
  length-drop (suc n) [] = omega arith
  length-drop (suc n) (x ∷ xs) = omega (arith, length-drop n xs)

  pub take_of_length : (n : ℕ) (xs : List A) → n ≡ length xs → take n xs ≡ xs
  take_of_length zero [] h = refl
  take_of_length zero (x ∷ xs) h = absurd (omega arith)
  take_of_length (suc n) [] h = refl
  take_of_length (suc n) (x ∷ xs) h = ap (◌∷◌ x) (take_of_length n xs (omega arith))

  pub get_or-drop :
      (n : ℕ) (xs : List A) (j : ℕ) (d : A) → get_or (drop n xs) j d ≡ get_or xs (n + j) d
  get_or-drop zero xs j d = ap (λ k. get_or xs k d) (omega arith)
  get_or-drop (suc n) [] j d = refl
  get_or-drop (suc n) (x ∷ xs) j d = ground (arith, get_or-drop n xs j d)

  pub get_or-take :
      (n : ℕ) (xs : List A) (j : ℕ) (d : A) → j < n → get_or (take n xs) j d ≡ get_or xs j d
  get_or-take zero xs j d h = absurd (omega arith)
  get_or-take (suc n) [] j d h = refl
  get_or-take (suc n) (x ∷ xs) zero d h = refl
  get_or-take (suc n) (x ∷ xs) (suc j) d h = get_or-take n xs j d (omega arith)

  pub get_or-replicate : (n i : ℕ) (a : A) → get_or (replicate n a) i a ≡ a
  get_or-replicate zero i a = refl
  get_or-replicate (suc n) zero a = refl
  get_or-replicate (suc n) (suc i) a = get_or-replicate n i a

  -- Buffers of one length with the same bytes are equal.
  pub list_ext :
      (xs ys : List A) (d : A)
      → length xs ≡ length ys
      → ((j : ℕ) → j < length xs → get_or xs j d ≡ get_or ys j d)
      → xs ≡ ys
  list_ext [] [] d h g = refl
  list_ext [] (y ∷ ys) d h g = absurd (omega arith)
  list_ext (x ∷ xs) [] d h g = absurd (omega arith)
  list_ext (x ∷ xs) (y ∷ ys) d h g =
      let t = list_ext xs ys d (omega arith) (λ j hj. g (suc j) (omega arith)) in
      cc (t, g 0 (omega arith))

module _ {A : Type 0} where
  -- A copy is read inside the copied range, and the old bytes outside of it.
  pub get_or-blit :
      (xs : List A) (i : ℕ) (src : List A) (j : ℕ) (d : A)
      → i + length src ≤ length xs
      → get_or (blit xs i src) j d
        ≡ (if leb i j && ltb j (i + length src) then get_or src (j - i) d else get_or xs j d)
  get_or-blit [] zero [] j d h = ground arith
  get_or-blit [] zero (y ∷ src) j d h = absurd (omega arith)
  get_or-blit [] (suc i) src j d h = absurd (omega arith)
  get_or-blit (x ∷ xs) zero [] j d h = ground arith
  get_or-blit (x ∷ xs) zero (y ∷ src) zero d h = ground arith
  get_or-blit (x ∷ xs) zero (y ∷ src) (suc j) d h =
      ground (arith, get_or-blit xs zero src j d (omega arith))
  get_or-blit (x ∷ xs) (suc i) src zero d h = ground arith
  get_or-blit (x ∷ xs) (suc i) src (suc j) d h =
      ground (arith, get_or-blit xs i src j d (omega arith))

-- A predicate on every element.
abbrev pub All {ℓ κ} : {A : Type ℓ} → (A → Type κ) → List A → Type κ
All P [] = Unit
All P (x ∷ xs) = P x × All P xs

module _ {ℓ} {A : Type ℓ} ⦃e : Key A⦄ where
  abbrev pub elem : A → List A → Bool
  elem a [] = false
  elem a (x ∷ xs) = if x == a then true else elem a xs

  -- Every element `a` is gone.
  abbrev pub remove : A → List A → List A
  remove a [] = []
  remove a (x ∷ xs) = if x == a then remove a xs else x ∷ remove a xs

  -- A set keeps an element that it has.
  abbrev pub set_insert : A → List A → List A
  set_insert a xs = if elem a xs then xs else a ∷ xs

  pub elem-remove :
      (a b : A) (xs : List A) → elem b (remove a xs) ≡ (if a == b then false else elem b xs)
  elem-remove a b [] = ground arith
  elem-remove a b (x ∷ xs) =
      ground (arith, elem-remove a b xs, e.same_iff a b, e.same_iff x a, e.same_iff x b)

  pub elem-set_insert :
      (a b : A) (xs : List A) → elem b (set_insert a xs) ≡ (if a == b then true else elem b xs)
  elem-set_insert a b xs = ground (arith, e.same_iff a b)

-- How often a number stands in a list.
abbrev pub count : ℕ → List ℕ → ℕ
count x [] = 0
count x (y ∷ ys) = (if y == x then 1 else 0) + count x ys

pub count-remove :
    (a x : ℕ) (xs : List ℕ) → count x (remove a xs) ≡ (if a == x then 0 else count x xs)
count-remove a x [] = ground arith
count-remove a x (y ∷ ys) = ground (arith, count-remove a x ys)

pub elem-count : (x : ℕ) (xs : List ℕ) → elem x xs ≡ ltb 0 (count x xs)
elem-count x [] = refl
elem-count x (y ∷ ys) = ground (arith, elem-count x ys)

-- ===== src/Engine/SyncPages/Runs.antt =====
-- custom_cache.cpp, `sync_pages`: the runs are the dirty blocks cut where two ids do not follow each
-- other.
use mathlib.Core.List.{append_assoc, append-nil, reverse-cons}
use lazyfs.Base.{
  ℕ, nat_eq, ◌+◌, ◌-◌, ◌≤◌, ◌≡◌, inl, inr, ◌&&◌, List, [], ◌∷◌, ◌++◌, ltb, ◌==◌, string_eq,
  Bool-cases, length, reverse, ◌<◌, refl, ap, ◌∙◌, arith, All, length-append,
}
use lazyfs.Engine.SyncPages.{streaks}

abbrev pub concat : {A : Type 0} → List (List A) → List A
concat [] = []
concat (x ∷ xs) = x ++ concat xs

-- The ids of a run follow each other.
abbrev pub Follows : {A : Type 0} → List (ℕ × A) → Type 0
Follows [] = Unit
Follows (x ∷ []) = Unit
Follows (x ∷ y ∷ r) = (x.0 + 1 ≡ y.0) × Follows (y ∷ r)

-- A run that `pwritev` takes: some blocks, not too many, with ids that follow each other.
abbrev pub IsRun : {A : Type 0} → ℕ → List (ℕ × A) → Type 0
IsRun iov_max r = (1 ≤ length r) × (length r ≤ iov_max) × Follows r

module _ {A : Type 0} (iov_max : ℕ) where
  concat-streaks :
      (chunk : List (ℕ × A)) (x : ℕ × A) (xs : List (ℕ × A))
      → concat (streaks iov_max chunk (x ∷ xs)) ≡ reverse chunk ++ x ∷ xs
  unfolding streaks
  concat-streaks chunk x [] = rw (append-nil, reverse-cons)
  concat-streaks chunk x (y ∷ xs) =
      elim (Bool-cases (ltb (length chunk) (iov_max - 1) && x.0 + 1 == y.0)) [
        | inl e ↦
            rw (e, concat-streaks (x ∷ chunk) y xs, reverse-cons)
              (append_assoc (reverse chunk) (x ∷ []) (y ∷ xs))
        | inr e ↦
            rw (e, concat-streaks [] y xs, reverse-cons)
              (append_assoc (reverse chunk) (x ∷ []) (y ∷ xs))
      ]

  Follows-snoc :
      (r : List (ℕ × A)) (x y : ℕ × A)
      → Follows (r ++ (x ∷ []))
      → x.0 + 1 ≡ y.0
      → Follows ((r ++ (x ∷ [])) ++ (y ∷ []))
  Follows-snoc [] x y f e = (e, tt)
  Follows-snoc (a ∷ []) x y f e = (f.0, Follows-snoc [] x y f.1 e)
  Follows-snoc (a ∷ b ∷ r) x y f e = (f.0, Follows-snoc (b ∷ r) x y f.1 e)

  length-reverse : (xs : List (ℕ × A)) → length (reverse xs) ≡ length xs
  length-reverse [] = refl
  length-reverse (x ∷ xs) =
      ap length (reverse-cons x xs)
      ∙ length-append (reverse xs) (x ∷ [])
      ∙ omega (arith, length-reverse xs)

  IsRun-reverse :
      (chunk : List (ℕ × A)) (x : ℕ × A)
      → Follows (reverse chunk ++ (x ∷ []))
      → length chunk < iov_max
      → IsRun iov_max (reverse (x ∷ chunk))
  IsRun-reverse chunk x f l = (
    omega (arith, length-reverse (x ∷ chunk)),
    omega (arith, length-reverse (x ∷ chunk)),
    rw (reverse-cons x chunk) f,
  )

  streaks-IsRun :
      (chunk : List (ℕ × A)) (x : ℕ × A) (xs : List (ℕ × A))
      → Follows (reverse chunk ++ (x ∷ []))
      → length chunk < iov_max
      → All (IsRun iov_max) (streaks iov_max chunk (x ∷ xs))
  unfolding streaks
  streaks-IsRun chunk x [] f l = (IsRun-reverse chunk x f l, tt)
  streaks-IsRun chunk x (y ∷ xs) f l =
      elim (Bool-cases (ltb (length chunk) (iov_max - 1) && x.0 + 1 == y.0)) [
        | inl e ↦ rw e (
            streaks-IsRun (x ∷ chunk) y xs
              (rw (reverse-cons x chunk) (Follows-snoc (reverse chunk) x y f (ground arith)))
              (ground arith))
        | inr e ↦ rw e (IsRun-reverse chunk x f l, streaks-IsRun [] y xs tt (omega arith))
      ]

  -- Where `iov_max` is at least 1, the runs are the blocks in order, each in one run, and each
  -- run can be written by one `pwritev`: it is not empty, has at most `iov_max` blocks, and
  -- their ids follow each other.
  pub streaks_lem :
      (xs : List (ℕ × A))
      → 1 ≤ iov_max
      → (concat (streaks iov_max [] xs) ≡ xs) × All (IsRun iov_max) (streaks iov_max [] xs)
  unfolding streaks
  streaks_lem [] h = (refl, tt)
  streaks_lem (x ∷ xs) h = (concat-streaks [] x xs, streaks-IsRun [] x xs tt (omega arith))

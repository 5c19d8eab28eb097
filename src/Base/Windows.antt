-- ===== src/Base/Windows.antt =====
-- A window of a buffer, under a copy into the buffer.
use lazyfs.Base.Lists.{
  length, get_or, take, drop, blit, list_ext, length-take, length-drop, length-blit, get_or-blit,
  get_or-take, get_or-drop,
}
use Prim.Native.Nat.{ℕ, zero, suc, ◌+◌, ◌≤◌, ◌<◌}
use mathlib.Core.Path.{◌≡◌, refl, ap}
use mathlib.Core.Logic.{◌⊎◌}
use mathlib.Core.List.{List, [], ◌∷◌}
use native.Mathlib.Omega.{arith}

module _ (n lo off : ℕ) (xs src : List ℕ) (fits : lo + n ≤ length xs)
    (inside : off + length src ≤ n) where
  pub window-blit : take n (drop lo (blit xs (lo + off) src)) ≡ blit (take n (drop lo xs)) off src
  window-blit = list_ext _ _ 0 lengths bytes
    where
      lengths :
          length (take n (drop lo (blit xs (lo + off) src)))
          ≡ length (blit (take n (drop lo xs)) off src)
      lengths = omega (
        arith,
        length-take n (drop lo (blit xs (lo + off) src)),
        length-drop lo (blit xs (lo + off) src),
        length-blit xs (lo + off) src,
        length-blit (take n (drop lo xs)) off src,
        length-take n (drop lo xs),
        length-drop lo xs,
      )

      bytes :
          (j : ℕ)
          → j < length (take n (drop lo (blit xs (lo + off) src)))
          → get_or (take n (drop lo (blit xs (lo + off) src))) j 0
            ≡ get_or (blit (take n (drop lo xs)) off src) j 0
      bytes j h = ground (
        arith,
        length-take n (drop lo (blit xs (lo + off) src)),
        length-take n (drop lo xs),
        length-drop lo xs,
        get_or-take n (drop lo (blit xs (lo + off) src)) j 0,
        get_or-drop lo (blit xs (lo + off) src) j 0,
        get_or-blit xs (lo + off) src (lo + j) 0,
        get_or-blit (take n (drop lo xs)) off src j 0,
        get_or-take n (drop lo xs) j 0,
        get_or-drop lo xs j 0,
      )

  pub window-blit_other :
      (l : ℕ)
      → l + n ≤ length xs
      → (lo + n ≤ l) ⊎ (l + n ≤ lo)
      → take n (drop l (blit xs (lo + off) src)) ≡ take n (drop l xs)
  window-blit_other l f d = list_ext _ _ 0 lengths bytes
    where
      lengths : length (take n (drop l (blit xs (lo + off) src))) ≡ length (take n (drop l xs))
      lengths = omega (
        arith,
        length-take n (drop l (blit xs (lo + off) src)),
        length-drop l (blit xs (lo + off) src),
        length-blit xs (lo + off) src,
        length-take n (drop l xs),
        length-drop l xs,
      )

      bytes :
          (j : ℕ)
          → j < length (take n (drop l (blit xs (lo + off) src)))
          → get_or (take n (drop l (blit xs (lo + off) src))) j 0 ≡ get_or (take n (drop l xs)) j 0
      bytes j h = ground (
        arith,
        length-take n (drop l (blit xs (lo + off) src)),
        get_or-take n (drop l (blit xs (lo + off) src)) j 0,
        get_or-drop l (blit xs (lo + off) src) j 0,
        get_or-blit xs (lo + off) src (l + j) 0,
        get_or-take n (drop l xs) j 0,
        get_or-drop l xs j 0,
      )

pub window_take : (n r : ℕ) (xs : List ℕ) → r ≤ n → take r (take n xs) ≡ take r xs
window_take n zero xs h = refl
window_take zero (suc r) xs h = absurd (omega arith)
window_take (suc n) (suc r) [] h = refl
window_take (suc n) (suc r) (x ∷ xs) h = ap (◌∷◌ x) (window_take n r xs (omega arith))

-- ===== src/Base/Words.antt =====
-- Conversions of a `size_t`: to an `int` and back, and to a `double` and back. A negative `int` is
-- the number that it is as a `size_t`.
use Prim.Native.Nat.{ℕ, zero, suc, ◌+◌, ◌-◌, ◌*◌, ◌/◌, ◌%◌, ◌^◌, ◌≤◌, ◌<◌}
use mathlib.Core.Path.{◌≡◌}
use native.Mathlib.Omega.{arith}
use native.Mathlib.Nat.{div-add-mod}
use mathlib.Core.Logic.{◌⊎◌}
use lazyfs.Base.Tests.{ltb, nat_eq, if◌then◌else◌, ◌==◌}

unfoldable pub to_int : ℕ → ℕ
to_int n = let m : ℕ = n % 2 ^ 32 in if ltb m (2 ^ 31) then m else m + (2 ^ 64 - 2 ^ 32)

pub to_int_small : (n : ℕ) → n < 2 ^ 31 → to_int n ≡ n
unfolding to_int
to_int_small n h = ground arith

-- The nearest multiple of `u`, and of two the even one.
unfoldable pub round_even : ℕ → ℕ → ℕ
round_even u n =
    let q : ℕ = n / u in
    let r : ℕ = n % u in
    if ltb (2 * r) u then q * u else if 2 * r == u then (q + q % 2) * u else (q + 1) * u

-- A `double` has 53 bits: the unit is doubled until they are enough.
unfoldable pub round_from : ℕ → ℕ → ℕ → ℕ
unfolding round_even
round_from zero u n = round_even u n
round_from (suc k) u n =
    let wider = round_from k (2 * u) n in if ltb n (2 ^ 53 * u) then round_even u n else wider

-- `(size_t) std::ceil ((double) n)` for a `size_t`
unfoldable pub through_double : ℕ → ℕ
unfolding round_from
through_double n = round_from 11 1 n

-- How far two numbers are from each other, twice.
abbrev pub IsNear : ℕ → ℕ → ℕ → Type 0
IsNear d x n = (2 * x ≤ 2 * n + d) × (2 * n ≤ 2 * x + d)

times_even : (q u : ℕ) → ((q + q % 2) * u ≡ q * u) ⊎ ((q + q % 2) * u ≡ q * u + u)
times_even q u = grind arith

round_parts-IsNear :
    (u n q r : ℕ)
    → q * u + r ≡ n
    → r < u
    → IsNear u
        (if ltb (2 * r) u then q * u else if 2 * r == u then (q + q % 2) * u else (q + 1) * u)
        n
round_parts-IsNear u n q r e h =
    let next : (q + 1) * u ≡ q * u + u = grind arith in ground (arith, e, h, next, times_even q u)

mod_bound : (n u : ℕ) → 1 ≤ u → n % u < u
mod_bound n u h = grind arith

round_even-IsNear : (u n : ℕ) → 1 ≤ u → IsNear u (round_even u n) n
unfolding round_even
round_even-IsNear u n h =
    round_parts-IsNear u n (n / u) (n % u) (grind (arith, div-add-mod n u)) (mod_bound n u h)

pow_pos : (k : ℕ) → 1 ≤ 2 ^ k
pow_pos zero = omega arith
pow_pos (suc k) = omega (arith, pow_pos k)

doubled : (u a b : ℕ) → b ≡ 2 * a → u * b ≡ 2 * u * a
doubled u a b h = grind arith

le_times : (u b : ℕ) → 1 ≤ b → u ≤ u * b
le_times u b h = grind arith

round_from-IsNear : (k u n : ℕ) → 1 ≤ u → IsNear (u * 2 ^ k) (round_from k u n) n
unfolding round_from
round_from-IsNear zero u n h =
    let near = round_even-IsNear u n h in (omega (arith, near.0), omega (arith, near.1))
round_from-IsNear (suc k) u n h =
    let near = round_even-IsNear u n h in
    let wider = round_from-IsNear k (2 * u) n (omega arith) in
    let same = doubled u (2 ^ k) (2 ^ suc k) (omega arith) in
    let more = le_times u (2 ^ suc k) (pow_pos (suc k)) in ground (arith, near, wider, same, more)

pub through_double-IsNear : (n : ℕ) → (through_double n ≤ n + 1024) × (n ≤ through_double n + 1024)
unfolding through_double
through_double-IsNear n = omega (arith, round_from-IsNear 11 1 n (omega arith))

-- ===== src/Fs/Writes/Ranges.antt =====
-- lazyfs.cpp, `lfs_write`: the blocks of a write and their bytes.
use lazyfs.Base.{
  ℕ, zero, suc, ◌+◌, ◌-◌, ◌*◌, ◌/◌, ◌%◌, ◌^◌, ◌≤◌, ◌<◌, ◌≡◌, refl, inl, inr, List, [], ◌∷◌, arith,
  ◌==◌, nat_eq, Bool-cases,
}
use native.Mathlib.Nat.{div-add-mod}
use lazyfs.Fs.Writes.{Range, last_byte, readable_from, readable_to, ranges, blocks_of}

-- The ranges follow one another in the buffer from `it` on to the size, each inside its block and
-- at the place in the file that it has in the buffer.
abbrev pub Covers : ℕ → ℕ → ℕ → ℕ → List Range → Type 0
Covers block_size offset it size [] = it ≡ size
Covers block_size offset it size (r ∷ rs) =
    (r.iterator ≡ it)
    × (r.readable_from ≤ r.readable_to)
    × (r.readable_to < block_size)
    × (block_size * r.index + r.readable_from ≡ offset + it)
    × Covers block_size offset (it + (r.readable_to + 1 - r.readable_from)) size rs

last_byte_lem :
    (offset size : ℕ)
    → 0 < size
    → offset + size < 2 ^ 64
    → last_byte offset size ≡ offset + size - 1
last_byte_lem offset size p h = grind arith

mod_less : (n m : ℕ) → 0 < m → n % m < m
mod_less n m h = grind arith

mul_suc : (b i : ℕ) → b * (i + 1) ≡ b * i + b
mul_suc b i = grind arith

div_mono : (m n b : ℕ) → 0 < b → m ≤ n → m / b ≤ n / b
div_mono m n b p h = grind arith

reach : (n b : ℕ) → 0 < b → 0 < n / b → b ≤ n
reach n b p h = grind arith

module _ (b offset size : ℕ) (b_pos : 0 < b) (size_pos : 0 < size)
    (bound : offset + size < 2 ^ 64) where
  -- The last byte, its block, and its place in the block.
  abbrev last : ℕ
  last = offset + size - 1

  split_last : b * (last / b) + last % b ≡ last
  split_last = div-add-mod last b

  to_last : (i : ℕ) → i ≡ last / b → readable_to b offset size i ≡ last % b
  unfolding readable_to
  to_last i e = rw (last_byte_lem offset size size_pos bound) (ground (arith, e))

  to_end : (i : ℕ) → i < last / b → readable_to b offset size i ≡ b - 1
  unfolding readable_to
  to_end i h =
      let far : b ≤ last = reach last b b_pos (omega (arith, h)) in
      rw (last_byte_lem offset size size_pos bound) (ground (arith, h, far))

  -- From a block behind the first one on.
  ranges-later :
      (count i it : ℕ)
      → offset / b < i
      → count + i ≡ last / b + 1
      → (count ≡ 0 → it ≡ size)
      → (0 < count → b * i ≡ offset + it)
      → Covers b offset it size (ranges b offset size count i it)
  unfolding ranges readable_from
  ranges-later zero i it later ends done_ starts = done_ refl
  ranges-later (suc count) i it later ends done_ starts =
      let from : readable_from b offset i ≡ 0 = ground (arith, later) in
      let at_ : b * i ≡ offset + it = starts (omega arith) in
      let inside = mod_less last b b_pos in
      rw from (elim (Bool-cases (i == last / b)) [
        | inl e ↦
            let same : i ≡ last / b = (nat_eq.same_iff i (last / b)).0 e in
            let to = to_last i same in
            let s : b * i + last % b ≡ last = rw same split_last in
            let more : it + (last % b + 1 - 0) ≡ size = omega (arith, s, at_, size_pos) in
            rw to (
              refl,
              omega arith,
              inside,
              omega (arith, at_),
              ranges-later count (i + 1) (it + (last % b + 1 - 0)) (omega (arith, later))
                  (omega (arith, ends)) (λ _. more) (λ p. absurd (omega (arith, p, ends, same))),
            )
        | inr e ↦
            let less : i < last / b = ground (arith, e, ends) in
            let to = to_end i less in
            rw to (
              refl,
              omega arith,
              omega (arith, b_pos),
              omega (arith, at_),
              ranges-later count (i + 1) (it + (b - 1 + 1 - 0)) (omega (arith, later))
                  (omega (arith, ends)) (λ z. absurd (omega (arith, z, ends, less)))
                  (λ p. omega (arith, mul_suc b i, at_, b_pos)),
            )
      ])

  -- From the first block on.
  ranges-first :
      (count : ℕ)
      → count + offset / b ≡ last / b
      → Covers b offset 0 size (ranges b offset size (suc count) (offset / b) 0)
  unfolding ranges readable_from
  ranges-first count ends =
      let low : ℕ = offset / b in
      let from : readable_from b offset low ≡ offset % b = ground arith in
      let split : b * low + offset % b ≡ offset = div-add-mod offset b in
      let m = mod_less offset b b_pos in
      let inside = mod_less last b b_pos in
      rw from (elim (Bool-cases (low == last / b)) [
        | inl e ↦
            let same : low ≡ last / b = (nat_eq.same_iff low (last / b)).0 e in
            let to = to_last low same in
            let s : b * low + last % b ≡ last = rw same split_last in
            rw to (
              refl,
              omega (arith, s, split, size_pos),
              inside,
              omega (arith, split),
              ranges-later count (low + 1) (0 + (last % b + 1 - offset % b)) (omega arith)
                  (omega (arith, ends)) (λ _. omega (arith, s, split, size_pos))
                  (λ p. absurd (omega (arith, p, ends, same))),
            )
        | inr e ↦
            let less : low < last / b = ground (arith, e, ends) in
            let to = to_end low less in
            rw to (
              refl,
              omega (arith, m),
              omega (arith, b_pos),
              omega (arith, split),
              ranges-later count (low + 1) (0 + (b - 1 + 1 - offset % b)) (omega arith)
                  (omega (arith, ends)) (λ z. absurd (omega (arith, z, ends, less)))
                  (λ p. omega (arith, mul_suc b low, split, m, b_pos)),
            )
      ])

  -- For blocks of at least one byte, the blocks of a write of at least one byte that ends below
  -- 2 ^ 64 hold its bytes one after another, each at its place in the file and inside its
  -- block, and all of them.
  pub blocks_of-Covers : Covers b offset 0 size (blocks_of b offset size)
  unfolding blocks_of
  blocks_of-Covers =
      let le = div_mono offset last b b_pos (omega (arith, size_pos)) in
      let count : ℕ = last / b - offset / b in
      let enough : last / b + 1 - offset / b ≡ suc count = omega (arith, le) in
      rw (last_byte_lem offset size size_pos bound, enough) (ranges-first count (omega (arith, le)))

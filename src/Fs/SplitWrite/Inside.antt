-- ===== src/Fs/SplitWrite/Inside.antt =====
-- lazyfs.cpp, `split_write`: the parts of a checked fault lie inside the write.
use lazyfs.Base.{
  ℕ, zero, suc, ◌+◌, ◌*◌, ◌/◌, ◌%◌, ◌^◌, ◌≤◌, ◌<◌, ◌≡◌, refl, ◌∙◌, inl, inr, true, some, List, [],
  ◌∷◌, arith, ◌==◌, nat_eq, length, take, get_elem?, All,
}
use lazyfs.Base.Words.{to_int, to_int_small}
use native.Mathlib.Nat.{div-add-mod}
use lazyfs.Base.Run.{ok}
use lazyfs.Faults.{ℤ, pos, negsuc, SplitWriteF}
use lazyfs.Faults.Checks.{IsPart}
use lazyfs.Faults.Load.Checked.{IsTornOp}
use lazyfs.Fs.SplitWrite.{Part, to_unsigned, before, sum, unequal_parts, equal_parts, parts_of}

-- A part of a write: bytes of its buffer, at the same distance from the write's offset in the file.
abbrev pub IsInside : ℕ → ℕ → Part → Type 0
IsInside size offset p = (p.buf_i + p.size ≤ size) × (p.off ≡ offset + p.buf_i)

mul_le : (a b c : ℕ) → a ≤ b → a * c ≤ b * c
mul_le a b c h = grind arith

-- The part that begins at a multiple of the parts' size, with the bytes that are left over.
part_le : (q n d r size : ℕ) → q + 1 ≤ n → n * d + r ≡ size → q * d + (d + r) ≤ size
part_le q n d r size h e = let m = mul_le (q + 1) n d h in grind arith

before_part : (n : ℕ) (p : ℤ) → IsPart (pos n) p → before p + 1 ≤ n
before_part n (pos q) h = ground arith
before_part n (negsuc q) h = absurd h.0

equal_part-IsInside :
    (n d r offset size : ℕ) (p : ℤ) (more : ℕ)
    → n * d + r ≡ size
    → offset + size < 2 ^ 31
    → more ≤ r
    → IsPart (pos n) p
    → IsInside size offset (record {
      buf_i = to_int (before p * d);
      size = to_int (d + more);
      off = to_int (offset + before p * d);
    })
equal_part-IsInside n d r offset size p more e h m i =
    let a = part_le (before p) n d r size (before_part n p i) e in
    let b = to_int_small (before p * d) (omega (arith, a, h)) in
    let c = to_int_small (d + more) (omega (arith, a, h, m)) in
    let o = to_int_small (offset + before p * d) (omega (arith, a, h)) in
    (omega (arith, a, b, c, m), omega (arith, o, b))

equal_parts-IsInside :
    (n d r offset size : ℕ) (persist : List ℤ)
    → n * d + r ≡ size
    → offset + size < 2 ^ 31
    → All (IsPart (pos n)) persist
    → All (IsInside size offset) (equal_parts d r offset persist)
unfolding equal_parts
equal_parts-IsInside n d r offset size [] e h i = tt
equal_parts-IsInside n d r offset size (p ∷ []) e h i =
    (equal_part-IsInside n d r offset size p r e h (omega arith) i.0, tt)
equal_parts-IsInside n d r offset size (p ∷ q ∷ persist) e h i = (
  equal_part-IsInside n d r offset size p 0 e h (omega arith) i.0,
  equal_parts-IsInside n d r offset size (q ∷ persist) e h i.1,
)

-- The sum of the sizes of parts.
abbrev pub total : List ℤ → ℕ
total [] = 0
total (n ∷ ns) = to_unsigned n + total ns

sum-total : (ns : List ℤ) → total ns < 2 ^ 31 → sum ns ≡ total ns
unfolding sum
sum-total [] h = refl
sum-total (n ∷ ns) h =
    rw (sum-total ns (omega (arith, h))) (to_int_small (to_unsigned n + total ns) h)

total-take_le : (k : ℕ) (ns : List ℤ) → total (take k ns) ≤ total ns
total-take_le zero ns = omega arith
total-take_le (suc k) [] = omega arith
total-take_le (suc k) (n ∷ ns) = omega (arith, total-take_le k ns)

-- The part at an index ends inside the sum.
get_elem?-total :
    (k : ℕ) (ns : List ℤ)
    → k < length ns
    → (z : ℤ) × (get_elem? ns k ≡ some z) × (total (take k ns) + to_unsigned z ≤ total ns)
get_elem?-total k [] h = absurd (omega arith)
get_elem?-total zero (n ∷ ns) h = (n, refl, omega arith)
get_elem?-total (suc k) (n ∷ ns) h =
    let (z, e, b) = get_elem?-total k ns (omega arith) in (z, e, omega (arith, b))

unequal_parts-IsInside :
    (sizes : List ℤ) (size offset : ℕ) (persist : List ℤ)
    → total sizes ≡ size
    → offset + size < 2 ^ 31
    → All (IsPart (pos (length sizes))) persist
    → (ps : List Part) × (unequal_parts sizes size offset persist ≡ ok (some ps))
      × All (IsInside size offset) ps
unfolding unequal_parts
unequal_parts-IsInside sizes size offset [] e h i = ([], refl, tt)
unequal_parts-IsInside sizes size offset (p ∷ persist) e h i =
    let (ps, eq, inside) = unequal_parts-IsInside sizes size offset persist e h i.1 in
    let (z, g, b) =
      get_elem?-total (before p) sizes (omega (arith, before_part (length sizes) p i.0)) in
    let t : sum sizes ≡ size = sum-total sizes (omega (arith, e, h)) ∙ e in
    let s : sum (take (before p) sizes) ≡ total (take (before p) sizes) =
      sum-total (take (before p) sizes) (omega (arith, b, e, h)) in
    let part : Part = record {
      buf_i = sum (take (before p) sizes);
      size = to_int (to_unsigned z);
      off = to_int (offset + sum (take (before p) sizes));
    } in
    let same : (sum sizes == size) ≡ true = ground (arith, t) in
    let in_part : IsInside size offset part = (
      omega (arith, s, b, e, to_int_small (to_unsigned z) (omega (arith, b, e, h))),
      to_int_small (offset + sum (take (before p) sizes)) (omega (arith, s, b, e, h)),
    ) in
    (part ∷ ps, rw (unequal_parts, same, g, eq) refl, (in_part, inside))

-- For a fault that passed its check, and whose sizes sum up to the size of the write where they
-- are given, the parts exist and lie inside the write.
pub parts_of-IsInside :
    (f : SplitWriteF) (size offset : ℕ)
    → IsTornOp f
    → (f.parts ≡ negsuc 0 → total f.parts_bytes ≡ size)
    → offset + size < 2 ^ 31
    → (ps : List Part) × (parts_of f size offset ≡ ok (some ps)) × All (IsInside size offset) ps
unfolding parts_of
parts_of-IsInside f size offset (_, inl (positive, i)) sums h = go f.parts refl
  where
    go :
        (z : ℤ)
        → f.parts ≡ z
        → (ps : List Part) × (parts_of f size offset ≡ ok (some ps)) × All (IsInside size offset) ps
    go (negsuc n) e = absurd (rw e at positive)
    go (pos n) e =
        let n_pos : 0 < n = rw e at positive in
        (
          equal_parts (size / n) (size % n) offset f.persist,
          rw (parts_of, e) (ground (arith, n_pos)),
          equal_parts-IsInside n (size / n) (size % n) offset size f.persist (div-add-mod size n) h
              (rw e at i),
        )
parts_of-IsInside f size offset (_, inr (given, _, i)) sums h =
    let (ps, e, inside) =
      unequal_parts-IsInside f.parts_bytes size offset f.persist (sums given) h i in
    (ps, rw (parts_of, given, e) refl, inside)

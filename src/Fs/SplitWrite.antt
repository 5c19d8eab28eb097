-- ===== src/Fs/SplitWrite.antt =====
-- lazyfs.cpp, `split_write`: a torn-op fault cuts a write into parts and persists some of them. A
-- buffer and its size are a list. An `int` or an offset is the `size_t` that it is converted to;
-- parts of 2 ^ 31 bytes do not occur.
pub mod Inside
pub mod Torn
use lazyfs.Base.{
  ℕ, ◌+◌, ◌-◌, ◌*◌, ◌/◌, ◌%◌, ◌^◌, String, Bool, true, false, Option, none, some, List, [], ◌∷◌,
  ◌++◌, leb, if◌then◌else◌, ◌==◌, nat_eq, string_eq, length, take, drop, get_elem?,
}
use lazyfs.Base.Assoc.{find, put}
use lazyfs.Base.Words.{to_int}
use lazyfs.Base.Run.{Run, ok, fault, out_of_bounds, division_by_zero}
use lazyfs.Base.Run
use lazyfs.Os.{Os}
use lazyfs.Faults.{ℤ, pos, negsuc, Fault, SplitWriteF, reorder, split_write as torn_op, clear}
use lazyfs.Inject.ClearCache.{equals}
use lazyfs.Fs.{Fs, Op, done, failed, ◌>>=◌, give}
use lazyfs.Fs.Crash.{add_crash_fault}

-- The conversion of an `int` to `size_t`.
abbrev pub to_unsigned : ℤ → ℕ
to_unsigned (pos n) = n
to_unsigned (negsuc n) = 2 ^ 64 - (n + 1)

-- `x - 1` of an `int`, as `size_t`
abbrev pub before : ℤ → ℕ
before (pos n) = if n == 0 then 2 ^ 64 - 1 else n - 1
before (negsuc n) = 2 ^ 64 - (n + 2)

-- Where a part begins in the buffer, its size, and where it goes in the file: a `tuple<int, int, int>`.
-- What is negative is as large as it is as a `size_t`.
pub record Part : Type 0 where
  pub buf_i : ℕ
  pub size : ℕ
  pub off : ℕ

-- `sum`, and `buf_i` for the parts before `p`: an `int` that wraps around
unfoldable pub sum : List ℤ → ℕ
unfolding to_int
sum [] = 0
sum (n ∷ ns) = to_int (to_unsigned n + sum ns)

-- The parts of given sizes. `none` stands for the return when the sizes do not sum up.
unfoldable pub unequal_parts : List ℤ → ℕ → ℕ → List ℤ → Run (Option (List Part))
unfolding sum to_int
unequal_parts parts_bytes size offset [] = ok (some [])
unequal_parts parts_bytes size offset (p ∷ persist) =
    let rest = unequal_parts parts_bytes size offset persist in
    let buf_i = sum (take (before p) parts_bytes) in
    if sum parts_bytes == size
    then elim (get_elem? parts_bytes (before p)) [
      | none ↦ fault out_of_bounds
      | some size_to_persist ↦ Run.◌>>=◌ rest λ parts.
          let part : Part = record {
            buf_i = buf_i;
            size = to_int (to_unsigned size_to_persist);
            off = to_int (offset + buf_i);
          } in
          ok (elim parts [ none ↦ none | some ps ↦ some (part ∷ ps) ])
    ]
    else ok none

-- Parts of one size. The last part to persist has the extra bytes.
unfoldable pub equal_parts : ℕ → ℕ → ℕ → List ℤ → List Part
unfolding to_int
equal_parts size_to_persist extra offset [] = []
equal_parts size_to_persist extra offset (p ∷ persist) =
    let rest = equal_parts size_to_persist extra offset persist in
    let start : ℕ = before p * size_to_persist in
    record {
      buf_i = to_int start;
      size = to_int (size_to_persist + elim persist [ [] ↦ extra | _ ∷ _ ↦ 0 ]);
      off = to_int (offset + start);
    }
    ∷ rest

abbrev pub is_minus_one : ℤ → Bool
is_minus_one (pos n) = false
is_minus_one (negsuc n) = n == 0

-- The parts that the fault persists.
unfoldable pub parts_of : SplitWriteF → ℕ → ℕ → Run (Option (List Part))
unfolding unequal_parts equal_parts
parts_of f size offset =
    if is_minus_one f.parts
    then unequal_parts f.parts_bytes size offset f.persist
    else if to_unsigned f.parts == 0
    then fault division_by_zero
    else ok (
        some
          (equal_parts (size / to_unsigned f.parts) (size % to_unsigned f.parts) offset f.persist))

-- The first torn-op fault with its counter increased, and the faults with it.
unfoldable pub next_split : List Fault → Option (SplitWriteF × List Fault)
next_split [] = none
next_split (torn_op f ∷ rest) =
    let g : SplitWriteF = record f { counter = f.counter + 1 } in some (g, torn_op g ∷ rest)
next_split (reorder f ∷ rest) = elim (next_split rest) [
  | none ↦ none
  | some (g, rest') ↦ some (g, reorder f ∷ rest')
]
next_split (clear f ∷ rest) = elim (next_split rest) [
  | none ↦ none
  | some (g, rest') ↦ some (g, clear f ∷ rest')
]

module _ (os : Os) where
  -- The loop over the parts, to the first one that is not written as a whole. The descriptor is
  -- not closed.
  unfoldable pub write_parts : Option ℕ → List ℕ → List Part → Op os Bool
  write_parts fd buf [] s = done true s
  write_parts fd buf (p ∷ ps) s =
      if leb (p.buf_i + p.size) (length buf)
      then (let (pw, w) = os.pwrite fd (take p.size (drop p.buf_i buf)) p.off s.world in
          let s' : Fs os = record s { world = w } in
          let go_on = write_parts fd buf ps s' in
          elim pw [ none ↦ done false s' | some n ↦ if n == p.size then go_on else done false s' ])
      else failed out_of_bounds

  -- The write is the one of the fault's occurrence.
  unfoldable pub split_parts : SplitWriteF → String → List ℕ → ℕ → Op os Bool
  unfolding parts_of write_parts add_crash_fault
  split_parts f path buf offset s =
      let (fd, w) = os.open_create path s.world in
      elim (parts_of f (length buf) offset) [
        | fault e ↦ failed e
        | ok parts ↦ elim parts [
          | none ↦ done false (record s { world = w })
          | some ps ↦
              (write_parts fd buf ps >>= λ all.
              if all
              then add_crash_fault os "after" "write" path "none" >>= (λ _. give true)
              else give false)
                (record s { world = w })
        ]
      ]

  unfoldable pub split_write : String → List ℕ → ℕ → Op os Bool
  unfolding next_split split_parts
  split_write path buf offset s = elim (find path s.faults) [
    | none ↦ done false s
    | some v_faults ↦ elim (next_split v_faults) [
      | none ↦ done false s
      | some (split_fault, v_faults') ↦
          let s' : Fs os = record s {
            injecting_fault = s.injecting_fault ++ path ∷ [];
            faults = put path v_faults' s.faults;
          } in
          if equals split_fault.counter split_fault.occurrence
          then split_parts split_fault path buf offset s'
          else done false s'
    ]
  ]

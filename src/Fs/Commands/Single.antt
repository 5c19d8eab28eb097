-- ===== src/Fs/Commands/Single.antt =====
-- lazyfs.cpp: what a command that adds a torn fault leaves, and what it reports.
use lazyfs.Base.{
  zero, suc, true, String, ◌≡◌, refl, inl, inr, ◌⊎◌, ◌≢◌, Bool, false, none, some, List, [], ◌∷◌,
  ◌++◌, arith, if◌then◌else◌, nat_eq, string_eq, Bool-cases, Option-cases,
}
use lazyfs.Base.Assoc.{find, put}
use lazyfs.Fs.SplitWrite.{is_minus_one}
use lazyfs.Faults.{
  new_reorder, new_split_write, new_split_write_bytes, validate_split_write, validate_reorder,
  only_one_torn_op, only_one_torn_seq, ℤ, pos, negsuc, Fault, Error, ReorderF, SplitWriteF, reorder,
  split_write, clear,
}
use lazyfs.Faults.Registry.{
  Registry, register, any_fault, is_reorder, is_reorder_of, is_split_write,
}
use lazyfs.Faults.Registry.Every.{
  Every, Keeps, IsSingle, register-Every, reorder-Keeps, split_write-Keeps,
}
use lazyfs.Faults.Load.{is_empty}
use lazyfs.Fs.Commands.{duplicates, add_fault, add_torn_op, add_torn_seq}

any_fault-reorder :
    (op : String) (v : List Fault)
    → any_fault is_reorder v ≡ false
    → any_fault (is_reorder_of op) v ≡ false
unfolding is_reorder is_reorder_of
any_fault-reorder op [] h = refl
any_fault-reorder op (reorder f ∷ v) h = absurd (ground arith)
any_fault-reorder op (split_write f ∷ v) h = any_fault-reorder op v h
any_fault-reorder op (clear f ∷ v) h = any_fault-reorder op v h

-- A torn-seq fault that no other one excludes.
any_reorder-Keeps : (f : ReorderF) → Keeps IsSingle is_reorder (reorder f)
any_reorder-Keeps f = let k = reorder-Keeps f in (k.0, λ v h. k.1 v (any_fault-reorder f.op v h))

duplicates-any :
    (excludes : Fault → Bool) (e : Error) (v : List Fault)
    → duplicates excludes e v ≡ []
    → any_fault excludes v ≡ false
unfolding duplicates
duplicates-any excludes e [] h = refl
duplicates-any excludes e (f ∷ v) h = ground (arith, duplicates-any excludes e v)

any-duplicates :
    (excludes : Fault → Bool) (e : Error) (v : List Fault)
    → any_fault excludes v ≡ false
    → duplicates excludes e v ≡ []
unfolding duplicates
any-duplicates excludes e [] h = refl
any-duplicates excludes e (f ∷ v) h = ground (arith, any-duplicates excludes e v)

-- The faults of a path.
abbrev pub faults_of : String → Registry → List Fault
faults_of path faults = elim (find path faults) [ none ↦ [] | some v ↦ v ]

-- The result of a command that is to add a fault, whose check finds some errors, and which a fault
-- of its path may exclude. It reports nothing, and the fault is added behind those of its path;
-- or it reports something and leaves the faults as they are. The second is so exactly if there are
-- errors or a fault that excludes it.
abbrev pub IsAdded :
    List Error → (Fault → Bool) → String → Fault → Registry → List Error × Registry → Type 0
IsAdded check excludes path f faults (errors, faults') =
    ((check ≡ [])
      × (any_fault excludes (faults_of path faults) ≡ false)
      × (errors ≡ [])
      × (faults' ≡ put path (faults_of path faults ++ f ∷ []) faults))
    ⊎ (((check ≢ []) ⊎ (any_fault excludes (faults_of path faults) ≡ true))
        × (errors ≢ [])
        × (faults' ≡ faults))

add_fault-IsAdded :
    (excludes : Fault → Bool) (e : Error) (path : String) (f : Fault) (faults : Registry)
    → IsAdded [] excludes path f faults (add_fault excludes e path f faults)
unfolding add_fault register
add_fault-IsAdded excludes e path f faults = elim (Option-cases (find path faults)) [
  | inl n ↦ inl (
    refl,
    rw (faults_of, n) refl,
    rw (add_fault, n) refl,
    rw (add_fault, register, faults_of, n) refl,
  )
  | inr (v, n) ↦
      let old : faults_of path faults ≡ v = rw (faults_of, n) refl in
      elim (Bool-cases (any_fault excludes v)) [
        | inl d ↦ inr (
          inr (rw old d),
          rw (add_fault, n) (λ h. absurd (ground (arith, d, duplicates-any excludes e v h))),
          rw (add_fault, register, n, d) refl,
        )
        | inr d ↦ inl (
          refl,
          rw old d,
          rw (add_fault, n) (any-duplicates excludes e v d),
          rw (add_fault, register, old, n, d) refl,
        )
      ]
]

add_fault-IsSingle :
    (excludes : Fault → Bool) (e : Error) (path : String) (f : Fault) (faults : Registry)
    → Keeps IsSingle excludes f
    → Every IsSingle faults
    → IsAdded [] excludes path f faults (add_fault excludes e path f faults)
      × Every IsSingle (add_fault excludes e path f faults).1
unfolding add_fault
add_fault-IsSingle excludes e path f faults k h =
    (add_fault-IsAdded excludes e path f faults, register-Every IsSingle excludes path f faults k h)

not_empty : (es : List Error) → is_empty es ≡ false → es ≢ []
not_empty [] h = cc
not_empty (e ∷ es) h = λ z. cc

-- A fault is added if its check found no errors.
checked-IsAdded :
    (errors : List Error) (excludes : Fault → Bool) (e : Error) (path : String) (f : Fault)
    (faults : Registry)
    → IsAdded errors excludes path f faults
        (if is_empty errors then add_fault excludes e path f faults else (errors, faults))
checked-IsAdded [] excludes e path f faults = add_fault-IsAdded excludes e path f faults
checked-IsAdded (e' ∷ errors) excludes e path f faults = inr (inl (λ z. cc), (λ z. cc), refl)

checked-IsSingle :
    (errors : List Error) (excludes : Fault → Bool) (e : Error) (path : String) (f : Fault)
    (faults : Registry)
    → Keeps IsSingle excludes f
    → Every IsSingle faults
    → let r = if is_empty errors then add_fault excludes e path f faults else (errors, faults) in
      IsAdded errors excludes path f faults r × Every IsSingle r.1
checked-IsSingle [] excludes e path f faults k h = add_fault-IsSingle excludes e path f faults k h
checked-IsSingle (e' ∷ errors) excludes e path f faults k h =
    (inr (inl (λ z. cc), (λ z. cc), refl), h)

-- The faults that the commands are to add, and the check of the first one.
abbrev pub given_seq : String → ℤ → List ℤ → ReorderF
given_seq op occurrence persist = record {
  op = op;
  counter = 0;
  persist = persist;
  occurrence = occurrence;
  group_counter = 0;
}

abbrev pub given_split : ℤ → ℤ → List ℤ → List ℤ → SplitWriteF
given_split occurrence parts persist parts_bytes = record {
  occurrence = occurrence;
  counter = 0;
  persist = persist;
  parts = parts;
  parts_bytes = if is_minus_one parts then parts_bytes else [];
}

abbrev pub check_split : ℤ → ℤ → List ℤ → List ℤ → List Error
check_split occurrence parts persist parts_bytes =
    if is_minus_one parts
    then validate_split_write occurrence persist none (some parts_bytes)
    else validate_split_write occurrence persist (some parts) none

pub add_torn_seq-IsAdded :
    (path op : String) (occurrence : ℤ) (persist : List ℤ) (faults : Registry)
    → IsAdded
        (validate_reorder (given_seq op occurrence persist))
        is_reorder
        path
        (reorder (given_seq op occurrence persist))
        faults
        (add_torn_seq path op persist occurrence faults)
unfolding add_torn_seq new_reorder
add_torn_seq-IsAdded path op occurrence persist faults =
    checked-IsAdded (validate_reorder (given_seq op occurrence persist)) is_reorder
      only_one_torn_seq path (reorder (given_seq op occurrence persist)) faults

-- Both constructors make this fault.
made :
    (occurrence parts : ℤ) (persist parts_bytes : List ℤ)
    → (if is_minus_one parts
        then new_split_write_bytes occurrence persist parts_bytes
        else new_split_write occurrence persist parts)
      ≡ given_split occurrence parts persist parts_bytes
unfolding new_split_write new_split_write_bytes
made occurrence (pos n) persist parts_bytes = refl
made occurrence (negsuc zero) persist parts_bytes = refl
made occurrence (negsuc (suc n)) persist parts_bytes = ground arith

-- If each path has at most one torn-op fault, one clear-cache fault and one torn-seq fault for
-- each operation, then this stays so when a command adds a torn-op or a torn-seq fault. Where the
-- check of the fault finds no error and the path has no fault of the kind, the command reports
-- nothing and adds the fault with its parameters behind the faults of the path; otherwise it
-- reports an error and leaves all faults as they are.
pub add_torn-IsSingle :
    (path op : String) (occurrence parts : ℤ) (persist parts_bytes : List ℤ) (faults : Registry)
    → Every IsSingle faults
    → let torn_op = add_torn_op path occurrence persist parts parts_bytes faults in
      let torn_seq = add_torn_seq path op persist occurrence faults in
      IsAdded
        (check_split occurrence parts persist parts_bytes)
        is_split_write
        path
        (split_write (given_split occurrence parts persist parts_bytes))
        faults
        torn_op
      × Every IsSingle torn_op.1
      × IsAdded
          (validate_reorder (given_seq op occurrence persist))
          is_reorder
          path
          (reorder (given_seq op occurrence persist))
          faults
          torn_seq
      × Every IsSingle torn_seq.1
unfolding add_torn_op add_torn_seq new_reorder
add_torn-IsSingle path op occurrence parts persist parts_bytes faults h =
    let given = given_split occurrence parts persist parts_bytes in
    let fault = given_seq op occurrence persist in
    let a =
      checked-IsSingle (check_split occurrence parts persist parts_bytes) is_split_write
        only_one_torn_op path (split_write given) faults (split_write-Keeps given) h in
    let b =
      checked-IsSingle (validate_reorder fault) is_reorder only_one_torn_seq path (reorder fault)
        faults (any_reorder-Keeps fault) h in
    (
      rw (add_torn_op, made occurrence parts persist parts_bytes) a.0,
      rw (add_torn_op, made occurrence parts persist parts_bytes) a.1,
      b.0,
      b.1,
    )

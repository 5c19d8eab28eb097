-- ===== src/Faults/Load.antt =====
-- libs/libpcache/src/config/config.cpp, the injections of `load_config`. A parsed TOML table is
-- the record of the values that it has, each of the type that is asked for.
pub mod Sorted
pub mod Kept
pub mod Checked
use lazyfs.Base.{
  String, Bool, true, false, Option, none, some, List, [], ◌∷◌, if◌then◌else◌, ◌==◌, nat_eq,
  string_eq,
}
use lazyfs.Base.Run.{Run, ok, fault, runtime_error, ◌>>=◌}
use lazyfs.Faults.{
  ℤ, Error, Fault, reorder, split_write, clear, exceeds, new_reorder, new_split_write,
  new_split_write_bytes, new_clear, validate_split_write, validate_clear,
}
use lazyfs.Faults.Registry.{Registry, register, is_reorder_of, is_split_write, is_clear}

pub record Injection : Type 0 where
  pub type : Option String
  pub file : Option String
  pub op : Option String
  pub occurrence : Option ℤ
  pub persist : Option (List ℤ)
  pub parts : Option ℤ
  pub parts_bytes : Option (List ℤ)
  pub timing : Option String
  pub from : Option String
  pub to : Option String
  pub crash : Option Bool

-- `sort (persist.begin (), persist.end ())`
unfoldable pub insert_in_order : ℤ → List ℤ → List ℤ
insert_in_order x [] = x ∷ []
insert_in_order x (y ∷ ys) = if exceeds x y then y ∷ insert_in_order x ys else x ∷ y ∷ ys

unfoldable pub sort : List ℤ → List ℤ
unfolding insert_in_order
sort [] = []
sort (x ∷ xs) = insert_in_order x (sort xs)

abbrev pub is_empty : List Error → Bool
is_empty [] = true
is_empty (e ∷ es) = false

-- The errors of the check are bound to a variable of the inner block, so that the test behind the
-- block finds none.
unfoldable pub load_torn_seq : Injection → Registry → Registry
unfolding register sort new_reorder is_reorder_of
load_torn_seq i faults = elim i.file [
  | none ↦ faults
  | some file ↦ elim i.op [
    | none ↦ faults
    | some op ↦ elim i.occurrence [
      | none ↦ faults
      | some occurrence ↦ elim i.persist [
        | none ↦ faults
        | some persist ↦
            register (is_reorder_of op) file (reorder (new_reorder op (sort persist) occurrence))
              faults
      ]
    ]
  ]
]

-- The fault of an injection with a number of parts or with their sizes, if it passes the check.
unfoldable pub torn_op_fault : ℤ → List ℤ → Option ℤ → Option (List ℤ) → Option Fault
unfolding validate_split_write new_split_write new_split_write_bytes
torn_op_fault occurrence persist none none = none
torn_op_fault occurrence persist (some parts) (some parts_bytes) = none
torn_op_fault occurrence persist (some parts) none =
    if is_empty (validate_split_write occurrence persist (some parts) none)
    then some (split_write (new_split_write occurrence persist parts))
    else none
torn_op_fault occurrence persist none (some parts_bytes) =
    if is_empty (validate_split_write occurrence persist none (some parts_bytes))
    then some (split_write (new_split_write_bytes occurrence persist parts_bytes))
    else none

unfoldable pub load_torn_op : Injection → Registry → Registry
unfolding register torn_op_fault is_split_write
load_torn_op i faults = elim i.file [
  | none ↦ faults
  | some file ↦ elim i.occurrence [
    | none ↦ faults
    | some occurrence ↦ elim i.persist [
      | none ↦ faults
      | some persist ↦ elim (torn_op_fault occurrence persist i.parts i.parts_bytes) [
        | none ↦ faults
        | some f ↦ register is_split_write file f faults
      ]
    ]
  ]
]

abbrev pub or_none : Option String → String
or_none none = "none"
or_none (some s) = s

unfoldable pub load_clear : Injection → Registry → Registry
unfolding register validate_clear new_clear is_clear
load_clear i faults = elim i.occurrence [
  | none ↦ faults
  | some occurrence ↦ elim i.timing [
    | none ↦ faults
    | some timing ↦ elim i.op [
      | none ↦ faults
      | some op ↦ elim i.crash [
        | none ↦ faults
        | some crash ↦
            let f = new_clear timing op (or_none i.from) (or_none i.to) occurrence crash in
            if is_empty (validate_clear f)
            then register is_clear (or_none i.from) (clear f) faults
            else faults
      ]
    ]
  ]
]

unfoldable pub load_injection : Injection → Registry → Run Registry
unfolding load_torn_seq load_torn_op load_clear
load_injection i faults = elim i.type [
  | none ↦ fault runtime_error
  | some type ↦
      if type == "torn-seq"
      then ok (load_torn_seq i faults)
      else if type == "torn-op"
      then ok (load_torn_op i faults)
      else if type == "clear-cache"
      then ok (load_clear i faults)
      else ok faults
]

unfoldable pub load_injections : List Injection → Registry → Run Registry
unfolding load_injection
load_injections [] faults = ok faults
load_injections (i ∷ injections) faults =
    load_injection i faults >>= λ faults'. load_injections injections faults'

-- ===== src/Fs/Commands.antt =====
-- lazyfs.cpp: the commands that add torn faults while the file system runs. Their parameters are
-- texts, and "none" stands for one that is not given.
pub mod Single
use lazyfs.Base.{
  String, Bool, Option, none, some, List, [], ◌∷◌, if◌then◌else◌, ◌==◌, nat_eq, string_eq,
}
use lazyfs.Base.Assoc.{find}
use lazyfs.Base.Run.{runtime_error}
use lazyfs.Os.{Os}
use lazyfs.Faults.{
  ℤ, pos, negsuc, Fault, Error, SplitWriteF, reorder, split_write, new_split_write,
  new_split_write_bytes, new_reorder, validate_split_write, validate_reorder, only_one_torn_op,
  only_one_torn_seq,
}
use lazyfs.Faults.Registry.{Registry, register, is_split_write, is_reorder}
use lazyfs.Faults.Load.{is_empty}
use lazyfs.Fs.{Op, done, failed}
use lazyfs.Fs.SplitWrite.{is_minus_one}

-- One error for each fault that excludes a new one.
unfoldable pub duplicates : (Fault → Bool) → Error → List Fault → List Error
duplicates excludes e [] = []
duplicates excludes e (f ∷ v) =
    let rest = duplicates excludes e v in if excludes f then e ∷ rest else rest

-- The fault is added, unless there is one that excludes it.
unfoldable pub add_fault :
    (Fault → Bool) → Error → String → Fault → Registry → List Error × Registry
unfolding duplicates register
add_fault excludes e path f faults = (
  elim (find path faults) [ none ↦ [] | some v ↦ duplicates excludes e v ],
  register excludes path f faults,
)

-- The end of `add_torn_op_fault`, where the parameters are numbers.
unfoldable pub add_torn_op : String → ℤ → List ℤ → ℤ → List ℤ → Registry → List Error × Registry
unfolding new_split_write new_split_write_bytes validate_split_write add_fault is_split_write
add_torn_op path occurrence persist parts parts_bytes faults =
    let given : SplitWriteF =
      if is_minus_one parts
      then new_split_write_bytes occurrence persist parts_bytes
      else new_split_write occurrence persist parts in
    let errors : List Error =
      if is_minus_one parts
      then validate_split_write occurrence persist none (some parts_bytes)
      else validate_split_write occurrence persist (some parts) none in
    if is_empty errors
    then add_fault is_split_write only_one_torn_op path (split_write given) faults
    else (errors, faults)

-- The end of `add_torn_seq_fault`.
unfoldable pub add_torn_seq : String → String → List ℤ → ℤ → Registry → List Error × Registry
unfolding new_reorder validate_reorder add_fault is_reorder
add_torn_seq path op persist occurrence faults =
    let fault = new_reorder op persist occurrence in
    let errors = validate_reorder fault in
    if is_empty errors
    then add_fault is_reorder only_one_torn_seq path (reorder fault) faults
    else (errors, faults)

module _ (os : Os) where
  -- A number, or what stands for "none".
  abbrev pub number_or : ℤ → String → Option ℤ
  number_or z text = if text == "none" then some z else os.stoi text

  abbrev pub numbers_or : List ℤ → String → Option (List ℤ)
  numbers_or zs text = if text == "none" then some zs else os.numbers text

  unfoldable pub add_torn_op_fault : String → String → String → String → String → Op os (List Error)
  unfolding add_torn_op
  add_torn_op_fault path parts parts_bytes persist occurrence s = elim (os.numbers persist) [
    | none ↦ failed runtime_error
    | some persistv ↦ elim (numbers_or [] parts_bytes) [
      | none ↦ failed runtime_error
      | some parts_bytes_v ↦ elim (number_or (negsuc 0) parts) [
        | none ↦ failed runtime_error
        | some partsi ↦ elim (number_or (pos 1) occurrence) [
          | none ↦ failed runtime_error
          | some occurrencei ↦
              let (errors, faults) =
                add_torn_op path occurrencei persistv partsi parts_bytes_v s.faults in
              done errors (record s { faults = faults })
        ]
      ]
    ]
  ]

  unfoldable pub add_torn_seq_fault : String → String → String → String → Op os (List Error)
  unfolding add_torn_seq
  add_torn_seq_fault path op persist occurrence s = elim (os.numbers persist) [
    | none ↦ failed runtime_error
    | some persistv ↦ elim (number_or (pos 1) occurrence) [
      | none ↦ failed runtime_error
      | some occurrencei ↦
          let (errors, faults) = add_torn_seq path op persistv occurrencei s.faults in
          done errors (record s { faults = faults })
    ]
  ]

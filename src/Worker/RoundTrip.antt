-- ===== src/Worker/RoundTrip.antt =====
-- lazyfs/src/main.cpp, `fht_worker`: commands that are put together from their attributes reach the
-- functions of the file system with these.
use lazyfs.Base.{
  ℕ, ◌≡◌, refl, inl, inr, sym, ◌∙◌, ap₂, ◌++◌, some, All, String, true, false, Option, List, [],
  ◌∷◌, ◌==◌, nat_eq, string_eq,
}
use lazyfs.Os.{Os}
use lazyfs.Fs.{Fs, done, and_then_assoc, ◌>>=◌, give}
use lazyfs.Fs.Commands.{number_or, add_torn_seq, add_torn_seq_fault}
use lazyfs.Base.Assoc.{put}
use lazyfs.Faults.{ℤ, pos, reorder, validate_reorder}
use lazyfs.Faults.Checks.{IsPos, validate_reorder-eq-nil}
use lazyfs.Faults.Registry.{Registry, any_fault, is_reorder}
use lazyfs.Fs.Commands.Single.{given_seq, faults_of, add_torn_seq-IsAdded}
use lazyfs.Worker.{handle_command}
use lazyfs.Worker.Text.{has_prefix, after_equals, behind_equals, tokens, is_number, is_numbers}
use lazyfs.Worker.Text.Printed.{
  cat, no_colon, joined, AreTokens, tokens-joined, is_numbers-no_colon, is_number-no_colon,
  has_prefix-ne, cons-ne-nil,
}
use lazyfs.Worker.TornCommands.{
  TornAttributes, no_torn_attributes, torn_seq_command, torn_seq_attributes, torn_seq_attribute,
}

module _ (os : Os) (fd : Option (Option ℕ)) (command : String) (s : Fs os) where
  -- Which function a command reaches.
  torn_seq_dispatch :
      has_prefix "lazyfs::crash" command ≡ false
      → has_prefix "lazyfs::torn-op" command ≡ false
      → has_prefix "lazyfs::torn-seq" command ≡ true
      → handle_command os fd command s
        ≡ (torn_seq_command os command >>= λ (complaints, errors).
              give (record { complaints = complaints; errors = errors }))
            s
  unfolding handle_command
  torn_seq_dispatch crash torn_op torn_seq =
      let apart : command == "lazyfs::clear-cache" ≡ false =
        has_prefix-ne "lazyfs::torn-seq" command "lazyfs::clear-cache" torn_seq refl in
      rw (handle_command, crash, torn_op, torn_seq, apart) refl

  torn_seq_reaches :
      (a : TornAttributes) (parts : List String)
      → tokens command ≡ parts
      → torn_seq_attributes no_torn_attributes parts ≡ a
      → a.valid_fault ≡ true
      → torn_seq_command os command s
        ≡ (add_torn_seq_fault os a.file a.op a.persist a.occurrence >>= λ errors.
              give (a.errors, errors))
            s
  unfolding torn_seq_command
  torn_seq_reaches a parts e f h = rw (torn_seq_command, e, f, h) refl

-- The command that sets a torn-seq fault.
abbrev pub torn_seq_parts : String → String → String → String → List String
torn_seq_parts file op persist occurrence =
    "torn-seq"
    ∷ cat "file=" file
    ∷ cat "op=" op
    ∷ cat "persist=" persist
    ∷ cat "occurrence=" occurrence
    ∷ []

abbrev pub torn_seq_text : String → String → String → String → String
torn_seq_text file op persist occurrence =
    joined ("lazyfs" ∷ torn_seq_parts file op persist occurrence)

module _ (file op persist occurrence : String) (file_free : no_colon file ≡ true)
    (file_given : file == "" ≡ false) (op_free : no_colon op ≡ true) (op_given : op == "" ≡ false)
    (numbers : is_numbers persist ≡ true) (number : is_number occurrence ≡ true) where
  torn_seq_parts-AreTokens : AreTokens ("lazyfs" ∷ torn_seq_parts file op persist occurrence)
  torn_seq_parts-AreTokens = (
    refl,
    refl,
    (
      refl,
      refl,
      (
        file_free,
        cons-ne-nil _ _,
        (
          op_free,
          cons-ne-nil _ _,
          (
            is_numbers-no_colon persist numbers,
            cons-ne-nil _ _,
            (is_number-no_colon occurrence number, cons-ne-nil _ _, tt),
          ),
        ),
      ),
    ),
  )

  torn_seq_attributes_lem :
      torn_seq_attributes no_torn_attributes ("lazyfs" ∷ torn_seq_parts file op persist occurrence)
      ≡ record no_torn_attributes {
        file = file;
        op = op;
        persist = persist;
        occurrence = occurrence;
      }
  unfolding torn_seq_attributes torn_seq_attribute has_prefix after_equals behind_equals
  torn_seq_attributes_lem = simp (file_given, op_given, numbers, number)

  -- The command calls the function with its attributes.
  torn_seq_called :
      (os : Os) (fd : Option (Option ℕ)) (s : Fs os)
      → handle_command os fd (torn_seq_text file op persist occurrence) s
        ≡ (add_torn_seq_fault os file op persist occurrence >>= λ errors.
              give (record { complaints = []; errors = errors }))
            s
  unfolding joined has_prefix
  torn_seq_called os fd s =
      let e = tokens-joined "lazyfs" _ torn_seq_parts-AreTokens in
      let f = torn_seq_attributes_lem in
      let text : String = torn_seq_text file op persist occurrence in
      rw (torn_seq_dispatch os fd text s refl refl refl, torn_seq_reaches os fd text s _ _ e f refl)
        (and_then_assoc (add_torn_seq_fault os file op persist occurrence s) _ _)

-- Where the check finds no error and no fault of the path is a torn-seq fault, the fault is added.
added_seq :
    (path op : String) (occurrence : ℤ) (persist : List ℤ) (faults : Registry)
    → validate_reorder (given_seq op occurrence persist) ≡ []
    → any_fault is_reorder (faults_of path faults) ≡ false
    → add_torn_seq path op persist occurrence faults ≡ (
      [],
      put path (faults_of path faults ++ reorder (given_seq op occurrence persist) ∷ []) faults,
    )
added_seq path op occurrence persist faults check alone =
    elim (add_torn_seq-IsAdded path op occurrence persist faults) [
      | inl (_, _, none_reported, added) ↦ ap₂ (λ e f. (e, f)) none_reported added
      | inr (inl bad, _, _) ↦ absurd (bad check)
      | inr (inr other, _, _) ↦ let bad : true ≡ false = sym other ∙ alone in cc
    ]

-- The command that gives a file, the operation "write", a list of writes and an occurrence adds the
-- torn-seq fault with exactly these parameters behind the faults of the file, and there are
-- neither complaints nor errors. The file is not empty and has no colon, the numbers can be
-- read and are positive, and the file has no torn-seq fault yet.
pub handle_command-torn_seq :
    (os : Os) (fd : Option (Option ℕ)) (file persist occurrence : String) (count : ℤ)
    (writes : List ℤ) (s : Fs os)
    → no_colon file ≡ true
    → file == "" ≡ false
    → is_numbers persist ≡ true
    → is_number occurrence ≡ true
    → os.numbers persist ≡ some writes
    → number_or os (pos 1) occurrence ≡ some count
    → IsPos count
    → All IsPos writes
    → any_fault is_reorder (faults_of file s.faults) ≡ false
    → handle_command os fd (torn_seq_text file "write" persist occurrence) s
      ≡ done
          (record { complaints = []; errors = [] })
          (record s {
            faults =
                put file
                  (faults_of file s.faults ++ reorder (given_seq "write" count writes) ∷ [])
                  s.faults;
          })
unfolding add_torn_seq_fault
handle_command-torn_seq os fd file persist occurrence count writes s free given ns n read number
      positive all_positive alone =
    let called =
      torn_seq_called file "write" persist occurrence free given refl refl ns n os fd s in
    let check : validate_reorder (given_seq "write" count writes) ≡ [] =
      (validate_reorder-eq-nil (given_seq "write" count writes)).1 (refl, positive, all_positive) in
    rw
      (
        called,
        add_torn_seq_fault,
        read,
        number,
        added_seq file "write" count writes s.faults check alone,
      )
      refl

-- ===== src/Faults/Load/Kept.antt =====
-- config.cpp, `load_config`: what holds of the faults that are loaded.
use lazyfs.Base.{
  String, ◌≡◌, refl, ◌≢◌, inl, inr, Bool, true, Option, none, some, List, [], ◌∷◌, ◌==◌, nat_eq,
  string_eq, Bool-cases, All,
}
use lazyfs.Base.Run.{ok}
use lazyfs.Faults.{ℤ, Error, Fault, ClearF, reorder, clear, new_reorder, new_clear, validate_clear}
use lazyfs.Faults.Registry.{Registry, is_reorder_of, is_split_write, is_clear}
use lazyfs.Faults.Registry.Every.{Every, Keeps, register-Every}
use lazyfs.Faults.Load.{
  Injection, sort, is_empty, or_none, torn_op_fault, load_torn_seq, load_torn_op, load_clear,
  load_injection, load_injections,
}

pub is_empty-nil : (es : List Error) → is_empty es ≡ true → es ≡ []
is_empty-nil [] h = refl
is_empty-nil (e ∷ es) h = cc

module _ (Q : List Fault → Type 0)
    (seq : (op : String) (persist : List ℤ) (occurrence : ℤ)
      → Keeps Q (is_reorder_of op) (reorder (new_reorder op (sort persist) occurrence)))
    (torn : (occurrence : ℤ) (persist : List ℤ) (parts : Option ℤ) (bytes : Option (List ℤ))
        (f : Fault)
      → torn_op_fault occurrence persist parts bytes ≡ some f
      → Keeps Q is_split_write f)
    (clr : (f : ClearF) → validate_clear f ≡ [] → Keeps Q is_clear (clear f)) where
  load_torn_seq-Every :
      (i : Injection) (faults : Registry) → Every Q faults → Every Q (load_torn_seq i faults)
  unfolding load_torn_seq
  load_torn_seq-Every i faults h = go i.file refl i.op refl i.occurrence refl i.persist refl
    where
      go :
          (a : Option String)
          → i.file ≡ a
          → (b : Option String) → i.op ≡ b
          → (c : Option ℤ) → i.occurrence ≡ c
          → (d : Option (List ℤ)) → i.persist ≡ d
          → Every Q (load_torn_seq i faults)
      go none ea b eb c ec d ed = rw (ea, load_torn_seq) h
      go (some a) ea none eb c ec d ed = rw (ea, eb, load_torn_seq) h
      go (some a) ea (some b) eb none ec d ed = rw (ea, eb, ec, load_torn_seq) h
      go (some a) ea (some b) eb (some c) ec none ed = rw (ea, eb, ec, ed, load_torn_seq) h
      go (some a) ea (some b) eb (some c) ec (some d) ed =
          rw (ea, eb, ec, ed, load_torn_seq) (register-Every Q _ a _ faults (seq b d c) h)

  load_torn_op-Every :
      (i : Injection) (faults : Registry) → Every Q faults → Every Q (load_torn_op i faults)
  unfolding load_torn_op
  load_torn_op-Every i faults h = go i.file refl i.occurrence refl i.persist refl
    where
      last :
          (a : String) (c : ℤ) (d : List ℤ) (o : Option Fault)
          → torn_op_fault c d i.parts i.parts_bytes ≡ o
          → i.file ≡ some a
          → i.occurrence ≡ some c
          → i.persist ≡ some d
          → Every Q (load_torn_op i faults)
      last a c d none e ea ec ed = rw (ea, ec, ed, load_torn_op) (rw e h)
      last a c d (some f) e ea ec ed =
          rw (ea, ec, ed, load_torn_op)
            (rw e
              (register-Every Q is_split_write a f faults (torn c d i.parts i.parts_bytes f e) h))

      go :
          (a : Option String)
          → i.file ≡ a
          → (c : Option ℤ) → i.occurrence ≡ c
          → (d : Option (List ℤ)) → i.persist ≡ d
          → Every Q (load_torn_op i faults)
      go none ea c ec d ed = rw (ea, load_torn_op) h
      go (some a) ea none ec d ed = rw (ea, ec, load_torn_op) h
      go (some a) ea (some c) ec none ed = rw (ea, ec, ed, load_torn_op) h
      go (some a) ea (some c) ec (some d) ed =
          last a c d (torn_op_fault c d i.parts i.parts_bytes) refl ea ec ed

  load_clear-Every :
      (i : Injection) (faults : Registry) → Every Q faults → Every Q (load_clear i faults)
  unfolding load_clear
  load_clear-Every i faults h = go i.occurrence refl i.timing refl i.op refl i.crash refl
    where
      go :
          (a : Option ℤ)
          → i.occurrence ≡ a
          → (b : Option String) → i.timing ≡ b
          → (c : Option String) → i.op ≡ c
          → (d : Option Bool) → i.crash ≡ d
          → Every Q (load_clear i faults)
      go none ea b eb c ec d ed = rw (ea, load_clear) h
      go (some a) ea none eb c ec d ed = rw (ea, eb, load_clear) h
      go (some a) ea (some b) eb none ec d ed = rw (ea, eb, ec, load_clear) h
      go (some a) ea (some b) eb (some c) ec none ed = rw (ea, eb, ec, ed, load_clear) h
      go (some a) ea (some b) eb (some c) ec (some d) ed =
          let f = new_clear b c (or_none i.from) (or_none i.to) a d in
          elim (Bool-cases (is_empty (validate_clear f))) [
            | inl e ↦
                rw (ea, eb, ec, ed, load_clear)
                  (rw e (
                    register-Every Q is_clear (or_none i.from) (clear f) faults
                      (clr f (is_empty-nil (validate_clear f) e)) h))
            | inr e ↦ rw (ea, eb, ec, ed, load_clear) (rw e h)
          ]

  load_injection-Every :
      (i : Injection) (faults : Registry)
      → i.type ≢ none
      → Every Q faults
      → (faults' : Registry) × (load_injection i faults ≡ ok faults') × Every Q faults'
  unfolding load_injection
  load_injection-Every i faults t h = go i.type refl
    where
      go :
          (o : Option String)
          → i.type ≡ o
          → (faults' : Registry) × (load_injection i faults ≡ ok faults') × Every Q faults'
      go none e = absurd (t e)
      go (some s) e = elim (Bool-cases (s == "torn-seq")) [
        | inl a ↦ (
          load_torn_seq i faults,
          rw (e, load_injection) (rw a refl),
          load_torn_seq-Every i faults h,
        )
        | inr a ↦ elim (Bool-cases (s == "torn-op")) [
          | inl b ↦ (
            load_torn_op i faults,
            rw (e, load_injection) (rw (a, b) refl),
            load_torn_op-Every i faults h,
          )
          | inr b ↦ elim (Bool-cases (s == "clear-cache")) [
            | inl c ↦ (
              load_clear i faults,
              rw (e, load_injection) (rw (a, b, c) refl),
              load_clear-Every i faults h,
            )
            | inr c ↦ (faults, rw (e, load_injection) (rw (a, b, c) refl), h)
          ]
        ]
      ]

  pub load_injections-Every :
      (injections : List Injection) (faults : Registry)
      → All (λ i. i.type ≢ none) injections
      → Every Q faults
      → (faults' : Registry) × (load_injections injections faults ≡ ok faults') × Every Q faults'
  unfolding load_injections
  load_injections-Every [] faults t h = (faults, refl, h)
  load_injections-Every (i ∷ injections) faults t h =
      let (f1, eq, h1) = load_injection-Every i faults t.0 h in
      let (f2, eq', h2) = load_injections-Every injections f1 t.1 h1 in (f2, rw eq eq', h2)

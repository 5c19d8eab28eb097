-- ===== src/Fs/Frame.antt =====
-- lazyfs.cpp: what the operations leave alone. The file has the rules for sequences of steps; the
-- triggers, the faults and the operations are in its children.
pub mod Triggers
pub mod Calls
pub mod Writes
pub mod Operation
pub mod Sizes
pub mod Directories
pub mod Reads
pub mod Commands
use lazyfs.Base.{
  String, ◌≡◌, ◌∙◌, refl, ap, Bool, true, false, Option, none, some, if◌then◌else◌, nat_eq,
  string_eq,
}
use lazyfs.Base.Assoc.{contains}
use lazyfs.Base.Run.{Run, ok, fault, Fault}
use lazyfs.Os.{Os}
use lazyfs.Config.{Config}
use lazyfs.Cache.{Cache}
use lazyfs.Fs.{
  Fs, Outcome, done, killed, failed, Op, and_then, ◌>>=◌, from_run, with_cache, call, give, get,
  fail,
}

-- The settings are the same, and the same operations have an entry for crash faults.
pub record Same {os : Os} (s s' : Fs os) : Type 0 where
  pub config : s'.config ≡ s.config
  pub before :
      (op : String) → contains op s'.crash_faults_before_map ≡ contains op s.crash_faults_before_map
  pub after :
      (op : String) → contains op s'.crash_faults_after_map ≡ contains op s.crash_faults_after_map

-- The state that an operation ends in, if it does, is the same in this sense.
pub data Ends {os : Os} {A : Type 0} (s : Fs os) : Outcome os A → Type 0 where
  ends : (a : A) (s' : Fs os) → Same s s' → Ends s (done a s')
  dies : (w : os.State) → Ends s (killed w)
  fails : (e : Fault) → Ends s (failed e)

abbrev pub Keeps : {os : Os} {A : Type 0} → Op os A → Type 0
Keeps {os} m = (s : Fs os) → Ends s (m s)

module _ {os : Os} where
  pub same : (s : Fs os) → Same s s
  same s = record { config = refl; before = λ op. refl; after = λ op. refl }

  -- A state in which only other parts are changed.
  pub like :
      {s s' : Fs os}
      → s'.config ≡ s.config
      → s'.crash_faults_before_map ≡ s.crash_faults_before_map
      → s'.crash_faults_after_map ≡ s.crash_faults_after_map
      → Same s s'
  like c b a = record {
    config = c;
    before = λ op. ap (contains op) b;
    after = λ op. ap (contains op) a;
  }

  pub Same-trans : {s t u : Fs os} → Same s t → Same t u → Same s u
  Same-trans h k = record {
    config = k.config ∙ h.config;
    before = λ op. k.before op ∙ h.before op;
    after = λ op. k.after op ∙ h.after op;
  }

  pub Ends-trans : {A : Type 0} {s t : Fs os} {o : Outcome os A} → Same s t → Ends t o → Ends s o
  Ends-trans h (ends a u k) = ends a u (Same-trans h k)
  Ends-trans h (dies w) = dies w
  Ends-trans h (fails e) = fails e

  pub and_then-Ends :
      {A B : Type 0} {s : Fs os} {o : Outcome os A} {f : A → Op os B}
      → Ends s o
      → ((a : A) → Keeps (f a))
      → Ends s (and_then o f)
  and_then-Ends (ends a s' h) k = Ends-trans h (k a s')
  and_then-Ends (dies w) k = dies w
  and_then-Ends (fails e) k = fails e

  pub >>=-Keeps :
      {A B : Type 0} {m : Op os A} {f : A → Op os B}
      → Keeps m
      → ((a : A) → Keeps (f a))
      → Keeps (m >>= f)
  >>=-Keeps h k s = and_then-Ends (h s) k

  pub from_run-Ends :
      {A : Type 0} (s : Fs os) (r : Run (A × Cache × os.State)) → Ends s (from_run s r)
  from_run-Ends s (ok (a, c, w)) = ends a _ (like refl refl refl)
  from_run-Ends s (fault e) = fails e

  pub with_cache-Keeps :
      {A : Type 0} (f : Config → Cache → os.State → Run (A × Cache × os.State))
      → Keeps (with_cache {os = os} f)
  with_cache-Keeps f s = from_run-Ends s (f s.config s.cache s.world)

  pub call-Keeps : {A : Type 0} (f : os.State → A × os.State) → Keeps (call {os = os} f)
  call-Keeps f s = ends _ _ (like refl refl refl)

  pub give-Keeps : {A : Type 0} (a : A) → Keeps (give {os = os} a)
  give-Keeps a s = ends a s (same s)

  pub get-Keeps : Keeps (get {os = os})
  get-Keeps s = ends s s (same s)

  pub fail-Keeps : {A : Type 0} (e : Fault) → Keeps (fail {os = os} {A = A} e)
  fail-Keeps e s = fails e

  pub if-Keeps :
      {A : Type 0} (b : Bool) {m n : Op os A} → Keeps m → Keeps n → Keeps (if b then m else n)
  if-Keeps true h k = h
  if-Keeps false h k = k

  pub if-Ends :
      {A : Type 0} {s : Fs os} (b : Bool) {m n : Outcome os A}
      → Ends s m
      → Ends s n
      → Ends s (if b then m else n)
  if-Ends true h k = h
  if-Ends false h k = k

  pub if_at-Ends :
      {A : Type 0} (b : Bool) (m n : Op os A) (s : Fs os)
      → Ends s (m s)
      → Ends s (n s)
      → Ends s ((if b then m else n) s)
  if_at-Ends true m n s h k = h
  if_at-Ends false m n s h k = k

  pub Option-Ends :
      {A B : Type 0} {s : Fs os} (o : Option B) {m : Outcome os A} {f : B → Outcome os A}
      → Ends s m
      → ((b : B) → o ≡ some b → Ends s (f b))
      → Ends s (elim o [ none ↦ m | some b ↦ f b ])
  Option-Ends none h k = h
  Option-Ends (some b) h k = k b refl

  pub Option-Keeps :
      {A B : Type 0} (o : Option B) {m : Op os A} {f : B → Op os A}
      → Keeps m
      → ((b : B) → Keeps (f b))
      → Keeps (elim o [ none ↦ m | some b ↦ f b ])
  Option-Keeps none h k = h
  Option-Keeps (some b) h k = k b

  pub Run-Ends :
      {A B : Type 0} {s : Fs os} (r : Run B) {m : B → Outcome os A}
      → ((b : B) → Ends s (m b))
      → Ends s (elim r [ fault e ↦ failed e | ok b ↦ m b ])
  Run-Ends (fault e) h = fails e
  Run-Ends (ok b) h = h b

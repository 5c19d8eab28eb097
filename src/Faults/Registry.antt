-- ===== src/Faults/Registry.antt =====
-- The faults of each path, `unordered_map<string, vector<Fault *>>`, as libs/libpcache/src/config/
-- config.cpp and lazyfs/src/lazyfs.cpp fill it. `dynamic_cast` is a match on the class.
pub mod Every
use lazyfs.Base.{
  String, Bool, true, false, ◌||◌, none, some, List, [], ◌∷◌, ◌++◌, if◌then◌else◌, ◌==◌, nat_eq,
  string_eq,
}
use lazyfs.Base.Assoc.{find, put}
use lazyfs.Faults.{Fault, reorder, split_write, clear}

abbrev pub Registry : Type 0
Registry = List (String × List Fault)

unfoldable pub is_reorder_of : String → Fault → Bool
is_reorder_of op (reorder f) = f.op == op
is_reorder_of op (split_write f) = false
is_reorder_of op (clear f) = false

unfoldable pub is_reorder : Fault → Bool
is_reorder (reorder f) = true
is_reorder (split_write f) = false
is_reorder (clear f) = false

unfoldable pub is_split_write : Fault → Bool
is_split_write (reorder f) = false
is_split_write (split_write f) = true
is_split_write (clear f) = false

unfoldable pub is_clear : Fault → Bool
is_clear (reorder f) = false
is_clear (split_write f) = false
is_clear (clear f) = true

abbrev pub any_fault : (Fault → Bool) → List Fault → Bool
any_fault p [] = false
any_fault p (f ∷ fs) = p f || any_fault p fs

-- A fault joins those of its path, unless one there excludes it.
unfoldable pub register : (Fault → Bool) → String → Fault → Registry → Registry
register excludes file fault faults = elim (find file faults) [
  | none ↦ put file (fault ∷ []) faults
  | some v_faults ↦
      if any_fault excludes v_faults then faults else put file (v_faults ++ fault ∷ []) faults
]

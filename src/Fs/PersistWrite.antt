-- ===== src/Fs/PersistWrite.antt =====
-- lazyfs.cpp, `persist_write`: a torn-seq fault persists some writes of a group, which are the writes
-- of a file between two calls of fsync. A buffer and its size are a list. The mutexes are left
-- out.
pub mod Reorders
pub mod Steps
pub mod Stores
pub mod Groups
pub mod Restart
use lazyfs.Base.{
  ℕ, ◌+◌, String, Bool, true, false, not, ◌&&◌, ◌||◌, Option, none, some, List, [], ◌∷◌, ◌++◌,
  if◌then◌else◌, ◌==◌, nat_eq, string_eq, length, remove,
}
use lazyfs.Base.Assoc.{find, put}
use lazyfs.Os.{Os}
use lazyfs.Faults.{ℤ, Fault, ReorderF, reorder, split_write, clear}
use lazyfs.Faults.Registry.{Registry, any_fault, is_reorder_of}
use lazyfs.Inject.ClearCache.{equals}
use lazyfs.Fs.{Op, done, ◌>>=◌, give, modify}
use lazyfs.Fs.Crash.{add_crash_fault}

-- The torn-seq faults of an operation, and what a loop over the faults does to them.
unfoldable pub update_reorders : (ReorderF → ReorderF) → String → List Fault → List Fault
update_reorders g op [] = []
update_reorders g op (reorder f ∷ rest) =
    reorder (if f.op == op then g f else f) ∷ update_reorders g op rest
update_reorders g op (split_write f ∷ rest) = split_write f ∷ update_reorders g op rest
update_reorders g op (clear f ∷ rest) = clear f ∷ update_reorders g op rest

abbrev pub increase_counter : ReorderF → ReorderF
increase_counter f = record f { counter = f.counter + 1 }

abbrev pub reset_counter : ReorderF → ReorderF
reset_counter f = record f { counter = 0 }

abbrev pub increase_group_counter : ReorderF → ReorderF
increase_group_counter f = record f { group_counter = f.group_counter + 1 }

-- The fault that the loop of `get_and_update_reorder_fault` leaves in `fault_r`: the last one.
unfoldable pub last_reorder : String → List Fault → Option ReorderF
last_reorder op [] = none
last_reorder op (reorder f ∷ rest) = elim (last_reorder op rest) [
  | none ↦ if f.op == op then some f else none
  | some g ↦ some g
]
last_reorder op (split_write f ∷ rest) = last_reorder op rest
last_reorder op (clear f ∷ rest) = last_reorder op rest

-- A change of that fault through its pointer.
unfoldable pub update_last_reorder : (ReorderF → ReorderF) → String → List Fault → List Fault
unfolding is_reorder_of
update_last_reorder g op [] = []
update_last_reorder g op (reorder f ∷ rest) =
    let rest' = update_last_reorder g op rest in
    if any_fault (is_reorder_of op) rest
    then reorder f ∷ rest'
    else reorder (if f.op == op then g f else f) ∷ rest
update_last_reorder g op (split_write f ∷ rest) = split_write f ∷ update_last_reorder g op rest
update_last_reorder g op (clear f ∷ rest) = clear f ∷ update_last_reorder g op rest

-- The faults of a path, if it has any, change.
abbrev pub change_faults : (List Fault → List Fault) → String → Registry → Registry
change_faults f path faults = elim (find path faults) [
  | none ↦ faults
  | some v_faults ↦ put path (f v_faults) faults
]

-- `count` is in the vector, and it is the back of the vector.
abbrev pub is_persisted : ℕ → List ℤ → Bool
is_persisted count [] = false
is_persisted count (p ∷ persist) = equals count p || is_persisted count persist

abbrev pub is_back : ℕ → List ℤ → Bool
is_back count [] = false
is_back count (p ∷ []) = equals count p
is_back count (p ∷ q ∷ persist) = is_back count (q ∷ persist)

module _ (os : Os) where
  unfoldable pub restart_counter : String → String → Op os Unit
  unfolding update_reorders
  restart_counter path op =
      modify
        λ s. record s { faults = change_faults (update_reorders reset_counter op) path s.faults }

  -- The result says whether there was a write on hold for the path.
  unfoldable pub check_and_delete_pendingwrite : String → Op os Bool
  check_and_delete_pendingwrite path s =
      let res : Bool = elim s.pending_write [ none ↦ false | some w ↦ w.path == path ] in
      done res (record s {
        pending_write = if res then none else s.pending_write;
        injecting_fault = remove path s.injecting_fault;
      })

  unfoldable pub get_and_update_reorder_fault : String → String → Op os (Option ReorderF)
  unfolding update_reorders last_reorder
  get_and_update_reorder_fault path op s = elim (find path s.faults) [
    | none ↦ done none s
    | some v_faults ↦
        let v_faults' = update_reorders increase_counter op v_faults in
        done (last_reorder op v_faults') (record s { faults = put path v_faults' s.faults })
  ]

  -- `open`, `pwrite` and `close`: whether all bytes were written.
  unfoldable pub store : String → List ℕ → ℕ → Op os Bool
  store path buf offset s =
      let (fd, w1) = os.open_create path s.world in
      let (pw, w2) = os.pwrite fd buf offset w1 in
      done (elim pw [ none ↦ false | some n ↦ n == length buf ])
        (record s { world = os.close fd w2 })

  -- The second write begins a group.
  unfoldable pub begin_group : String → ReorderF → Op os ReorderF
  unfolding update_last_reorder
  begin_group path f s =
      if f.counter == 2
      then done (increase_group_counter f) (record s {
        injecting_fault = s.injecting_fault ++ path ∷ [];
        faults = change_faults (update_last_reorder increase_group_counter "write") path s.faults;
      })
      else done f s

  -- The write on hold is persisted if this is the group, and dropped. The result is true where
  -- `persist_write` returns: the write on hold stays then.
  unfoldable pub release_pending : String → ReorderF → Op os Bool
  unfolding store add_crash_fault
  release_pending path f s = elim s.pending_write [
    | none ↦ done false s
    | some w ↦
        let drop : Op os Bool = λ s'. done false (record s' { pending_write = none }) in
        if equals f.group_counter f.occurrence
        then (store w.path w.buf w.offset >>= λ all.
              if all && length f.persist == 1
              then add_crash_fault os "after" "write" path "none" >>= (λ _. give true)
              else drop)
            s
        else drop s
  ]

  -- The first write is put on hold, and a later one of the group is persisted.
  unfoldable pub persist_current : String → ReorderF → List ℕ → ℕ → Op os Bool
  unfolding store add_crash_fault
  persist_current path f buf offset =
      if not (is_persisted f.counter f.persist)
      then give false
      else if f.counter == 1
      then (λ s. done false (record s {
        pending_write =
            some (record { path = path; buf = buf; size = length buf; offset = offset });
      }))
      else if equals f.group_counter f.occurrence
      then (store path buf offset >>= λ all.
          if all && is_back f.counter f.persist
          then add_crash_fault os "after" "write" path "none" >>= (λ _. give true)
          else give false)
      else give false

  unfoldable pub persist_write : String → List ℕ → ℕ → Op os Bool
  unfolding get_and_update_reorder_fault begin_group release_pending persist_current
  persist_write path buf offset = get_and_update_reorder_fault path "write" >>= λ fault.
      elim fault [
        | none ↦ give false
        | some f0 ↦ begin_group path f0 >>= λ f. release_pending path f >>= λ returns.
            if returns then give false else persist_current path f buf offset
      ]

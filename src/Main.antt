-- ===== src/Main.antt =====
-- lazyfs/src/main.cpp, `main`: the command line and the FIFOs. The logger is left out; the file system is
-- run by FUSE.
pub mod Start
use lazyfs.Base.{
  ℕ, zero, suc, String, Bool, true, false, ◌||◌, Option, none, some, List, [], ◌∷◌, ◌++◌,
  if◌then◌else◌, ◌==◌, nat_eq, string_eq,
}
use lazyfs.Base.Run.{Run, ok, fault, null_pointer, runtime_error, or_fault, ◌>>=◌}
use lazyfs.Os.{Os}
use lazyfs.Config.{Config, default_config}
use lazyfs.Config.Load.{Toml, load_config}
use lazyfs.Engine
use lazyfs.Cache.{Cache}
use lazyfs.Fs.{Fs, new}

-- The variables of the loop over the arguments.
pub record Args : Type 0 where
  pub new_argv : List String
  pub config_path : String
  pub path_specified : Bool

module _ (os : Os) where
  -- `room` arguments can still be passed on. Behind the last argument stands a null pointer.
  unfoldable pub parse_args : ℕ → List String → Args → Run Args
  parse_args zero argv a = ok a
  parse_args (suc room) [] a = ok a
  parse_args (suc room) (arg ∷ []) a =
      if arg == "--config-path"
      then fault null_pointer
      else ok (record a { new_argv = a.new_argv ++ (arg ∷ []) })
  parse_args (suc room) (arg ∷ value ∷ rest) a =
      let again = parse_args (suc room) (value ∷ rest) (record a { path_specified = false }) in
      let taken =
        parse_args (suc room) rest (record a { config_path = value; path_specified = true }) in
      let passed =
        parse_args room (value ∷ rest) (record a { new_argv = a.new_argv ++ (arg ∷ []) }) in
      if arg == "--config-path" then (if os.strcasestr value "-o" then again else taken) else passed

  -- At most ten arguments are passed on.
  unfoldable pub command_line : List String → Run Args
  unfolding parse_args
  command_line argv =
      parse_args 10 argv (record { new_argv = []; config_path = ""; path_specified = false })
      >>= λ a. ok (if a.path_specified then a else record a { config_path = "config/default.toml" })

  -- True if the FIFO is there afterwards. 511 is 0777.
  unfoldable pub create_fifo : String → os.State → Bool × os.State
  create_fifo path w =
      let (created, w') = os.mkfifo path 511 w in (created || os.errno w' == os.eexist, w')

  unfoldable pub create_fifos : Config → os.State → Bool × os.State
  unfolding create_fifo
  create_fifos c w =
      let (there, w1) = create_fifo c.fifo_path w in
      if there
      then (if c.fifo_path_completed == ""
          then (true, w1)
          else create_fifo c.fifo_path_completed w1)
      else (false, w1)

  -- `main` up to the call that runs the file system, with the arguments for that call; `none` where a
  -- FIFO is missing. `parse` is `toml::parse`, without a result where it throws.
  unfoldable pub start :
      (String → String)
      → (ℕ → String → ℕ)
      → (String → Option Toml)
      → List String
      → os.State
      → Run (Option (List String × Fs os))
  unfolding command_line load_config create_fifos Engine.new new
  start lower times parse argv w = do
    a ← command_line argv
    t ← or_fault runtime_error (parse a.config_path)
    (c, faults) ← load_config lower times default_config t
    (let (there, w') = create_fifos c w in
        if there
        then (do
          engine ← Engine.new c
          let cache : Cache = record { engine = engine; contents = []; file_inode_mapping = [] }
          ok (some (a.new_argv, new os c cache faults w')))
        else ok none)

-- ===== src/Main/Start.antt =====
-- lazyfs/src/main.cpp, `main`: the state in which the file system starts.
use lazyfs.Base.{
  elem, map, if◌then◌else◌, ℕ, zero, suc, ◌+◌, ◌≡◌, refl, String, true, Option, none, some, List,
  [], ◌∷◌, arith, length, nat_eq, string_eq,
}
use lazyfs.Base.Assoc.{find, insert}
use lazyfs.Base.Run.{ok}
use lazyfs.Os.{Os}
use lazyfs.Config.{Config, IsSound, default_config}
use lazyfs.Config.Load.{Toml, load_config}
use lazyfs.Config.Load.Sound.{IsUsable, load_config-IsUsable}
use lazyfs.Page.Slots.{new-IsValid}
use lazyfs.Engine
use lazyfs.Engine.{Engine, allocate_pages}
use lazyfs.Engine.Release.Removal.{IsKnown}
use lazyfs.Cache.{Cache}
use lazyfs.Faults.Registry.{Registry}
use lazyfs.Fs.{Fs, CrashFaults}
use lazyfs.Faults.{allow_crash_fs_operations}
use lazyfs.Fs
use lazyfs.Main.{Args, command_line, create_fifos, start}

-- What the loop of the constructor leaves: more free pages, and no owners.
allocate_pages-free :
    (c : Config) (n i : ℕ) (e : Engine)
    → IsSound c
    → (e' : Engine) × (allocate_pages c n i e ≡ ok e')
      × (length e'.free_pages ≡ length e.free_pages + n)
      × (e'.owner_pages_mapping ≡ e.owner_pages_mapping)
unfolding allocate_pages
allocate_pages-free c zero i e s = (e, refl, omega arith, refl)
allocate_pages-free c (suc n) i e s =
    let (p, made, _) = new-IsValid c s in
    let (e', run, free, owners) =
      allocate_pages-free c n (i + 1)
        (record e { search_index = insert i p e.search_index; free_pages = i ∷ e.free_pages }) s in
    (e', rw made run, omega (arith, free), owners)

engine_new :
    (c : Config)
    → IsSound c
    → (e : Engine) × (Engine.new c ≡ ok e) × (length e.free_pages ≡ c.cache_nr_pages) × IsKnown e
unfolding Engine.new
engine_new c s =
    let (e, run, free, owners) = allocate_pages-free c c.cache_nr_pages 0 _ s in
    (e, run, omega (arith, free), λ o pages h. let bad : none ≡ some pages = rw owners at h in cc)

-- The state of a file system that has just started: the settings are usable, all pages are free, no
-- content is cached, and exactly the operations that may crash have an entry for their crash
-- faults, which is empty.
pub record IsReady (os : Os) (s : Fs os) : Type 0 where
  pub usable : IsUsable s.config
  pub free : length s.cache.engine.free_pages ≡ s.config.cache_nr_pages
  pub known : IsKnown s.cache.engine
  pub empty : s.cache.contents ≡ []
  pub entries_before :
      (op : String)
      → find op s.crash_faults_before_map
        ≡ (if elem op allow_crash_fs_operations then some [] else none)
  pub entries_after :
      (op : String)
      → find op s.crash_faults_after_map
        ≡ (if elem op allow_crash_fs_operations then some [] else none)

abbrev pub entries : (os : Os) → List String → CrashFaults os
entries os ops = map (λ op. (op, [])) ops

pub find-entries :
    (os : Os) (op : String) (ops : List String)
    → find op (entries os ops) ≡ (if elem op ops then some [] else none)
find-entries os op [] = refl
find-entries os op (x ∷ ops) = ground (arith, find-entries os op ops)

module _ (os : Os) (lower : String → String) (times : ℕ → String → ℕ)
    (parse : String → Option Toml) where
  -- Where the command line and the configuration file can be read and the FIFOs are there, the start
  -- succeeds, with the arguments that the command line passes on, and with a file system that
  -- is ready.
  pub start-IsReady :
      (argv : List String) (a : Args) (t : Toml) (c : Config) (faults : Registry) (w w' : os.State)
      → command_line os argv ≡ ok a
      → parse a.config_path ≡ some t
      → load_config lower times default_config t ≡ ok (c, faults)
      → create_fifos os c w ≡ (true, w')
      → (s : Fs os) × (start os lower times parse argv w ≡ ok (some (a.new_argv, s))) × IsReady os s
  unfolding start Fs.new
  start-IsReady argv a t c faults w w' args toml loaded fifos =
      let usable = load_config-IsUsable lower times t c faults loaded in
      let (e, made, free, known) = engine_new c usable.sound in
      let cache : Cache = record { engine = e; contents = []; file_inode_mapping = [] } in
      (
        Fs.new os c cache faults w',
        rw (args, toml, loaded, fifos, made) refl,
        record {
          usable = usable;
          free = free;
          known = known;
          empty = refl;
          entries_before = λ op. find-entries os op allow_crash_fs_operations;
          entries_after = λ op. find-entries os op allow_crash_fs_operations;
        },
      )

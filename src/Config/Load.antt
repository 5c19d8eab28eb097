-- ===== src/Config/Load.antt =====
-- libs/libpcache/src/config/config.cpp, `load_config`: the settings. A parsed TOML file is the record of the
-- values that it has, each of the type that is asked for; toml11 throws where one is missing that
-- the code looks for.
pub mod Sound
use Prim.Native.Char.{Char, code}
use Prim.Native.String.{String}
use lazyfs.Base.{
  ℕ, ◌+◌, ◌-◌, ◌%◌, ◌^◌, Bool, ◌&&◌, ◌||◌, Option, none, some, List, [], ltb, leb, if◌then◌else◌,
  ◌==◌, nat_eq, string_eq,
}
use lazyfs.Base.Run.{Run, ok, fault, out_of_range, indeterminate, or_fault, guarded, ◌>>=◌}
use lazyfs.Faults.{ℤ, pos, negsuc}
use lazyfs.Faults.Registry.{Registry}
use lazyfs.Faults.Load.{Injection, load_injections}
use lazyfs.Config.{Config, setup_config_by_size, setup_config_manually, set_eviction_flag}

-- The tables "cache.simple" and "cache.manual", and the file.
pub record Simple : Type 0 where
  pub custom_size : Option String
  pub blocks_per_page : Option ℤ

pub record Manual : Type 0 where
  pub io_block_size : Option ℤ
  pub page_size : Option ℤ
  pub no_pages : Option ℤ

pub record Toml : Type 0 where
  -- whether there are the tables "faults" and "cache"
  pub has_faults : Bool
  pub has_cache : Bool
  pub fifo_path : Option String
  pub fifo_path_completed : Option String
  pub simple : Option Simple
  pub manual : Option Manual
  pub apply_eviction : Option Bool
  pub log_all_operations : Option Bool
  pub logfile : Option String
  pub injection : Option (List Injection)

-- `(size_t) z`, and an `int` that is made of `z`, as a `size_t`.
unfoldable pub to_size : ℤ → ℕ
to_size (pos n) = n % 2 ^ 64
to_size (negsuc n) = 2 ^ 64 - 1 - n % 2 ^ 64

unfoldable pub int_to_size : ℤ → ℕ
unfolding to_size
int_to_size z =
    let low : ℕ = to_size z % 2 ^ 32 in if ltb low (2 ^ 31) then low else low + (2 ^ 64 - 2 ^ 32)

abbrev pub is_digit : Char → Bool
is_digit c = leb b'0' (code c) && leb (code c) b'9'

-- `size_tmp` and `size_type`: the digits and points of the text, and its other characters.
unfoldable pub size_tmp : String → String
size_tmp String.[] = String.[]
size_tmp (String.◌∷◌ c s) =
    let rest = size_tmp s in if is_digit c || code c == b'.' then String.◌∷◌ c rest else rest

unfoldable pub size_type : String → String
size_type String.[] = String.[]
size_type (String.◌∷◌ c s) =
    let rest = size_type s in if is_digit c || code c == b'.' then rest else String.◌∷◌ c rest

-- `size_bytes`, of a unit in lower case; another unit leaves it without a value.
unfoldable pub unit_bytes : String → Option ℕ
unit_bytes unit =
    if unit == "gb" || unit == "g"
    then some 1073741824
    else if unit == "mb" || unit == "m"
    then some 1048576
    else if unit == "kb" || unit == "k"
    then some 1024
    else none

abbrev pub or_default {ℓ} : {A : Type ℓ} → A → Option A → A
or_default a none = a
or_default a (some b) = b

-- A path that is given and not empty.
abbrev pub given_path : String → Option String → String
given_path path none = path
given_path path (some text) = if text == "" then path else text

-- `tolower` of each character, and `size_bytes * atof (text)` as a `size_t`, which go by the C library.
module _ (lower : String → String) (times : ℕ → String → ℕ) where
  unfoldable pub total_size : String → Run ℕ
  unfolding size_tmp size_type unit_bytes
  total_size cache_size_str = elim (unit_bytes (lower (size_type cache_size_str))) [
    | none ↦ fault indeterminate
    | some size_bytes ↦ ok (times size_bytes (size_tmp cache_size_str))
  ]

  unfoldable pub load_simple : Config → Simple → Run Config
  unfolding total_size setup_config_by_size int_to_size
  load_simple c simple = do
    cache_size_str ← or_fault out_of_range simple.custom_size
    total ← total_size cache_size_str
    setup_config_by_size c total (int_to_size (or_default (pos 1) simple.blocks_per_page))

  unfoldable pub load_manual : Config → Manual → Run Config
  unfolding setup_config_manually to_size
  load_manual c manual = do
    block_size ← or_fault out_of_range manual.io_block_size
    page_size ← or_fault out_of_range manual.page_size
    no_pages ← or_fault out_of_range manual.no_pages
    setup_config_manually c (to_size block_size) (to_size page_size) (to_size no_pages)

  unfoldable pub load_cache : Config → Toml → Run Config
  unfolding load_simple load_manual
  load_cache c t = elim t.simple [
    | some simple ↦ load_simple c simple
    | none ↦ elim t.manual [ some manual ↦ load_manual c manual | none ↦ ok c ]
  ]

  -- The settings around those of the cache.
  unfoldable pub load_paths : Config → Toml → Config
  load_paths c t = record c {
    fifo_path = given_path c.fifo_path t.fifo_path;
    fifo_path_completed = given_path c.fifo_path_completed t.fifo_path_completed;
  }

  unfoldable pub load_flags : Config → Toml → Config
  unfolding set_eviction_flag
  load_flags c t =
      let c' : Config = elim t.apply_eviction [ none ↦ c | some flag ↦ set_eviction_flag c flag ] in
      record c' {
        log_all_operations = or_default c'.log_all_operations t.log_all_operations;
        log_file = or_default c'.log_file t.logfile;
      }

  unfoldable pub load_config : Config → Toml → Run (Config × Registry)
  unfolding load_cache load_paths load_flags load_injections
  load_config c t = do
    c1 ← guarded out_of_range t.has_faults (load_paths c t)
    c2 ← guarded out_of_range t.has_cache c1
    c' ← load_cache c2 t
    faults ← load_injections (or_default [] t.injection) []
    ok (load_flags c' t, faults)

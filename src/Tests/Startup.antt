-- ===== src/Tests/Startup.antt =====
-- The theorems on the configuration and the start at concrete inputs.
use lazyfs.Base.{
  ℕ, ◌*◌, ◌+◌, ◌^◌, ◌/◌, ◌≤◌, ◌<◌, ◌≡◌, refl, String, true, false, none, some, [], ◌∷◌, nat_eq,
  string_eq,
}
use lazyfs.Base.Words.{through_double}
use lazyfs.Base.Run.{ok}
use lazyfs.Faults.{pos}
use lazyfs.Faults.Load.{load_injections}
use lazyfs.Config.{Config, default_config, setup_config_by_size}
use lazyfs.Config.Load.{Toml, load_config}
use lazyfs.Config.Load.Sound.{IsUsable, setup_config_by_size-bounds, load_config-IsUsable}
use lazyfs.Fs.{Fs}
use lazyfs.Main.{Args, command_line, create_fifos, start}
use lazyfs.Main.Start.{IsReady, start-IsReady}
use lazyfs.Tests.Data.{quiet}

-- Two pages of one block fit into 10000 bytes.
abbrev by_size : Config
by_size = record default_config { is_default_config = false; cache_nr_pages = 2 }

setup_config_by_size-bounds_example : (2 * 4096 ≤ 10000 + 1024) × (10000 < 2 * 4096 + 4096 + 1024)
unfolding setup_config_by_size through_double
setup_config_by_size-bounds_example =
    setup_config_by_size-bounds default_config by_size 10000 1 refl

-- A size that is above 2 ^ 53 may be rounded up: then the pages take a byte more.
rounded_up : through_double (2 ^ 60 + 4095) ≡ 2 ^ 60 + 4096
unfolding through_double
rounded_up = refl

-- "0.5Mb" of pages of two blocks, if the unit is written in lower case.
abbrev toml : Toml
toml = record {
  has_faults = true;
  has_cache = true;
  fifo_path = some "/tmp/faults.fifo";
  fifo_path_completed = none;
  simple = some (record { custom_size = some "0.5mb"; blocks_per_page = some (pos 2) });
  manual = none;
  apply_eviction = some true;
  log_all_operations = none;
  logfile = none;
  injection = none;
}

abbrev lower : String → String
lower s = s

abbrev half : ℕ → String → ℕ
half n text = n / 2

abbrev loaded : Config
loaded = record default_config {
  is_default_config = false;
  cache_page_size = 8192;
  cache_nr_pages = 64;
  fifo_path = "/tmp/faults.fifo";
  apply_lru_eviction = true;
}

load_config-IsUsable_example : IsUsable loaded
unfolding load_config load_injections through_double
load_config-IsUsable_example = load_config-IsUsable lower half toml loaded [] refl

abbrev args : Args
args = record {
  new_argv = "lazyfs" ∷ "/mnt" ∷ [];
  config_path = "lazyfs.toml";
  path_specified = true;
}

start-IsReady_example :
    (s : Fs quiet) × (start quiet lower half
        (λ path. some toml)
        ("lazyfs" ∷ "--config-path" ∷ "lazyfs.toml" ∷ "/mnt" ∷ [])
        tt
      ≡ ok (some ("lazyfs" ∷ "/mnt" ∷ [], s)))
    × IsReady quiet s
unfolding command_line load_config load_injections create_fifos through_double
start-IsReady_example =
    start-IsReady quiet lower half (λ path. some toml)
      ("lazyfs" ∷ "--config-path" ∷ "lazyfs.toml" ∷ "/mnt" ∷ []) args toml loaded [] tt tt refl refl
      refl refl

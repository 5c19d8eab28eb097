-- ===== src/Config.antt =====
-- libs/libpcache/include/cache/config/config.hpp and src/config/config.cpp: the settings that the
-- cache and the file system read.
pub mod Load
use lazyfs.Base.{
  ℕ, ◌*◌, ◌/◌, ◌%◌, ◌^◌, String, Bool, true, false, ltb, leb, if◌then◌else◌, ◌==◌, nat_eq, ◌≤◌, ◌≡◌,
}
use lazyfs.Base.Words.{through_double}
use lazyfs.Base.Run.{Run, ok, fault, assertion}

pub record Config : Type 0 where
  pub log_all_operations : Bool
  pub is_default_config : Bool
  pub cache_nr_pages : ℕ
  pub cache_page_size : ℕ
  pub io_block_size : ℕ
  pub disk_sector_size : ℕ
  pub apply_lru_eviction : Bool
  pub fifo_path : String
  pub fifo_path_completed : String
  pub log_file : String

-- The values of the fields' initialisers.
abbrev pub default_config : Config
default_config = record {
  log_all_operations = false;
  is_default_config = true;
  cache_nr_pages = 5;
  cache_page_size = 4096;
  io_block_size = 4096;
  disk_sector_size = 512;
  apply_lru_eviction = false;
  fifo_path = "faults.fifo";
  fifo_path_completed = "";
  log_file = "";
}

-- `pg_sz % io_blk_sz` at a block size of 0 is undefined behaviour, here a failed assertion too.
unfoldable pub setup_config_manually : Config → ℕ → ℕ → ℕ → Run Config
setup_config_manually c io_blk_sz pg_sz nr_pgs =
    if nr_pgs == 0
    then fault assertion
    else if io_blk_sz == 0
    then fault assertion
    else if pg_sz % io_blk_sz == 0
    then ok
        (record c { cache_nr_pages = nr_pgs; cache_page_size = pg_sz; io_block_size = io_blk_sz })
    else fault assertion

-- `nr_blocks_per_page` is an `int` that the callers take from the configuration file. The
-- products are `size_t`; `std::ceil` makes a `double` of the bytes. A division by a page size of 0 is a failed assertion here too.
unfoldable pub setup_config_by_size : Config → ℕ → ℕ → Run Config
setup_config_by_size c prealloc_bytes nr_blocks_per_page =
    let page_size : ℕ = nr_blocks_per_page * c.io_block_size % 2 ^ 64 in
    if ltb prealloc_bytes c.io_block_size
    then fault assertion
    else if leb (through_double prealloc_bytes) page_size
    then fault assertion
    else if page_size == 0
    then fault assertion
    else ok (record c {
      is_default_config = false;
      cache_page_size = page_size;
      cache_nr_pages = through_double prealloc_bytes / page_size;
    })

unfoldable pub set_eviction_flag : Config → Bool → Config
set_eviction_flag c flag = record c { apply_lru_eviction = flag }

-- What the constructor of a page asserts, and what the loops over its blocks rely on.
pub record IsSound (c : Config) : Type 0 where
  pub positive : 1 ≤ c.io_block_size
  pub divides : c.cache_page_size % c.io_block_size ≡ 0

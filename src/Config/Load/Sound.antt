-- ===== src/Config/Load/Sound.antt =====
-- libs/libpcache/src/config/config.cpp: the settings with which a load of the configuration returns.
use lazyfs.Base.{
  ℕ, ◌+◌, ◌*◌, ◌/◌, ◌%◌, ◌^◌, ◌≢◌, ◌≤◌, ◌<◌, ◌≡◌, refl, inl, inr, Option-cases, String, [], arith,
}
use lazyfs.Base.Words.{through_double, through_double-IsNear}
use lazyfs.Base.Run.{>>=-ok, or_fault, guarded, out_of_range, Run, ok}
use lazyfs.Faults.{pos}
use lazyfs.Faults.Load.{load_injections}
use lazyfs.Faults.Registry.{Registry}
use lazyfs.Config.{
  default_config, Config, IsSound, setup_config_by_size, setup_config_manually, set_eviction_flag,
}
use lazyfs.Config.Load.{
  or_default, Simple, Manual, Toml, to_size, int_to_size, total_size, load_simple, load_manual,
  load_cache, load_paths, load_flags, load_config,
}

-- The blocks divide the pages, and there is a page.
pub record IsUsable (c : Config) : Type 0 where
  pub sound : IsSound c
  pub paged : 1 ≤ c.cache_nr_pages

setup_config_manually-IsUsable :
    (c c' : Config) (io_blk_sz pg_sz nr_pgs : ℕ)
    → setup_config_manually c io_blk_sz pg_sz nr_pgs ≡ ok c'
    → IsUsable c'
unfolding setup_config_manually
setup_config_manually-IsUsable c c' io_blk_sz pg_sz nr_pgs h = ground arith

div_pos : (a b : ℕ) → b ≢ 0 → b ≤ a → 1 ≤ a / b
div_pos a b h k = grind arith

setup_config_by_size-IsUsable :
    (c c' : Config) (prealloc_bytes nr_blocks_per_page : ℕ)
    → c.io_block_size ≡ 4096
    → setup_config_by_size c prealloc_bytes nr_blocks_per_page ≡ ok c'
    → IsUsable c'
unfolding setup_config_by_size
setup_config_by_size-IsUsable c c' prealloc_bytes nr_blocks_per_page e h =
    ground (
      arith,
      div_pos (through_double prealloc_bytes) (nr_blocks_per_page * c.io_block_size % 2 ^ 64),
    )

setup_config_by_size_fields :
    (c c' : Config) (prealloc_bytes nr_blocks_per_page : ℕ)
    → setup_config_by_size c prealloc_bytes nr_blocks_per_page ≡ ok c'
    → (c'.cache_nr_pages ≡ through_double prealloc_bytes / c'.cache_page_size)
      × (c'.cache_page_size ≢ 0)
unfolding setup_config_by_size
setup_config_by_size_fields c c' prealloc_bytes nr_blocks_per_page h = ground arith

div_bounds : (a b : ℕ) → b ≢ 0 → (a / b * b ≤ a) × (a < a / b * b + b)
div_bounds a b h = grind arith

-- A set-up by a number of bytes that succeeds gives pages that together take at most 1024 bytes more,
-- and less than one page and 1024 bytes are left over. These bytes are what the conversion to a
-- `double` adds or takes away.
pub setup_config_by_size-bounds :
    (c c' : Config) (prealloc_bytes nr_blocks_per_page : ℕ)
    → setup_config_by_size c prealloc_bytes nr_blocks_per_page ≡ ok c'
    → (c'.cache_nr_pages * c'.cache_page_size ≤ prealloc_bytes + 1024)
      × (prealloc_bytes < c'.cache_nr_pages * c'.cache_page_size + c'.cache_page_size + 1024)
setup_config_by_size-bounds c c' prealloc_bytes nr_blocks_per_page h =
    let (e, f) = setup_config_by_size_fields c c' prealloc_bytes nr_blocks_per_page h in
    let (above, below) = div_bounds (through_double prealloc_bytes) c'.cache_page_size f in
    let (high, low) = through_double-IsNear prealloc_bytes in
    rw e (omega (arith, above, high), omega (arith, below, low))

first_of_ok :
    (c c' : Config) (f f' : Registry)
    → ◌≡◌ {A = Run (Config × Registry)} (ok (c, f)) (ok (c', f'))
    → c ≡ c'
first_of_ok c c' f f' h = cc

module _ (lower : String → String) (times : ℕ → String → ℕ) where
  load_simple-IsUsable :
      (c c' : Config) (simple : Simple)
      → c.io_block_size ≡ 4096
      → load_simple lower times c simple ≡ ok c'
      → IsUsable c'
  unfolding load_simple
  load_simple-IsUsable c c' simple e h =
      let (text, h1, _) = >>=-ok _ (or_fault out_of_range simple.custom_size) h in
      let (total, h2, _) = >>=-ok _ (total_size lower times text) h1 in
      setup_config_by_size-IsUsable c c' total
        (int_to_size (or_default (pos 1) simple.blocks_per_page)) e h2

  load_manual-IsUsable :
      (c c' : Config) (manual : Manual) → load_manual lower times c manual ≡ ok c' → IsUsable c'
  unfolding load_manual
  load_manual-IsUsable c c' manual h =
      let (block_size, h1, _) = >>=-ok _ (or_fault out_of_range manual.io_block_size) h in
      let (page_size, h2, _) = >>=-ok _ (or_fault out_of_range manual.page_size) h1 in
      let (no_pages, h3, _) = >>=-ok _ (or_fault out_of_range manual.no_pages) h2 in
      setup_config_manually-IsUsable c c' (to_size block_size) (to_size page_size)
        (to_size no_pages) h3

  load_cache-IsUsable :
      (c c' : Config) (t : Toml)
      → c.io_block_size ≡ 4096
      → IsUsable c
      → load_cache lower times c t ≡ ok c'
      → IsUsable c'
  unfolding load_cache
  load_cache-IsUsable c c' t e u h = elim (Option-cases t.simple) [
    | inr (simple, f) ↦ load_simple-IsUsable c c' simple e (rw f at h)
    | inl f ↦ elim (Option-cases t.manual) [
      | inr (manual, g) ↦ load_manual-IsUsable c c' manual (rw (f, g) at h)
      | inl g ↦ let k : ok c ≡ ok c' = rw (f, g) at h in ground arith
    ]
  ]

  load_flags-IsUsable : (c : Config) (t : Toml) → IsUsable c → IsUsable (load_flags lower times c t)
  unfolding load_flags set_eviction_flag
  load_flags-IsUsable c t u = ground arith

  -- A configuration file that is loaded over the settings of the initialisers gives settings whose pages
  -- consist of whole blocks, with blocks of at least one byte and at least one page, whatever
  -- the file says, if the load returns.
  pub load_config-IsUsable :
      (t : Toml) (c' : Config) (faults : Registry)
      → load_config lower times default_config t ≡ ok (c', faults)
      → IsUsable c'
  unfolding load_config load_paths
  load_config-IsUsable t c' faults h =
      let (c1, h1, p) =
        >>=-ok _ (guarded out_of_range t.has_faults (load_paths lower times default_config t)) h in
      let (c2, h2, q) = >>=-ok _ (guarded out_of_range t.has_cache c1) h1 in
      let (c3, h3, r) = >>=-ok _ (load_cache lower times c2 t) h2 in
      let (f, h4, s) = >>=-ok _ (load_injections (or_default [] t.injection) []) h3 in
      let e : c2 ≡ load_paths lower times default_config t = ground arith in
      let u : IsUsable c2 = rw e (record {
        sound = record { positive = omega arith; divides = refl };
        paged = omega arith;
      }) in
      let v : IsUsable c3 = load_cache-IsUsable c2 c3 t (rw e refl) u r in
      rw (← (first_of_ok (load_flags lower times c3 t) c' f faults h4)) (load_flags-IsUsable c3 t v)

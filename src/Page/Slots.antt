-- ===== src/Page/Slots.antt =====
-- page.cpp: the slots of a page. Each of them is the place of one block or is in the list of free
-- indexes, and a free slot holds zeros.
use lazyfs.Base.{
  count, ℕ, zero, suc, ◌+◌, ◌%◌, ◌≤◌, ◌<◌, ◌≡◌, List, [], ◌∷◌, arith, nat_eq, length, get_or, All,
  ltb, leb, if◌then◌else◌, ◌==◌, ◌&&◌, length-replicate, false, get_or-replicate, replicate, some,
  refl, string_eq,
}
use lazyfs.Base.Assoc.{IsUnique, erase_of_absent, find, erase}
use lazyfs.Base.Run.{ok}
use lazyfs.Config.{Config, IsSound}
use lazyfs.Page.Offsets
use lazyfs.Page.{Page, new, reset, push_indexes, get_allocate_free_offset, contains_block}

-- The first bytes of the places in the mapping.
abbrev pub starts : List (ℕ × (ℕ × ℕ)) → List ℕ
starts [] = []
starts ((b, (lo, hi)) ∷ m) = lo ∷ starts m

-- 1 for the first byte of a slot, and 0 for any other number.
abbrev pub slot : Config → ℕ → ℕ
slot c x = if ltb x c.cache_page_size && x % c.io_block_size == 0 then 1 else 0

abbrev pub IsWhole : ℕ → List (ℕ × (ℕ × ℕ)) → Type 0
IsWhole n = All λ e. e.1.1 + 1 ≡ e.1.0 + n

-- The representation invariant of a page.
pub record IsValid (c : Config) (p : Page) : Type 0 where
  pub sized : length p.page_data ≡ c.cache_page_size
  pub once :
      (x : ℕ)
      → count x p.free_block_indexes + count x (starts p.allocated_block_ids.block_offset_mapping)
        ≡ slot c x
  pub unique : IsUnique p.allocated_block_ids.block_offset_mapping
  pub whole : IsWhole c.io_block_size p.allocated_block_ids.block_offset_mapping
  pub zeroed :
      (x j : ℕ)
      → 1 ≤ count x p.free_block_indexes
      → j < c.io_block_size
      → get_or p.page_data (x + j) 0 ≡ 0

mod_step : (i n : ℕ) → 1 ≤ n → i % n ≡ 0 → (i + n) % n ≡ 0
mod_step i n h m = grind arith

-- Two multiples of a number lie at least that number apart.
pub mod_apart : (n x y : ℕ) → 1 ≤ n → x % n ≡ 0 → y % n ≡ 0 → x < y → x + n ≤ y
mod_apart n x y h mx my l = grind arith

-- `push_indexes` adds the multiples of the block size from `i` on, if the fuel lasts to the end.
count-push_indexes :
    (c : Config)
    → IsSound c
    → (fuel i : ℕ) (free : List ℕ) (x : ℕ) → c.cache_page_size ≤ fuel + i
    → i % c.io_block_size ≡ 0
    → count x (push_indexes fuel c.cache_page_size c.io_block_size i free)
      ≡ count x free + (if leb i x then slot c x else 0)
unfolding push_indexes
count-push_indexes c s zero i free x h m = ground arith
count-push_indexes c s (suc fuel) i free x h m = ground (
  arith,
  count-push_indexes c s fuel (i + c.io_block_size) (i ∷ free) x,
  mod_step i c.io_block_size,
  mod_apart c.io_block_size i x,
)

fresh : (c : Config) (p : Page) → IsSound c → IsValid c (reset c p)
unfolding reset
fresh c p s = record {
  sized = length-replicate c.cache_page_size 0;
  once = λ x. ground (arith, count-push_indexes c s c.cache_page_size 0 [] x);
  unique = tt;
  whole = tt;
  zeroed = λ x j _ _. get_or-replicate c.cache_page_size (x + j) 0;
}

-- For a sound configuration the constructor of a page succeeds, with a valid page.
pub new-IsValid : (c : Config) → IsSound c → (p : Page) × (new c ≡ ok p) × IsValid c p
unfolding new reset
new-IsValid c s =
    let p : Page = record {
      is_dirty = false;
      page_owner_id = "none";
      free_block_indexes = push_indexes c.cache_page_size c.cache_page_size c.io_block_size 0 [];
      page_data = replicate c.cache_page_size 0;
      allocated_block_ids = Offsets.reset;
    } in
    (p, ground arith, fresh c p s)

-- `reset` frees every slot.
pub reset-IsValid : (c : Config) (p : Page) → IsSound c → IsValid c (reset c p)
reset-IsValid c p s = fresh c p s

pub starts-erase :
    (b x lo hi : ℕ) (m : List (ℕ × (ℕ × ℕ)))
    → IsUnique m
    → find b m ≡ some (lo, hi)
    → count x (starts m) ≡ count x (starts (erase b m)) + (if lo == x then 1 else 0)
starts-erase b x lo hi [] u h = cc
starts-erase b x lo hi ((j, (l, g)) ∷ m) u h =
    ground (arith, starts-erase b x lo hi m u.1, erase_of_absent b m)

pub IsWhole-erase : (b n : ℕ) (m : List (ℕ × (ℕ × ℕ))) → IsWhole n m → IsWhole n (erase b m)
IsWhole-erase b n [] w = tt
IsWhole-erase b n ((j, (l, g)) ∷ m) w = ground (arith, IsWhole-erase b n m w.1)

pub find-IsWhole :
    (b n lo hi : ℕ) (m : List (ℕ × (ℕ × ℕ)))
    → IsWhole n m
    → find b m ≡ some (lo, hi)
    → (hi + 1 ≡ lo + n) × (1 ≤ count lo (starts m))
find-IsWhole b n lo hi [] w h = absurd (ground arith)
find-IsWhole b n lo hi ((j, (l, g)) ∷ m) w h = ground (arith, find-IsWhole b n lo hi m w.1)

-- For a sound configuration and a valid page, giving a slot to a block that the page lacks leaves
-- the page valid.
pub get_allocate_free_offset-IsValid :
    (c : Config) (p : Page) (b : ℕ)
    → IsSound c
    → IsValid c p
    → contains_block p b ≡ false
    → IsValid c (get_allocate_free_offset c p b).1
unfolding get_allocate_free_offset contains_block
get_allocate_free_offset-IsValid c p b s v h = alloc p.free_block_indexes refl
  where
    alloc :
        (free : List ℕ) → p.free_block_indexes ≡ free → IsValid c (get_allocate_free_offset c p b).1
    alloc [] e = rw (e, get_allocate_free_offset) v
    alloc (i ∷ free) e =
        rw (e, get_allocate_free_offset)
          (record {
            sized = v.sized;
            once = λ x. ground (arith, v.once x);
            unique = ground arith;
            whole = ground arith;
            zeroed = λ x j hx hj. ground (arith, v.zeroed x j);
          })

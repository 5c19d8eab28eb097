-- ===== src/Page/Places.antt =====
-- page.cpp: writing into a block and removing one, in terms of the block's slot.
use lazyfs.Base.{
  count, ℕ, zero, suc, ◌+◌, ◌%◌, ◌≤◌, ◌<◌, ◌≡◌, List, ◌∷◌, arith, nat_eq, length, get_or,
  length-replicate, get_or-replicate, replicate, some, Bool, refl, ◌⊎◌, blit, get_or-blit, true,
  Option, length-blit, take_of_length, ◌∙◌, ◌-◌, inl, inr, none, string_eq, Bool-cases,
}
use lazyfs.Base.Assoc.{erase-IsUnique}
use lazyfs.Base.Run.{ok}
use lazyfs.Config.{Config, IsSound}
use lazyfs.Page.Offsets
use lazyfs.Page.{
  Page, update_block_data, make_block_readable_to, remove_block, get_block_offsets, clean_if_empty,
}
use lazyfs.Page.Slots.{IsValid, mod_apart, find-IsWhole, starts-erase, IsWhole-erase}

-- Where a block of a valid page lies.
pub record IsPlace (c : Config) (p : Page) (lo hi : ℕ) : Type 0 where
  pub last : hi + 1 ≡ lo + c.io_block_size
  pub aligned : lo % c.io_block_size ≡ 0
  pub fits : lo + c.io_block_size ≤ length p.page_data
  pub taken : count lo p.free_block_indexes ≡ 0

pub get_block_offsets-IsPlace :
    (c : Config) (p : Page) (b lo hi : ℕ)
    → IsSound c
    → IsValid c p
    → get_block_offsets p b ≡ some (lo, hi)
    → IsPlace c p lo hi
unfolding get_block_offsets
get_block_offsets-IsPlace c p b lo hi s v h =
    let w =
      find-IsWhole b c.io_block_size lo hi p.allocated_block_ids.block_offset_mapping v.whole h in
    let o = v.once lo in
    let m = s.divides in
    record {
      last = w.0;
      aligned = ground (arith, w.1, o);
      fits =
          ground
            (arith, w.1, o, v.sized, mod_apart c.io_block_size lo c.cache_page_size s.positive);
      taken = ground (arith, w.1, o);
    }

-- The bytes of a free slot are not touched by a write into another one.
free_apart :
    (c : Config) (p : Page) (lo hi x : ℕ)
    → IsSound c
    → IsValid c p
    → IsPlace c p lo hi
    → 1 ≤ count x p.free_block_indexes
    → (x + c.io_block_size ≤ lo) ⊎ (lo + c.io_block_size ≤ x)
free_apart c p lo hi x s v w h =
    ground
      (arith, v.once x, s.positive, mod_apart c.io_block_size lo x, mod_apart c.io_block_size x lo)

write-zeroed :
    (c : Config) (p : Page) (lo hi off x j : ℕ) (src : List ℕ)
    → IsSound c
    → IsValid c p
    → IsPlace c p lo hi
    → off + length src ≤ c.io_block_size
    → 1 ≤ count x p.free_block_indexes
    → j < c.io_block_size
    → get_or (blit p.page_data (lo + off) src) (x + j) 0 ≡ 0
write-zeroed c p lo hi off x j src s v w h hx hj = ground (
  arith,
  w.fits,
  v.zeroed x j,
  free_apart c p lo hi x s v w hx,
  get_or-blit p.page_data (lo + off) src (x + j) 0,
)

-- What a write into a block of a valid page does. A block of one byte at index 0 is refused.
abbrev pub written : Page → ℕ → List ℕ → Page
written p at src = record p { is_dirty = true; page_data = blit p.page_data at src }

pub update_block_data-written :
    (c : Config) (p : Page) (b lo hi off : ℕ) (src : List ℕ)
    → IsPlace c p lo hi
    → get_block_offsets p b ≡ some (lo, hi)
    → off + length src ≤ c.io_block_size
    → 0 < hi
    → update_block_data c p b src off ≡ ok (true, written p (lo + off) src)
unfolding update_block_data
update_block_data-written c p b lo hi off src w h l pos =
    ground (arith, w.fits, take_of_length (lo + off + length src - (lo + off)) src)

-- For a sound configuration and a valid page, if a write of bytes that end within the block
-- returns, the page is valid afterwards.
pub update_block_data-IsValid :
    (c : Config) (p q : Page) (b off : ℕ) (src : List ℕ) (r : Bool)
    → IsSound c
    → IsValid c p
    → off + length src ≤ c.io_block_size
    → update_block_data c p b src off ≡ ok (r, q)
    → IsValid c q
update_block_data-IsValid c p q b off src r s v h e = go (get_block_offsets p b) refl
  where
    go : (o : Option (ℕ × ℕ)) → get_block_offsets p b ≡ o → IsValid c q
    go none g = let same : q ≡ p = unfold update_block_data in ground arith in rw same v
    go (some (lo, zero)) g =
        let same : q ≡ p = unfold update_block_data in ground arith in rw same v
    go (some (lo, suc hi)) g =
        let w = get_block_offsets-IsPlace c p b lo (suc hi) s v g in
        let same : q ≡ written p (lo + off) src =
          ground (arith, update_block_data-written c p b lo (suc hi) off src w g h) in
        rw same (record {
          sized = length-blit p.page_data (lo + off) src ∙ v.sized;
          once = v.once;
          unique = v.unique;
          whole = v.whole;
          zeroed = λ x j hx hj. write-zeroed c p lo (suc hi) off x j src s v w h hx hj;
        })

pub make_block_readable_to-IsValid :
    (c : Config) (p : Page) (b r : ℕ) → IsValid c p → IsValid c (make_block_readable_to p b r)
unfolding make_block_readable_to
make_block_readable_to-IsValid c p b r v = record {
  sized = v.sized;
  once = v.once;
  unique = v.unique;
  whole = v.whole;
  zeroed = v.zeroed;
}

-- What `remove_block` leaves of a page, but for the dirty flag.
abbrev pub removed : Config → Page → ℕ → ℕ → Page
unfolding Offsets.remove_block
removed c p b lo = record p {
  free_block_indexes = lo ∷ p.free_block_indexes;
  allocated_block_ids = Offsets.remove_block p.allocated_block_ids b;
  page_data = blit p.page_data lo (replicate c.io_block_size 0);
}

removed-IsValid :
    (c : Config) (p : Page) (b lo hi : ℕ)
    → IsSound c
    → IsValid c p
    → get_block_offsets p b ≡ some (lo, hi)
    → IsValid c (removed c p b lo)
unfolding removed get_block_offsets
removed-IsValid c p b lo hi s v g = record {
  sized = length-blit p.page_data lo (replicate c.io_block_size 0) ∙ v.sized;
  once = λ x. ground (
    arith,
    v.once x,
    starts-erase b x lo hi p.allocated_block_ids.block_offset_mapping v.unique g,
  );
  unique = erase-IsUnique b p.allocated_block_ids.block_offset_mapping v.unique;
  whole = IsWhole-erase b c.io_block_size p.allocated_block_ids.block_offset_mapping v.whole;
  zeroed = λ x j hx hj.
      let w = get_block_offsets-IsPlace c p b lo hi s v g in
      ground (
        arith,
        w.fits,
        v.zeroed x j,
        free_apart c p lo hi x s v w,
        get_or-blit p.page_data lo (replicate c.io_block_size 0) (x + j) 0,
        length-replicate {A = ℕ} c.io_block_size 0,
        get_or-replicate {A = ℕ} c.io_block_size (x + j - lo) 0,
      );
}

clean_if_empty-IsValid : (c : Config) (p : Page) → IsValid c p → IsValid c (clean_if_empty p)
unfolding clean_if_empty
clean_if_empty-IsValid c p v = elim (Bool-cases (Offsets.empty p.allocated_block_ids)) [
  | inl e ↦ rw e (record {
    sized = v.sized;
    once = v.once;
    unique = v.unique;
    whole = v.whole;
    zeroed = v.zeroed;
  })
  | inr e ↦ rw e v
]

-- For a sound configuration and a valid page, the page is valid after the removal of a block.
pub remove_block-IsValid :
    (c : Config) (p : Page) (b : ℕ) → IsSound c → IsValid c p → IsValid c (remove_block c p b)
unfolding remove_block
remove_block-IsValid c p b s v = go (get_block_offsets p b) refl
  where
    go : (o : Option (ℕ × ℕ)) → get_block_offsets p b ≡ o → IsValid c (remove_block c p b)
    go none g = rw (g, remove_block) (clean_if_empty-IsValid c p v)
    go (some (lo, hi)) g =
        rw (g, remove_block) (clean_if_empty-IsValid c _ (removed-IsValid c p b lo hi s v g))

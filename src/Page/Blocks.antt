-- ===== src/Page/Blocks.antt =====
-- page.cpp: what a page promises to the engine. A valid page is a partial map from block ids to
-- arrays of one block's bytes: the places of the blocks do not show.
use lazyfs.Base.{
  count, ℕ, ◌+◌, ◌≤◌, ◌<◌, ◌≡◌, refl, sym, ap, ◌∙◌, ◌⊎◌, inl, inr, true, false, Option, none, some,
  List, [], ◌∷◌, arith, if◌then◌else◌, ◌==◌, nat_eq, string_eq, ==_of_ne, Bool-cases, length,
  get_or, take, drop, replicate, blit, length-take, length-drop, get_or-take, get_or-drop, list_ext,
  length-replicate, get_or-replicate,
}
use lazyfs.Base.Assoc.{find, erase, find-erase}
use lazyfs.Base.Run.{ok}
use lazyfs.Config.{Config, IsSound}
use lazyfs.Page.{
  Page, get_allocate_free_offset, update_block_data, contains_block, get_block_offsets,
}
use lazyfs.Page.Slots.{IsValid, mod_apart, find-IsWhole, starts-erase, IsWhole-erase}
use lazyfs.Page.Places.{get_block_offsets-IsPlace, written, update_block_data-written}
use lazyfs.Base.Windows.{window-blit, window-blit_other}

-- The bytes of a block, if the page has it.
abbrev pub window : Config → Page → ℕ → List ℕ
window c p lo = take c.io_block_size (drop lo p.page_data)

unfoldable pub block_of : Config → Page → ℕ → Option (List ℕ)
block_of c p b = elim (get_block_offsets p b) [ none ↦ none | some (lo, _) ↦ some (window c p lo) ]

-- Two blocks of a valid page lie in two slots.
pub places_apart :
    (c : Config) (p : Page) (b b' lo hi lo' hi' : ℕ)
    → IsSound c
    → IsValid c p
    → get_block_offsets p b ≡ some (lo, hi)
    → get_block_offsets p b' ≡ some (lo', hi')
    → ¬ (b ≡ b')
    → (lo + c.io_block_size ≤ lo') ⊎ (lo' + c.io_block_size ≤ lo)
unfolding get_block_offsets
places_apart c p b b' lo hi lo' hi' s v h h' ne =
    let m = p.allocated_block_ids.block_offset_mapping in
    let w = get_block_offsets-IsPlace c p b lo hi s v h in
    let w' = get_block_offsets-IsPlace c p b' lo' hi' s v h' in
    let n = starts-erase b lo' lo hi m v.unique h in
    let f : find b' (erase b m) ≡ some (lo', hi') = rw find-erase (rw (==_of_ne b b' ne) h') in
    let k =
      find-IsWhole b' c.io_block_size lo' hi' (erase b m)
        (IsWhole-erase b c.io_block_size m v.whole) f in
    ground (
      arith,
      n,
      k.1,
      v.once lo',
      s.positive,
      w.aligned,
      w'.aligned,
      mod_apart c.io_block_size lo lo',
      mod_apart c.io_block_size lo' lo,
    )

pub block_of-some :
    (c : Config) (p : Page) (b lo hi : ℕ)
    → get_block_offsets p b ≡ some (lo, hi)
    → block_of c p b ≡ some (window c p lo)
unfolding block_of
block_of-some c p b lo hi h = rw (h, block_of)

pub block_of-none :
    (c : Config) (p : Page) (b : ℕ) → get_block_offsets p b ≡ none → block_of c p b ≡ none
unfolding block_of
block_of-none c p b h = rw (h, block_of)

module _ (c : Config) (p : Page) (b lo hi : ℕ) (s : IsSound c) (v : IsValid c p)
    (g : get_block_offsets p b ≡ some (lo, hi)) where
  pub block_of-written :
      (b' off : ℕ) (src : List ℕ)
      → off + length src ≤ c.io_block_size
      → block_of c (written p (lo + off) src) b'
        ≡ (if b == b' then some (blit (window c p lo) off src) else block_of c p b')
  unfolding get_block_offsets
  block_of-written b' off src l = elim (Bool-cases (b == b')) [
    | inl e ↦
        let w = get_block_offsets-IsPlace c p b lo hi s v g in
        let same : b ≡ b' = ground arith in
        rw (e, block_of-some c (written p (lo + off) src) b' lo hi (rw (← same) g))
          (ap some (window-blit c.io_block_size lo off p.page_data src w.fits l))
    | inr e ↦ rw e (other (get_block_offsets p b') refl (ground arith))
  ]
    where
      other :
          (o : Option (ℕ × ℕ))
          → get_block_offsets p b' ≡ o
          → ¬ (b ≡ b')
          → block_of c (written p (lo + off) src) b' ≡ block_of c p b'
      other none g' ne =
          block_of-none c (written p (lo + off) src) b' g' ∙ sym (block_of-none c p b' g')
      other (some (lo', hi')) g' ne =
          let w = get_block_offsets-IsPlace c p b lo hi s v g in
          let w' = get_block_offsets-IsPlace c p b' lo' hi' s v g' in
          block_of-some c (written p (lo + off) src) b' lo' hi' g'
          ∙ ap some (
              window-blit_other c.io_block_size lo off p.page_data src w.fits l lo' w'.fits
                (places_apart c p b b' lo hi lo' hi' s v g g' ne))
          ∙ sym (block_of-some c p b' lo' hi' g')

-- For a sound configuration and a valid page, and blocks of at least two bytes, a write of bytes
-- that end within a block that the page has returns true; those bytes of the block are then the
-- new ones, and every other block has its bytes as before.
pub block_of-update_block_data :
    (c : Config) (p : Page) (b b' off : ℕ) (old src : List ℕ)
    → IsSound c
    → IsValid c p
    → 2 ≤ c.io_block_size
    → block_of c p b ≡ some old
    → off + length src ≤ c.io_block_size
    → (q : Page) × (update_block_data c p b src off ≡ ok (true, q))
      × (block_of c q b' ≡ (if b == b' then some (blit old off src) else block_of c p b'))
unfolding block_of
block_of-update_block_data c p b b' off old src s v two h l = go (get_block_offsets p b) refl
  where
    go :
        (o : Option (ℕ × ℕ))
        → get_block_offsets p b ≡ o
        → (q : Page) × (update_block_data c p b src off ≡ ok (true, q))
          × (block_of c q b' ≡ (if b == b' then some (blit old off src) else block_of c p b'))
    go none g = absurd (ground arith)
    go (some (lo, hi)) g =
        let w = get_block_offsets-IsPlace c p b lo hi s v g in
        (
          written p (lo + off) src,
          update_block_data-written c p b lo hi off src w g l (ground (arith, w.last)),
          block_of-written c p b lo hi s v g b' off src l
              ∙ ap (λ (o : Option (List ℕ)). if b == b' then o else block_of c p b')
                  (ap (λ (t : List ℕ). some (blit t off src))
                    (ground (arith, block_of-some c p b lo hi g))),
        )

zero_window :
    (c : Config) (p : Page) (i : ℕ)
    → IsSound c
    → IsValid c p
    → 1 ≤ count i p.free_block_indexes
    → window c p i ≡ replicate c.io_block_size 0
zero_window c p i s v h = list_ext _ _ 0 lengths bytes
  where
    fits : i + c.io_block_size ≤ length p.page_data
    fits = ground (
      arith,
      v.once i,
      v.sized,
      s.divides,
      s.positive,
      mod_apart c.io_block_size i c.cache_page_size,
    )

    lengths : length (window c p i) ≡ length (replicate {A = ℕ} c.io_block_size 0)
    lengths = omega (
      arith,
      fits,
      length-take c.io_block_size (drop i p.page_data),
      length-drop i p.page_data,
      length-replicate {A = ℕ} c.io_block_size 0,
    )

    bytes :
        (j : ℕ)
        → j < length (window c p i)
        → get_or (window c p i) j 0 ≡ get_or (replicate c.io_block_size 0) j 0
    bytes j hj = ground (
      arith,
      length-take c.io_block_size (drop i p.page_data),
      get_or-take c.io_block_size (drop i p.page_data) j 0,
      get_or-drop i p.page_data j 0,
      v.zeroed i j h,
      get_or-replicate {A = ℕ} c.io_block_size j 0,
    )

-- For a sound configuration and a valid page, with a free slot, a block that the page lacks and
-- that is given a slot is a block of zeros, and every other block has its bytes as before.
pub block_of-get_allocate_free_offset :
    (c : Config) (p : Page) (b b' : ℕ)
    → IsSound c
    → IsValid c p
    → contains_block p b ≡ false
    → 1 ≤ length p.free_block_indexes
    → block_of c (get_allocate_free_offset c p b).1 b'
      ≡ (if b == b' then some (replicate c.io_block_size 0) else block_of c p b')
unfolding get_allocate_free_offset contains_block block_of get_block_offsets
block_of-get_allocate_free_offset c p b b' s v a h = alloc p.free_block_indexes refl
  where
    alloc :
        (free : List ℕ)
        → p.free_block_indexes ≡ free
        → block_of c (get_allocate_free_offset c p b).1 b'
          ≡ (if b == b' then some (replicate c.io_block_size 0) else block_of c p b')
    alloc [] e = absurd (ground arith)
    alloc (i ∷ free) e =
        rw (e, get_allocate_free_offset) (ground (arith, zero_window c p i s v (ground arith)))

-- Without a free slot nothing is allocated.
pub get_allocate_free_offset-full :
    (c : Config) (p : Page) (b : ℕ)
    → p.free_block_indexes ≡ []
    → get_allocate_free_offset c p b ≡ (none, p)
unfolding get_allocate_free_offset
get_allocate_free_offset-full c p b h = ground arith

-- ===== src/Page/Removal.antt =====
-- page.cpp: `remove_block` against the map of the blocks' bytes.
use native.Mathlib.Nat.{add-zero}
use lazyfs.Base.{
  ℕ, ◌≡◌, refl, sym, ap, ◌∙◌, inl, inr, Option, none, some, arith, if◌then◌else◌, ◌==◌, nat_eq,
  string_eq, ==_of_ne, Bool-cases, replicate, length-replicate,
}
use lazyfs.Base.Assoc.{find-erase}
use lazyfs.Config.{Config, IsSound}
use lazyfs.Page.Offsets
use lazyfs.Page.{Page, remove_block, get_block_offsets, clean_if_empty}
use lazyfs.Page.Slots.{IsValid}
use lazyfs.Page.Places.{get_block_offsets-IsPlace, removed}
use lazyfs.Page.Blocks.{block_of, block_of-some, block_of-none, places_apart}
use lazyfs.Base.Windows.{window-blit_other}

block_of-clean_if_empty :
    (c : Config) (p : Page) (b : ℕ) → block_of c (clean_if_empty p) b ≡ block_of c p b
unfolding clean_if_empty block_of get_block_offsets
block_of-clean_if_empty c p b = ground arith

block_of-removed :
    (c : Config) (p : Page) (b b' lo hi : ℕ)
    → IsSound c
    → IsValid c p
    → get_block_offsets p b ≡ some (lo, hi)
    → block_of c (removed c p b lo) b' ≡ (if b == b' then none else block_of c p b')
unfolding get_block_offsets Offsets.remove_block
block_of-removed c p b b' lo hi s v g = elim (Bool-cases (b == b')) [
  | inl e ↦ rw e (block_of-none c (removed c p b lo) b' (rw find-erase (rw e)))
  | inr e ↦ rw e (other (get_block_offsets p b') refl (ground arith))
]
  where
    other :
        (o : Option (ℕ × ℕ))
        → get_block_offsets p b' ≡ o
        → ¬ (b ≡ b')
        → block_of c (removed c p b lo) b' ≡ block_of c p b'
    other none g' ne =
        block_of-none c (removed c p b lo) b' (rw find-erase (ground arith))
        ∙ sym (block_of-none c p b' g')
    other (some (lo', hi')) g' ne =
        let w = get_block_offsets-IsPlace c p b lo hi s v g in
        let w' = get_block_offsets-IsPlace c p b' lo' hi' s v g' in
        block_of-some c (removed c p b lo) b' lo' hi' (rw find-erase (rw (==_of_ne b b' ne) g'))
        ∙ ap some (
            rw add-zero at (
              window-blit_other c.io_block_size lo 0 p.page_data (replicate c.io_block_size 0)
                w.fits (omega (arith, length-replicate {A = ℕ} c.io_block_size 0)) lo' w'.fits
                (places_apart c p b b' lo hi lo' hi' s v g g' ne)))
        ∙ sym (block_of-some c p b' lo' hi' g')

-- For a sound configuration and a valid page, a block that is removed is gone, and every other
-- block has its bytes as before.
pub block_of-remove_block :
    (c : Config) (p : Page) (b b' : ℕ)
    → IsSound c
    → IsValid c p
    → block_of c (remove_block c p b) b' ≡ (if b == b' then none else block_of c p b')
unfolding remove_block
block_of-remove_block c p b b' s v = go (get_block_offsets p b) refl
  where
    go :
        (o : Option (ℕ × ℕ))
        → get_block_offsets p b ≡ o
        → block_of c (remove_block c p b) b' ≡ (if b == b' then none else block_of c p b')
    go none g = rw (g, remove_block) (block_of-clean_if_empty c p b' ∙ absent g)
      where
        absent :
            get_block_offsets p b ≡ none
            → block_of c p b' ≡ (if b == b' then none else block_of c p b')
        absent h = elim (Bool-cases (b == b')) [
          | inl e ↦ let same : b ≡ b' = ground arith in rw e (block_of-none c p b' (rw (← same) h))
          | inr e ↦ rw e
        ]
    go (some (lo, hi)) g =
        rw (g, remove_block)
          (block_of-clean_if_empty c (removed c p b lo) b' ∙ block_of-removed c p b b' lo hi s v g)

-- ===== src/Item/Truncate.antt =====
-- data.cpp: which blocks a truncation drops, shortens and keeps, and what giving a block a page
-- records.
use lazyfs.Base.{
  nat_eq, ℕ, ◌-◌, max, ◌≡◌, refl, ◌&&◌, Option, none, some, List, [], ◌∷◌, arith, ltb, leb,
  if◌then◌else◌, ◌==◌, string_eq,
}
use lazyfs.Base.Assoc.{find, find-put}
use lazyfs.Item.Blocks.{
  make_readable_to, set_page_index_number, BlockInfo, Data, get_page_id, set_block_page_id,
  truncate_loop, truncate_blocks_after, new_block_info,
}

-- What is left of a block at a truncation to byte `index` of block `blk`.
abbrev pub kept : ℕ → ℕ → ℕ → Option BlockInfo → Option BlockInfo
kept blk index b none = none
kept blk index b (some info) =
    if ltb b blk
    then some info
    else if b == blk && ltb 0 index
    then some (record info { readable_offset = (info.readable_offset.0, index - 1) })
    else none

-- What is reported of a block.
abbrev pub reported : ℕ → ℕ → Option BlockInfo → Option (Option ℕ)
reported blk b none = none
reported blk b (some info) = if leb blk b then some info.page_index_number else none

truncate_loop-find :
    (blk index b : ℕ) (m : List (ℕ × BlockInfo))
    → (find b (truncate_loop blk index m).0 ≡ reported blk b (find b m))
      × (find b (truncate_loop blk index m).1 ≡ kept blk index b (find b m))
unfolding truncate_loop
truncate_loop-find blk index b [] = (refl, refl)
truncate_loop-find blk index b ((j, info) ∷ m) =
    let ih = truncate_loop-find blk index b m in (ground (arith, ih.0), ground (arith, ih.1))

-- A truncation reports the page of every block from `blk` on. It keeps the blocks before `blk` as
-- they are, and block `blk`, readable up to the byte before `index`, if `index` is not 0; all
-- others are gone.
pub truncate_blocks_after-find :
    (d : Data) (blk index b : ℕ)
    → let (res, d') = truncate_blocks_after d blk index in
      (find b res ≡ reported blk b (find b d.blocks))
      × (find b d'.blocks ≡ kept blk index b (find b d.blocks))
unfolding truncate_blocks_after
truncate_blocks_after-find d blk index b = truncate_loop-find blk index b d.blocks

-- The last readable byte of a block, 0 for a block that is not there.
abbrev pub readable_to : Data → ℕ → ℕ
readable_to d b = elim (find b d.blocks) [ none ↦ 0 | some info ↦ info.readable_offset.1 ]

-- The entry that `set_block_page_id` writes.
abbrev set_block_page_id_info : Data → ℕ → ℕ → ℕ → BlockInfo
unfolding make_readable_to set_page_index_number
set_block_page_id_info d blk page to =
    (make_readable_to
      (set_page_index_number (elim (find blk d.blocks) [ none ↦ new_block_info | some b ↦ b ]) page)
      to).1

-- `set_block_page_id` puts the block on the page and no other block elsewhere; the block is then
-- readable up to the larger of the old and the new offset, which is what it returns, and every
-- other block as before.
pub set_block_page_id-lookup :
    (d : Data) (blk page to b : ℕ)
    → let (r, d') = set_block_page_id d blk page to in
      (get_page_id d' b ≡ (if blk == b then some page else get_page_id d b))
      × (readable_to d' b ≡ (if blk == b then max (readable_to d blk) to else readable_to d b))
      × (r ≡ max (readable_to d blk) to)
unfolding set_block_page_id get_page_id make_readable_to set_page_index_number
set_block_page_id-lookup d blk page to b = go (find blk d.blocks) refl
  where
    go :
        (o : Option BlockInfo)
        → find blk d.blocks ≡ o
        → let (r, d') = set_block_page_id d blk page to in
          (get_page_id d' b ≡ (if blk == b then some page else get_page_id d b))
          × (readable_to d' b ≡ (if blk == b then max (readable_to d blk) to else readable_to d b))
          × (r ≡ max (readable_to d blk) to)
    go none e =
        let f = λ (i : BlockInfo). find-put blk b i d.blocks in
        (
          ground (arith, e, f (set_block_page_id_info d blk page to)),
          ground (arith, e, f (set_block_page_id_info d blk page to)),
          ground (arith, e),
        )
    go (some i) e =
        let f = λ (i : BlockInfo). find-put blk b i d.blocks in
        (
          ground (arith, e, f (set_block_page_id_info d blk page to)),
          ground (arith, e, f (set_block_page_id_info d blk page to)),
          ground (arith, e),
        )

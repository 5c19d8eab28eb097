-- ===== src/Page/SyncData.antt =====
-- page.cpp, `sync_data`: a page that is about to be evicted is written out.
use lazyfs.Base.{
  ℕ, nat_eq, List, ◌+◌, ◌*◌, Bool, false, Option, none, some, [], ◌∷◌, leb, if◌then◌else◌, ◌==◌,
  string_eq, length, take, drop,
}
use lazyfs.Base.Words.{to_int}
use lazyfs.Base.Run.{Run, ok, fault, out_of_bounds, ◌>>=◌}
use lazyfs.Os.{Os}
use lazyfs.Config.{Config}
use lazyfs.Page.Offsets
use lazyfs.Page.{Page, get_block_offsets}

-- `int` sums of the results of `pwrite`: what was written, and how often the result was -1.
pub record Tally : Type 0 where
  pub should_write : ℕ
  pub wrote : ℕ
  pub failures : ℕ

-- `max_offset + 1`, where the offset may be -1.
abbrev pub end_of : Option ℕ → ℕ
end_of none = 0
end_of (some r) = r + 1

module _ (os : Os) (c : Config) where
  -- The loop over the blocks; the last one is written up to its readable offset.
  unfoldable pub sync_blocks :
      Option ℕ → Page → List (ℕ × Option ℕ) → Tally → os.State → Run (Tally × os.State)
  unfolding to_int
  sync_blocks fd p [] t w = ok (t, w)
  sync_blocks fd p ((b, r) ∷ rest) t w =
      let skip = sync_blocks fd p rest t w in
      elim (get_block_offsets p b) [
        | none ↦ skip
        | some (lo, _) ↦
            let total_bytes : ℕ = elim rest [ [] ↦ end_of r | _ ∷ _ ↦ c.io_block_size ] in
            if leb (lo + total_bytes) (length p.page_data)
            then (let (n, w') =
                  os.pwrite fd (take total_bytes (drop lo p.page_data)) (b * c.io_block_size) w in
                let t' : Tally = record {
                  should_write = t.should_write + total_bytes;
                  wrote = t.wrote + elim n [ none ↦ 0 | some k ↦ k ];
                  failures = t.failures + elim n [ none ↦ 1 | some k ↦ 0 ];
                } in
                sync_blocks fd p rest t' w')
            else fault out_of_bounds
      ]

  unfoldable pub sync_data : Page → os.State → Run (Bool × Page × os.State)
  unfolding sync_blocks Offsets.get_block_readable_offsets
  sync_data p w =
      let (fd, w') = os.open_write p.page_owner_id w in
      sync_blocks fd p (Offsets.get_block_readable_offsets p.allocated_block_ids)
        (record { should_write = 0; wrote = 0; failures = 0 }) w'
      >>= λ (t, w2).
          let res = t.should_write + t.failures == t.wrote in
          ok (res, (if res then record p { is_dirty = false } else p), os.close fd w2)

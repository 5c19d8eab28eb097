-- ===== src/Fs/Attributes/Cached.antt =====
-- lazyfs.cpp, `lfs_getattr`: the attributes that are returned are those that the cache has.
use lazyfs.Base.{
  String, ◌≡◌, refl, ◌∙◌, inl, inr, true, false, none, some, ◌∷◌, arith, nat_eq, string_eq,
  Option-cases, ==_refl,
}
use lazyfs.Base.Assoc.{find, contains, contains-find}
use lazyfs.Base.Run.{ok}
use lazyfs.Os.{Os, Stat}
use lazyfs.Config.{Config}
use lazyfs.Item.{Metadata}
use lazyfs.Cache.{
  Cache, has_content_cached, get_content_metadata, get_content, create_item, set_item,
  update_content_metadata,
}
use lazyfs.Cache.Blocks.{put_data_blocks, put_mapping, record_allocations}
use lazyfs.Engine.Allocate.{allocate_blocks}
use lazyfs.Item.{update_metadata, update_fields, update_field, new_item}
use lazyfs.Fs.Attributes.{cached_stat, stat_metadata, find_inode, enter_content, regular_attributes}

-- The attributes have the size, the times and the links of the metadata.
abbrev pub IsOf : Metadata → Stat → Type 0
IsOf meta st =
    (st.st_size ≡ meta.size)
    × (st.st_atim ≡ meta.atim)
    × (st.st_ctim ≡ meta.ctim)
    × (st.st_mtim ≡ meta.mtim)
    × (st.st_nlink ≡ meta.nlinks)

module _ (os : Os) (c : Config) where
  enter_content-metadata :
      (inode : String) (st : Stat) (cache : Cache) (w : os.State)
      → find inode cache.contents ≡ none
      → (cache' : Cache) × (w' : os.State) × (enter_content os c inode st cache w ≡ ok (cache', w'))
        × (get_content_metadata cache' inode ≡ some (stat_metadata st))
  unfolding enter_content put_data_blocks get_content create_item put_mapping allocate_blocks
      record_allocations set_item has_content_cached update_content_metadata get_content_metadata
      update_metadata update_fields update_field
  enter_content-metadata inode st cache w absent =
      let fresh : contains inode cache.contents ≡ false =
        contains-find inode cache.contents ∙ rw absent refl in
      let same = ==_refl inode in
      (
        record cache {
          contents = (inode, record new_item { metadata = stat_metadata st }) ∷ cache.contents;
        },
        w,
        ground (arith, absent, fresh, same),
        ground (arith, same),
      )

  -- For a regular file the attributes are always found, and what they say of its size, its times and
  -- its links is what the cache then has of the file's inode.
  pub regular_attributes-IsOf :
      (path : String) (st : Stat) (cache : Cache) (w : os.State)
      → (st' : Stat) × (cache' : Cache) × (w' : os.State) × (meta : Metadata) × (regular_attributes
            os c path st cache w
          ≡ ok (some st', cache', w'))
        × (get_content_metadata cache' (find_inode os path st cache).0 ≡ some meta)
        × IsOf meta st'
  unfolding regular_attributes has_content_cached get_content_metadata get_content cached_stat
  regular_attributes-IsOf path st cache w =
      let inode = (find_inode os path st cache).0 in
      let cache1 = (find_inode os path st cache).1 in
      elim (Option-cases (find inode cache1.contents)) [
        | inl e ↦
            let (cache', w', eq, m) = enter_content-metadata inode st cache1 w e in
            let fresh : contains inode cache1.contents ≡ false =
              contains-find inode cache1.contents ∙ rw e refl in
            (
              st,
              cache',
              w',
              stat_metadata st,
              rw (regular_attributes, fresh, eq) refl,
              m,
              (refl, refl, refl, refl, refl),
            )
        | inr (item, e) ↦
            let here : contains inode cache1.contents ≡ true =
              contains-find inode cache1.contents ∙ rw e refl in
            (
              cached_stat c item.metadata st,
              cache1,
              w,
              item.metadata,
              ground (arith, here, e),
              ground (arith, e),
              (refl, refl, refl, refl, refl),
            )
      ]

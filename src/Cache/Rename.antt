-- ===== src/Cache/Rename.antt =====
-- cache.cpp, `rename_item`: what becomes of the paths and of the content that the new path had.
use lazyfs.Base.{
  String, ◌≡◌, refl, ◌∙◌, Bool, true, false, Option, none, some, arith, ltb, if◌then◌else◌, ◌==◌,
  nat_eq, string_eq, ==_refl,
}
use lazyfs.Base.Assoc.{find, put, erase, find-put, find-erase}
use lazyfs.Base.Run.{ok}
use lazyfs.Config.{Config}
use lazyfs.Item.{Item}
use lazyfs.Engine.Release.Removal.{IsKnown}
use lazyfs.Cache.{Cache, get_content, set_item, get_original_inode}
use lazyfs.Cache.Files.{rename_item, unlink_item}
use lazyfs.Cache.Clear.{discard_lem}

-- What is left of a content that loses a link.
abbrev pub after_unlink : Option Item → Option Item
after_unlink none = none
after_unlink (some item) = if ltb 1 item.metadata.nlinks then some (unlink_item item) else none

-- The inode that a path has after the renaming.
abbrev pub inode_after : Cache → String → String → String → String → String
inode_after s old_cid new_cid inode path =
    if new_cid == path then inode else if old_cid == path then "" else get_original_inode s path

-- The state after a renaming, seen from the paths and the contents.
pub record IsRenamed (s : Cache) (old_cid new_cid inode : String) (s' : Cache) : Type 0 where
  pub inodes :
      (path : String) → get_original_inode s' path ≡ inode_after s old_cid new_cid inode path
  pub replaced :
      get_content s' (get_original_inode s new_cid)
      ≡ after_unlink (get_content s (get_original_inode s new_cid))
  pub others :
      (cid : String)
      → get_original_inode s new_cid == cid ≡ false
      → get_content s' cid ≡ get_content s cid

get_original_inode-same :
    (s s' : Cache) (path : String)
    → s'.file_inode_mapping ≡ s.file_inode_mapping
    → get_original_inode s' path ≡ get_original_inode s path
unfolding get_original_inode
get_original_inode-same s s' path h = rw (h, get_original_inode) refl

module _ (c : Config) (s : Cache) (old_cid new_cid inode : String) (k : IsKnown s.engine)
    (h : find old_cid s.file_inode_mapping ≡ some inode) where
  renamed_paths :
      (path : String)
      → get_original_inode
          (record s { file_inode_mapping = put new_cid inode (erase old_cid s.file_inode_mapping) })
          path
        ≡ inode_after s old_cid new_cid inode path
  unfolding get_original_inode
  renamed_paths path = ground (
    arith,
    find-put new_cid path inode (erase old_cid s.file_inode_mapping),
    find-erase old_cid path s.file_inode_mapping,
  )

  -- The state when the paths are changed, and the one when the item has lost a link.
  abbrev s1 : Cache
  s1 = record s { file_inode_mapping = put new_cid inode (erase old_cid s.file_inode_mapping) }

  abbrev s2 : Item → Cache
  s2 item = set_item s1 (get_original_inode s new_cid) (unlink_item item)

  unlinked-IsRenamed :
      (item : Item)
      → get_content s (get_original_inode s new_cid) ≡ some item
      → ltb 1 item.metadata.nlinks ≡ true
      → IsRenamed s old_cid new_cid inode (s2 item)
  unfolding get_content set_item get_original_inode
  unlinked-IsRenamed item g l =
      let t = get_original_inode s new_cid in
      record {
        inodes = renamed_paths;
        replaced = ground (arith, g, l, find-put t t (unlink_item item) s.contents, ==_refl t);
        others = λ cid n. ground (arith, find-put t cid (unlink_item item) s.contents);
      }

  discarded-IsRenamed :
      (item : Item) (s' : Cache)
      → get_content s (get_original_inode s new_cid) ≡ some item
      → ltb 1 item.metadata.nlinks ≡ false
      → s'.contents ≡ erase (get_original_inode s new_cid) (s2 item).contents
      → s'.file_inode_mapping ≡ s1.file_inode_mapping
      → IsRenamed s old_cid new_cid inode s'
  unfolding get_content set_item
  discarded-IsRenamed item s' g l m n =
      let t = get_original_inode s new_cid in
      record {
        inodes = λ path. get_original_inode-same s1 s' path n ∙ renamed_paths path;
        replaced = ground (arith, g, l, m, find-erase t t (s2 item).contents, ==_refl t);
        others = λ cid ne. ground (
          arith,
          m,
          find-erase t cid (s2 item).contents,
          find-put t cid (unlink_item item) s.contents,
        );
      }

  linked :
      (item : Item)
      → get_content s (get_original_inode s new_cid) ≡ some item
      → (b : Bool) → ltb 1 item.metadata.nlinks ≡ b
      → (s' : Cache) × (rename_item c s old_cid new_cid ≡ ok (true, s'))
        × IsRenamed s old_cid new_cid inode s'
  unfolding rename_item get_original_inode get_content set_item
  linked item g true l =
      (s2 item, rw (h, rename_item) (rw g (rw l refl)), unlinked-IsRenamed item g l)
  linked item g false l =
      let (s', eq, m, _, n) = discard_lem c (s2 item) (get_original_inode s new_cid) k in
      (s', rw (h, rename_item) (rw g (rw l (rw eq refl))), discarded-IsRenamed item s' g l m n)

  -- If the pages of the owners are pages of the engine, then the renaming of a path that is
  -- known returns true. The new path has the old one's inode, the old one has none unless it is
  -- the new path, and every other path keeps its own. The content that the new path had loses a
  -- link, and leaves the cache with its last one; every other content is as before.
  pub rename_item-IsRenamed :
      (s' : Cache) × (rename_item c s old_cid new_cid ≡ ok (true, s'))
      × IsRenamed s old_cid new_cid inode s'
  unfolding rename_item get_original_inode get_content set_item
  rename_item-IsRenamed = go (get_content s (get_original_inode s new_cid)) refl
    where
      go :
          (o : Option Item)
          → get_content s (get_original_inode s new_cid) ≡ o
          → (s' : Cache) × (rename_item c s old_cid new_cid ≡ ok (true, s'))
            × IsRenamed s old_cid new_cid inode s'
      go none g = (
        s1,
        rw (h, rename_item) (rw g refl),
        record { inodes = renamed_paths; replaced = ground (arith, g); others = λ cid n. refl },
      )
      go (some item) g = linked item g (ltb 1 item.metadata.nlinks) refl

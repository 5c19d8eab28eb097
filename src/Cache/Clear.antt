-- ===== src/Cache/Clear.antt =====
-- cache.cpp, `clear_all_cache`: what is left of the cache.
use lazyfs.Base.{
  String, ◌≡◌, refl, ap, ◌∙◌, inl, inr, Bool, true, false, Option, none, some, List, [], ◌∷◌, arith,
  ◌==◌, nat_eq, string_eq, ==_refl, Bool-cases, All,
}
use lazyfs.Base.Assoc.{contains, erase}
use lazyfs.Base.Run.{ok}
use lazyfs.Config.{Config}
use lazyfs.Item.{Item}
use lazyfs.Engine.Release.Removal.{IsKnown, remove_cached_blocks-IsKnown}
use lazyfs.Cache.{Cache, get_content, set_item, delete_item}
use lazyfs.Cache.Files.{
  discard, remove_cached_item, clear_paths, clear_contents, clear_all_cache, unlink_item,
}

pub discard_lem :
    (c : Config) (s : Cache) (owner : String)
    → IsKnown s.engine
    → (s' : Cache) × (discard c s owner ≡ ok s')
      × (s'.contents ≡ erase owner s.contents)
      × IsKnown s'.engine
      × (s'.file_inode_mapping ≡ s.file_inode_mapping)
unfolding discard delete_item
discard_lem c s owner k =
    let (e, eq, k') = remove_cached_blocks-IsKnown c s.engine owner k in
    (record s { engine = e; contents = erase owner s.contents }, rw eq refl, refl, k', refl)

remove_cached_item_lem :
    (c : Config) (s : Cache) (owner path : String)
    → IsKnown s.engine
    → (b : Bool) × (s' : Cache) × (remove_cached_item c s owner path true ≡ ok (b, s'))
      × IsKnown s'.engine
unfolding remove_cached_item set_item
remove_cached_item_lem c s owner path k = go (get_content s owner) refl
  where
    go :
        (o : Option Item)
        → get_content s owner ≡ o
        → (b : Bool) × (s' : Cache) × (remove_cached_item c s owner path true ≡ ok (b, s'))
          × IsKnown s'.engine
    go none h = (false, s, rw (h, remove_cached_item) refl, k)
    go (some item) h =
        let s1 : Cache = record s { file_inode_mapping = erase path s.file_inode_mapping } in
        let (s', eq, _, k', _) = discard_lem c (set_item s1 owner (unlink_item item)) owner k in
        (true, s', rw (h, remove_cached_item) (rw eq refl), k')

clear_paths_lem :
    (c : Config) (paths : List (String × String)) (s : Cache)
    → IsKnown s.engine
    → (s' : Cache) × (clear_paths c paths s ≡ ok s') × IsKnown s'.engine
unfolding clear_paths
clear_paths_lem c [] s k = (s, refl, k)
clear_paths_lem c ((path, inode) ∷ rest) s k =
    let (b, s1, eq, k1) = remove_cached_item_lem c s inode path k in
    let (s', eq', k') = clear_paths_lem c rest s1 k1 in (s', rw eq eq', k')

-- `m` without the keys of `l`.
abbrev erase_keys : List (String × Item) → List (String × Item) → List (String × Item)
erase_keys [] m = m
erase_keys ((k, _) ∷ l) m = erase_keys l (erase k m)

clear_contents_lem :
    (c : Config) (l : List (String × Item)) (s : Cache)
    → IsKnown s.engine
    → (s' : Cache) × (clear_contents c l s ≡ ok s')
      × (s'.contents ≡ erase_keys l s.contents)
      × IsKnown s'.engine
unfolding clear_contents
clear_contents_lem c [] s k = (s, refl, refl, k)
clear_contents_lem c ((cid, i) ∷ l) s k =
    let (s1, eq, m, k1, _) = discard_lem c s cid k in
    let (s', eq', m', k') = clear_contents_lem c l s1 k1 in
    (s', rw eq eq', m' ∙ ap (erase_keys l) m, k')

erase_keys-nil : (l : List (String × Item)) → erase_keys l [] ≡ []
erase_keys-nil [] = refl
erase_keys-nil (x ∷ l) = erase_keys-nil l

-- Entries whose keys are all in `l`.
Within : List (String × Item) → List (String × Item) → Type 0
Within l m = All (λ x. contains x.0 l ≡ true) m

Within-erase :
    (k : String) (i : Item) (l m : List (String × Item))
    → Within ((k, i) ∷ l) m
    → Within l (erase k m)
unfolding Within
Within-erase k i l [] h = tt
Within-erase k i l ((j, v) ∷ m) h = elim (Bool-cases (j == k)) [
  | inl e ↦ rw e (Within-erase k i l m h.1)
  | inr e ↦ rw e (
    ground (arith, h.0, string_eq.same_iff j k, string_eq.same_iff k j),
    Within-erase k i l m h.1,
  )
]

erase_keys-Within : (l m : List (String × Item)) → Within l m → erase_keys l m ≡ []
unfolding Within
erase_keys-Within [] [] h = refl
erase_keys-Within [] (x ∷ m) h = absurd (ground (arith, h.0))
erase_keys-Within ((k, i) ∷ l) m h = erase_keys-Within l (erase k m) (Within-erase k i l m h)

Within-cons :
    (k : String) (i : Item) (l m : List (String × Item)) → Within l m → Within ((k, i) ∷ l) m
unfolding Within
Within-cons k i l [] h = tt
Within-cons k i l ((j, v) ∷ m) h = (ground (arith, h.0), Within-cons k i l m h.1)

Within-refl : (l : List (String × Item)) → Within l l
unfolding Within
Within-refl [] = tt
Within-refl ((k, i) ∷ l) = (ground (arith, ==_refl k), Within-cons k i l l (Within-refl l))

-- If the pages of the owners are pages of the engine, then the clearing of the cache returns, no
-- content is left, whatever the paths and the numbers of links say, and the pages of the owners
-- are still pages of the engine.
pub clear_all_cache-empty :
    (c : Config) (s : Cache)
    → IsKnown s.engine
    → (s' : Cache) × (clear_all_cache c s ≡ ok s') × (s'.contents ≡ []) × IsKnown s'.engine
unfolding clear_all_cache
clear_all_cache-empty c s k =
    let (s1, eq, k1) = clear_paths_lem c s.file_inode_mapping s k in
    let (s', eq', m, k') = clear_contents_lem c s1.contents s1 k1 in
    (s', rw eq eq', m ∙ erase_keys-Within s1.contents s1.contents (Within-refl s1.contents), k')

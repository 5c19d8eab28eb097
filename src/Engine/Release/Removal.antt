-- ===== src/Engine/Release/Removal.antt =====
-- custom_cache.cpp, `remove_cached_blocks`: the pages of an owner go back to the free pages.
use lazyfs.Base.{
  ℕ, ◌+◌, String, ◌≡◌, refl, ◌∙◌, inl, inr, true, false, Option, none, some, List, [], ◌∷◌, arith,
  ◌==◌, nat_eq, string_eq, ==_refl, Bool-cases, All, elem, count,
}
use lazyfs.Base.Assoc.{find, contains, find-put, contains-put, contains-find, erase, find-erase}
use lazyfs.Base.Run.{ok}
use lazyfs.Config.{Config}
use lazyfs.Page
use lazyfs.Page.{Page}
use lazyfs.Page.Offsets
use lazyfs.Engine.{Engine, get_page_ptr, is_block_cached}
use lazyfs.Engine.Release.{release_page, release_pages, remove_cached_blocks}

-- The pages of the list are pages of the engine.
abbrev pub AreKnown : Engine → List ℕ → Type 0
AreKnown e pages = All (λ i. contains i e.search_index ≡ true) pages

-- The state after `release_pages`, seen from the pages.
pub record IsReleased (c : Config) (e : Engine) (pages : List ℕ) (e' : Engine) : Type 0 where
  pub emptied :
      (i b : ℕ) (owner : String) → elem i pages ≡ true → is_block_cached e' owner (some i) b ≡ false
  pub others : (i : ℕ) → elem i pages ≡ false → get_page_ptr e' i ≡ get_page_ptr e i
  pub kept : (i : ℕ) → contains i e'.search_index ≡ contains i e.search_index
  pub freed : (i : ℕ) → count i e'.free_pages ≡ count i e.free_pages + count i pages
  pub owners : e'.owner_pages_mapping ≡ e.owner_pages_mapping
  pub ordered : e'.owner_ordered_pages_mapping ≡ e.owner_ordered_pages_mapping
  pub owners_free : e'.owner_free_pages_mapping ≡ e.owner_free_pages_mapping

known-some :
    (e : Engine) (i : ℕ)
    → contains i e.search_index ≡ true
    → (p : Page) × (get_page_ptr e i ≡ some p)
unfolding get_page_ptr
known-some e i h = go (find i e.search_index) refl
  where
    go :
        (o : Option Page)
        → find i e.search_index ≡ o
        → (p : Page) × (find i e.search_index ≡ some p)
    go none g = absurd (ground (arith, contains-find i e.search_index))
    go (some p) g = (p, g)

released_empty :
    (c : Config) (e : Engine) (i b : ℕ) (p : Page) (owner : String)
    → is_block_cached (release_page c e i p) owner (some i) b ≡ false
unfolding release_page is_block_cached get_page_ptr Page.reset Page.change_owner Page.contains_block
    Offsets.contains_block
released_empty c e i b p owner =
    ground
      (arith, find-put i i (Page.change_owner (Page.reset c p) "none") e.search_index, ==_refl i)

is_block_cached-same :
    (e e' : Engine) (i b : ℕ) (owner : String)
    → get_page_ptr e' i ≡ get_page_ptr e i
    → is_block_cached e' owner (some i) b ≡ is_block_cached e owner (some i) b
unfolding is_block_cached
is_block_cached-same e e' i b owner h = rw (h, is_block_cached) refl

release_page-others :
    (c : Config) (e : Engine) (i j : ℕ) (p : Page)
    → i == j ≡ false
    → get_page_ptr (release_page c e i p) j ≡ get_page_ptr e j
unfolding release_page get_page_ptr
release_page-others c e i j p ne = rw (find-put, ne)

release_page-kept :
    (c : Config) (e : Engine) (i j : ℕ) (p : Page)
    → contains i e.search_index ≡ true
    → contains j (release_page c e i p).search_index ≡ contains j e.search_index
unfolding release_page
release_page-kept c e i j p k =
    ground (arith, k, contains-put i j (Page.change_owner (Page.reset c p) "none") e.search_index)

AreKnown-release :
    (c : Config) (e : Engine) (i : ℕ) (p : Page)
    → contains i e.search_index ≡ true
    → (pages : List ℕ) → AreKnown e pages
    → AreKnown (release_page c e i p) pages
AreKnown-release c e i p k [] h = tt
AreKnown-release c e i p k (j ∷ pages) h =
    (release_page-kept c e i j p k ∙ h.0, AreKnown-release c e i p k pages h.1)

IsReleased-cons :
    (c : Config) (e : Engine) (i : ℕ) (p : Page)
    → contains i e.search_index ≡ true
    → (pages : List ℕ) (e' : Engine) → IsReleased c (release_page c e i p) pages e'
    → IsReleased c e (i ∷ pages) e'
unfolding release_page
IsReleased-cons c e i p k pages e' r =
    let e1 = release_page c e i p in
    record {
      emptied = λ j b owner h. elim (Bool-cases (elem j pages)) [
        | inl l ↦ r.emptied j b owner l
        | inr l ↦
            let same : i ≡ j = ground arith in
            is_block_cached-same e1 e' j b owner (r.others j l)
            ∙ rw (← same) (released_empty c e i b p owner)
      ];
      others = λ j h. r.others j (ground arith) ∙ release_page-others c e i j p (ground arith);
      kept = λ j. r.kept j ∙ release_page-kept c e i j p k;
      freed = λ j. ground (arith, r.freed j);
      owners = r.owners;
      ordered = r.ordered;
      owners_free = r.owners_free;
    }

release_pages_lem :
    (c : Config) (e : Engine) (pages : List ℕ)
    → AreKnown e pages
    → (e' : Engine) × (release_pages c e pages ≡ ok e') × IsReleased c e pages e'
unfolding release_pages
release_pages_lem c e [] k = (
  e,
  refl,
  record {
    emptied = λ i b owner h. absurd (ground arith);
    others = λ i h. refl;
    kept = λ i. refl;
    freed = λ i. omega arith;
    owners = refl;
    ordered = refl;
    owners_free = refl;
  },
)
release_pages_lem c e (i ∷ pages) k =
    let (p, g) = known-some e i k.0 in
    let e1 = release_page c e i p in
    let (e', eq, r) = release_pages_lem c e1 pages (AreKnown-release c e i p k.0 pages k.1) in
    (e', rw g eq, IsReleased-cons c e i p k.0 pages e' r)

-- If the pages of a file are pages of the engine, then the removal of its blocks returns. No
-- block is then on one of these pages, every other page is as before, the free pages have each of
-- them once more for each time that the file had it, and the file has no pages.
pub remove_cached_blocks-freed :
    (c : Config) (e : Engine) (owner : String) (pages : List ℕ)
    → find owner e.owner_pages_mapping ≡ some pages
    → AreKnown e pages
    → (e' : Engine) × (remove_cached_blocks c e owner ≡ ok e')
      × ((i b : ℕ) (o : String) → elem i pages ≡ true → is_block_cached e' o (some i) b ≡ false)
      × ((i : ℕ) → elem i pages ≡ false → get_page_ptr e' i ≡ get_page_ptr e i)
      × ((i : ℕ) → count i e'.free_pages ≡ count i e.free_pages + count i pages)
      × (find owner e'.owner_pages_mapping ≡ none)
unfolding remove_cached_blocks get_page_ptr is_block_cached
remove_cached_blocks-freed c e owner pages h k =
    let e1 : Engine = record e {
      owner_free_pages_mapping = erase owner e.owner_free_pages_mapping;
    } in
    let (e', eq, r) = release_pages_lem c e1 pages k in
    (
      record e' {
        owner_pages_mapping = erase owner e'.owner_pages_mapping;
        owner_ordered_pages_mapping = erase owner e'.owner_ordered_pages_mapping;
      },
      rw (h, remove_cached_blocks) (rw eq refl),
      r.emptied,
      r.others,
      r.freed,
      ground (arith, find-erase owner owner e'.owner_pages_mapping, ==_refl owner),
    )

-- Every page of an owner is a page of the engine.
abbrev pub IsKnown : Engine → Type 0
IsKnown e =
    (o : String) (pages : List ℕ) → find o e.owner_pages_mapping ≡ some pages → AreKnown e pages

AreKnown-kept :
    (e e' : Engine) (pages : List ℕ)
    → ((i : ℕ) → contains i e'.search_index ≡ contains i e.search_index)
    → AreKnown e pages
    → AreKnown e' pages
AreKnown-kept e e' [] h k = tt
AreKnown-kept e e' (i ∷ pages) h k = (h i ∙ k.0, AreKnown-kept e e' pages h k.1)

-- The removal of a file's blocks returns, and keeps the pages known.
pub remove_cached_blocks-IsKnown :
    (c : Config) (e : Engine) (owner : String)
    → IsKnown e
    → (e' : Engine) × (remove_cached_blocks c e owner ≡ ok e') × IsKnown e'
unfolding remove_cached_blocks
remove_cached_blocks-IsKnown c e owner k = go (find owner e.owner_pages_mapping) refl
  where
    go :
        (o : Option (List ℕ))
        → find owner e.owner_pages_mapping ≡ o
        → (e' : Engine) × (remove_cached_blocks c e owner ≡ ok e') × IsKnown e'
    go none h = (
      record e { owner_free_pages_mapping = erase owner e.owner_free_pages_mapping },
      rw (h, remove_cached_blocks) refl,
      k,
    )
    go (some pages) h =
        let e1 : Engine = record e {
          owner_free_pages_mapping = erase owner e.owner_free_pages_mapping;
        } in
        let (e', eq, r) = release_pages_lem c e1 pages (k owner pages h) in
        (
          record e' {
            owner_pages_mapping = erase owner e'.owner_pages_mapping;
            owner_ordered_pages_mapping = erase owner e'.owner_ordered_pages_mapping;
          },
          rw (h, remove_cached_blocks) (rw eq refl),
          λ o ps f.
              AreKnown-kept e e' ps r.kept
                (k o ps (ground (arith, r.owners, find-erase owner o e'.owner_pages_mapping))),
        )

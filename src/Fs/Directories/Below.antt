-- ===== src/Fs/Directories/Below.antt =====
-- lazyfs.cpp, `lfs_get_dir_filenames`: the walk returns, with exactly the regular files below the
-- directory, where the directories make a tree.
use Prim.Native.String.{String}
use text.Mathlib.TextEquality.{eq_iff}
use lazyfs.Base.{
  ℕ, zero, suc, ◌<◌, ◌≡◌, refl, ◌∙◌, ◌⊎◌, inl, inr, Bool, true, false, ◌||◌, Option, none, some,
  List, [], ◌∷◌, ◌++◌, arith, if◌then◌else◌, string_eq, All, elem, get_elem?, Bool-cases,
  Option-cases, ==_refl,
}
use lazyfs.Os.{Os, Dirent}
use lazyfs.Fs.Directories.{base_path, is_dots, both, entries_filenames, lfs_get_dir_filenames}

-- A path is below a directory: it is that of a regular file among the entries, or it is below an entry.
-- The entries "." and ".." do not count.
pub data IsBelow (dirs : String → Option (List Dirent)) : String → String → Type 0 where
  file :
      {p q : String} (entries : List Dirent) (i : ℕ) (de : Dirent)
      → dirs p ≡ some entries
      → get_elem? entries i ≡ some de
      → is_dots de.d_name ≡ false
      → de.is_file ≡ true
      → base_path p de.d_name ≡ q
      → IsBelow dirs p q
  deeper :
      {p q : String} (entries : List Dirent) (i : ℕ) (de : Dirent)
      → dirs p ≡ some entries
      → get_elem? entries i ≡ some de
      → is_dots de.d_name ≡ false
      → IsBelow dirs (base_path p de.d_name) q
      → IsBelow dirs p q

module _ (dirs : String → Option (List Dirent)) where
  -- What one entry contributes, and what some entries do.
  abbrev Through : String → Dirent → String → Type 0
  Through p de q =
      (is_dots de.d_name ≡ false)
      × (((de.is_file ≡ true) × (base_path p de.d_name ≡ q))
          ⊎ IsBelow dirs (base_path p de.d_name) q)

  abbrev ThroughSome : String → List Dirent → String → Type 0
  ThroughSome p [] q = ⊥
  ThroughSome p (de ∷ entries) q = Through p de q ⊎ ThroughSome p entries q

  ThroughSome-at :
      (p q : String) (entries : List Dirent) (i : ℕ) (de : Dirent)
      → get_elem? entries i ≡ some de
      → Through p de q
      → ThroughSome p entries q
  ThroughSome-at p q [] i de h t = cc
  ThroughSome-at p q (d ∷ entries) zero de h t = let e : d ≡ de = ground arith in rw e (inl t)
  ThroughSome-at p q (d ∷ entries) (suc i) de h t = inr (ThroughSome-at p q entries i de h t)

  ThroughSome-find :
      (p q : String) (entries : List Dirent)
      → ThroughSome p entries q
      → (i : ℕ) × (de : Dirent) × (get_elem? entries i ≡ some de) × Through p de q
  ThroughSome-find p q [] t = absurd t
  ThroughSome-find p q (d ∷ entries) (inl t) = (0, d, refl, t)
  ThroughSome-find p q (d ∷ entries) (inr t) =
      let (i, de, h, r) = ThroughSome-find p q entries t in (suc i, de, h, r)

  IsBelow-ThroughSome :
      (p q : String) (entries : List Dirent)
      → dirs p ≡ some entries
      → IsBelow dirs p q
      → ThroughSome p entries q
  IsBelow-ThroughSome p q entries e (file es i de d h k f g) =
      let same : es ≡ entries = ground arith in
      ThroughSome-at p q entries i de (rw same at h) (k, inl (f, g))
  IsBelow-ThroughSome p q entries e (deeper es i de d h k b) =
      let same : es ≡ entries = ground arith in
      ThroughSome-at p q entries i de (rw same at h) (k, inr b)

  ThroughSome-IsBelow :
      (p q : String) (entries : List Dirent)
      → dirs p ≡ some entries
      → ThroughSome p entries q
      → IsBelow dirs p q
  ThroughSome-IsBelow p q entries e t =
      let (i, de, h, through) = ThroughSome-find p q entries t in
      elim through.1 [
        | inl (f, g) ↦ file entries i de e h through.0 f g
        | inr b ↦ deeper entries i de e h through.0 b
      ]

not-IsBelow :
    {dirs : String → Option (List Dirent)} (p q : String) → dirs p ≡ none → ¬ IsBelow dirs p q
not-IsBelow p q e (file es i de d h k f g) = cc
not-IsBelow p q e (deeper es i de d h k b) = cc

-- Each directory is higher than those among its entries.
abbrev pub IsHigher : (String → ℕ) → String → List Dirent → Type 0
IsHigher height p [] = Unit {0}
IsHigher height p (de ∷ entries) =
    (is_dots de.d_name ≡ false → height (base_path p de.d_name) < height p)
    × IsHigher height p entries

-- A walk returns paths, and these are the ones that the predicate holds of.
abbrev pub Lists : Option (List String) → (String → Type 0) → Type 0
Lists result P =
    (names : List String) × (result ≡ some names)
    × ((q : String) → elem q names ≡ true → P q)
    × ((q : String) → P q → elem q names ≡ true)

elem-append : (q : String) (a b : List String) → elem q (a ++ b) ≡ (elem q a || elem q b)
elem-append q [] b = refl
elem-append q (x ∷ a) b = ground (arith, elem-append q a b)

Lists-both :
    (r s : Option (List String)) (P Q : String → Type 0)
    → Lists r P
    → Lists s Q
    → Lists (both r s) (λ q. P q ⊎ Q q)
Lists-both r s P Q (a, ra, fromA, toA) (b, sb, fromB, toB) = (
  a ++ b,
  rw (ra, sb) refl,
  λ q h. elim (Bool-cases (elem q a)) [
    | inl e ↦ inl (fromA q e)
    | inr e ↦
        inr (
          fromB q
            (let k : (elem q a || elem q b) ≡ true = rw (elem-append q a b) at h in rw e at k))
  ],
  λ q h.
      rw (elem-append q a b)
        (elim h [ inl x ↦ rw (toA q x) refl | inr y ↦ let k = toB q y in ground arith ]),
)

Lists_iff :
    (r : Option (List String)) (P Q : String → Type 0)
    → ((q : String) → P q → Q q)
    → ((q : String) → Q q → P q)
    → Lists r P
    → Lists r Q
Lists_iff r P Q f g (a, ra, from, to) = (a, ra, λ q h. f q (from q h), λ q h. to q (g q h))

Lists_none : (P : String → Type 0) → ((q : String) → ¬ P q) → Lists (some []) P
Lists_none P empty = ([], refl, λ q h. cc, λ q h. absurd (empty q h))

Lists_one : (p : String) → Lists (some (p ∷ [])) (λ q. p ≡ q)
Lists_one p =
    (p ∷ [], refl, λ q h. ground (arith, eq_iff p q), λ q h. rw (← h) (rw (==_refl p) refl))

module _ (os : Os) (dirs : String → Option (List Dirent)) where
  -- The walk below an entry lists what is below it.
  abbrev Walks : (String → os.State → Option (List String) × os.State) → String → Dirent → Type 0
  Walks walk p de =
      is_dots de.d_name ≡ false
      → (w : os.State)
      → Lists (walk (base_path p de.d_name) w).0 (IsBelow dirs (base_path p de.d_name))

  -- A path alone, if a test holds.
  Lists_if :
      (b : Bool) (path : String)
      → Lists (some (if b then path ∷ [] else [])) (λ q. (b ≡ true) × (path ≡ q))
  Lists_if true path = Lists_iff _ _ _ (λ q e. (refl, e)) (λ q t. t.1) (Lists_one path)
  Lists_if false path = Lists_none _ (λ q t. let bad = t.0 in cc)

  entries_filenames-Lists :
      (walk : String → os.State → Option (List String) × os.State) (p : String)
      (entries : List Dirent) (w : os.State)
      → All (Walks walk p) entries
      → Lists (entries_filenames os walk p entries w).0 (ThroughSome dirs p entries)
  unfolding entries_filenames
  entries_filenames-Lists walk p [] w h = Lists_none _ (λ q t. t)
  entries_filenames-Lists walk p (de ∷ entries) w h = elim (Bool-cases (is_dots de.d_name)) [
    | inl e ↦ rw e (
        Lists_iff _ _ _
          (λ q t. elim t [ inl x ↦ absurd x | inr r ↦ elim r [ inl x ↦ absurd x | inr y ↦ inr y ] ])
          (λ q t. elim t [ inl x ↦ (let bad = x.0 in cc) | inr y ↦ inr (inr y) ])
          (Lists-both _ _ _ _ (Lists_none (λ q. ⊥) (λ q t. t)) (
            Lists-both _ _ _ _ (Lists_none (λ q. ⊥) (λ q t. t))
              (entries_filenames-Lists walk p entries w h.1))))
    | inr e ↦ rw e (
        Lists_iff _ _ _
          (λ q t. elim t [
            | inl x ↦ inl (refl, inl x)
            | inr r ↦ elim r [ inl x ↦ inl (refl, inr x) | inr y ↦ inr y ]
          ])
          (λ q t. elim t [
            | inl x ↦ elim x.1 [ inl y ↦ inl y | inr y ↦ inr (inl y) ]
            | inr y ↦ inr (inr y)
          ])
          (Lists-both _ _ _ _ (Lists_if de.is_file (base_path p de.d_name)) (
            Lists-both _ _ _ _ (h.0 e w)
              (entries_filenames-Lists walk p entries (walk (base_path p de.d_name) w).1 h.1))))
  ]

  module _ (height : String → ℕ)
      (tree : (p : String) (entries : List Dirent)
        → dirs p ≡ some entries
        → IsHigher height p entries)
      (opens : (p : String) (w : os.State) → (os.opendir p w).0 ≡ dirs p) where
    IsHigher-Walks :
        (walk : String → os.State → Option (List String) × os.State) (depth : ℕ)
        → ((p : String) (w : os.State) → height p < depth → Lists (walk p w).0 (IsBelow dirs p))
        → (p : String) (entries : List Dirent) → height p < suc depth
        → IsHigher height p entries
        → All (Walks walk p) entries
    IsHigher-Walks walk depth ih p [] h higher = tt
    IsHigher-Walks walk depth ih p (de ∷ entries) h higher = (
      λ e w. ih (base_path p de.d_name) w (let k = higher.0 e in omega arith),
      IsHigher-Walks walk depth ih p entries h higher.1,
    )

    -- If what `opendir` gives for a path does not depend on the state, and each directory is higher, by
    -- some measure, than those among its entries other than "." and "..", then a walk that may go
    -- deeper than the directory is high returns, and its paths are exactly those of the regular
    -- files below the directory.
    pub lfs_get_dir_filenames-Lists :
        (depth : ℕ) (p : String) (w : os.State)
        → height p < depth
        → Lists (lfs_get_dir_filenames os depth p w).0 (IsBelow dirs p)
    unfolding lfs_get_dir_filenames
    lfs_get_dir_filenames-Lists zero p w h = absurd (omega arith)
    lfs_get_dir_filenames-Lists (suc depth) p w h = elim (Option-cases (dirs p)) [
      | inl e ↦
          rw (opens p w ∙ e, lfs_get_dir_filenames) (Lists_none _ (λ q b. not-IsBelow p q e b))
      | inr (entries, e) ↦
          rw (opens p w ∙ e, lfs_get_dir_filenames)
            (Lists_iff _ _ _ (λ q. ThroughSome-IsBelow dirs p q entries e)
              (λ q. IsBelow-ThroughSome dirs p q entries e)
              (entries_filenames-Lists (lfs_get_dir_filenames os depth) p entries (os.opendir p w).1
                (IsHigher-Walks (lfs_get_dir_filenames os depth) depth
                  (lfs_get_dir_filenames-Lists depth) p entries h (tree p entries e))))
    ]

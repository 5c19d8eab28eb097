-- ===== src/Engine/Lru/Order.antt =====
-- custom_cache.cpp: the list of uses and its map of iterators.
use lazyfs.Base.{
  ℕ, nat_eq, ◌≤◌, ◌≡◌, ◌≢◌, refl, inl, inr, false, Option-cases, Bool-cases, none, some, List, [],
  ◌∷◌, arith, ltb, if◌then◌else◌, ◌==◌, string_eq, length,
}
use lazyfs.Base.Assoc.{
  find, find-put, find-erase, contains, contains-find, erase-IsUnique, put, IsUnique,
}
use lazyfs.Config.{Config}
use lazyfs.Engine.Lru.{
  LruState, back, pop_back, push_front, erase_node, drop_oldest, visit_on_write, visit_on_read,
  forget,
}

-- An iterator of the map leads to the node of its page, and each node of the list is that of its
-- page's iterator; the nodes have identities of their own, which new ones do not have.
pub record IsLru (l : LruState) : Type 0 where
  pub leads : (p i : ℕ) → find p l.page_order_mapping ≡ some i → find i l.lru_main_vector ≡ some p
  pub known : (i p : ℕ) → find i l.lru_main_vector ≡ some p → find p l.page_order_mapping ≡ some i
  pub unique : IsUnique l.lru_main_vector
  pub fresh : (i : ℕ) → l.next_node ≤ i → find i l.lru_main_vector ≡ none

-- What a new node at the front does to a list that has no node of its page.
push_front-IsLru :
    (l : LruState) (p : ℕ)
    → ((q i : ℕ)
        → (p == q) ≡ false
        → find q l.page_order_mapping ≡ some i
        → find i l.lru_main_vector ≡ some q)
    → ((i q : ℕ) → find i l.lru_main_vector ≡ some q → find q l.page_order_mapping ≡ some i)
    → IsUnique l.lru_main_vector
    → ((i : ℕ) → l.next_node ≤ i → find i l.lru_main_vector ≡ none)
    → ((i : ℕ) → find i l.lru_main_vector ≢ some p)
    → IsLru (push_front l p)
push_front-IsLru l p leads known unique fresh absent =
    let n = l.next_node in
    let new = fresh n (omega arith) in
    record {
      leads = λ q i h. ground (arith, h, find-put p q n l.page_order_mapping, leads q i, new);
      known =
          λ i q h. ground (arith, h, find-put p q n l.page_order_mapping, known i q, new, absent i);
      unique = (ground (arith, contains-find n l.lru_main_vector, new), unique);
      fresh = λ i h. ground (arith, fresh i);
    }

-- A page that has no iterator, and one whose node is erased.
push_new-IsLru :
    (l : LruState) (p : ℕ) → IsLru l → find p l.page_order_mapping ≡ none → IsLru (push_front l p)
push_new-IsLru l p v h =
    push_front-IsLru l p (λ q i _. v.leads q i) v.known v.unique v.fresh
      λ i e. let found = v.known i p e in cc

push_again-IsLru :
    (l : LruState) (p it : ℕ)
    → IsLru l
    → find p l.page_order_mapping ≡ some it
    → IsLru (push_front (erase_node l it) p)
push_again-IsLru l p it v h =
    push_front-IsLru (erase_node l it) p
      (λ q i ne e.
        ground (arith, h, ne, e, find-erase it i l.lru_main_vector, v.leads q i e, v.leads p it h))
      (λ i q e. ground (arith, e, find-erase it i l.lru_main_vector, v.known i q))
      (erase-IsUnique it l.lru_main_vector v.unique)
      (λ i e. ground (arith, e, find-erase it i l.lru_main_vector, v.fresh i))
      λ i e. ground (arith, h, e, find-erase it i l.lru_main_vector, v.known i p)

contains-pop_back :
    (i : ℕ) (xs : List (ℕ × ℕ)) → contains i xs ≡ false → contains i (pop_back xs) ≡ false
contains-pop_back i [] h = refl
contains-pop_back i (x ∷ []) h = refl
contains-pop_back i (x ∷ y ∷ xs) h = ground (arith, contains-pop_back i (y ∷ xs))

pop_back-IsUnique : (xs : List (ℕ × ℕ)) → IsUnique xs → IsUnique (pop_back xs)
pop_back-IsUnique [] u = tt
pop_back-IsUnique (x ∷ []) u = tt
pop_back-IsUnique (x ∷ y ∷ xs) u =
    (contains-pop_back x.0 (y ∷ xs) u.0, pop_back-IsUnique (y ∷ xs) u.1)

find-back : (j p : ℕ) (xs : List (ℕ × ℕ)) → IsUnique xs → back xs ≡ some (j, p) → find j xs ≡ some p
find-back j p [] u h = cc
find-back j p (x ∷ []) u h = ground arith
find-back j p (x ∷ y ∷ xs) u h =
    ground (arith, u.0, find-back j p (y ∷ xs) u.1 h, contains-find x.0 (y ∷ xs))

find-pop_back :
    (i j p : ℕ) (xs : List (ℕ × ℕ))
    → IsUnique xs
    → back xs ≡ some (j, p)
    → find i (pop_back xs) ≡ (if j == i then none else find i xs)
find-pop_back i j p [] u h = cc
find-pop_back i j p (x ∷ []) u h = ground arith
find-pop_back i j p (x ∷ y ∷ xs) u h = ground (
  arith,
  u.0,
  find-pop_back i j p (y ∷ xs) u.1 h,
  find-back j p (y ∷ xs) u.1 h,
  contains-find x.0 (y ∷ xs),
)

drop_oldest-IsLru : (l : LruState) → IsLru l → IsLru (drop_oldest l)
drop_oldest-IsLru l v = elim (Option-cases (back l.lru_main_vector)) [
  | inl e ↦ rw (drop_oldest, e) v
  | inr ((it, page), e) ↦
      let found = find-back it page l.lru_main_vector v.unique e in
      rw (drop_oldest, e)
        (record {
          leads = λ q i h. ground (
            arith,
            h,
            find-erase page q l.page_order_mapping,
            find-pop_back i it page l.lru_main_vector v.unique e,
            v.leads q i,
            found,
          );
          known = λ i q h. ground (
            arith,
            h,
            find-erase page q l.page_order_mapping,
            find-pop_back i it page l.lru_main_vector v.unique e,
            v.known i q,
            v.known it page found,
          );
          unique = pop_back-IsUnique l.lru_main_vector v.unique;
          fresh = λ i h.
              ground (arith, find-pop_back i it page l.lru_main_vector v.unique e, v.fresh i h);
        })
]

-- If each iterator of the map leads to the node of its page, each node is that of its page's iterator,
-- and the nodes' identities differ and are not those of new nodes, then this is so after a
-- visit for a write, also where the page that was used longest ago is dropped.
pub visit_on_write-IsLru :
    (c : Config) (l : LruState) (p : ℕ) → IsLru l → IsLru (visit_on_write c l p)
unfolding visit_on_write
visit_on_write-IsLru c l p v = elim (Option-cases (find p l.page_order_mapping)) [
  | inl e ↦
      let pushed = push_new-IsLru l p v e in
      elim (Bool-cases (ltb c.cache_nr_pages (length (put p l.next_node l.page_order_mapping)))) [
        | inl full ↦ rw (visit_on_write, e, full) (drop_oldest-IsLru (push_front l p) pushed)
        | inr room ↦ rw (visit_on_write, e, room) pushed
      ]
  | inr (it, e) ↦ rw (visit_on_write, e) (push_again-IsLru l p it v e)
]

-- So it is after a visit for a read and after the release of a page.
pub visit_on_read-IsLru : (l : LruState) (p : ℕ) → IsLru l → IsLru (visit_on_read l p)
unfolding visit_on_read
visit_on_read-IsLru l p v = elim (Option-cases (find p l.page_order_mapping)) [
  | inl e ↦ rw (visit_on_read, e) (push_new-IsLru l p v e)
  | inr (it, e) ↦ rw (visit_on_read, e) (push_again-IsLru l p it v e)
]

pub forget-IsLru : (l : LruState) (p : ℕ) → IsLru l → IsLru (forget l p)
unfolding forget
forget-IsLru l p v = elim (Option-cases (find p l.page_order_mapping)) [
  | inl e ↦ rw (forget, e) v
  | inr (it, e) ↦
      rw (forget, e)
        (record {
          leads = λ q i h. ground (
            arith,
            h,
            find-erase p q l.page_order_mapping,
            find-erase it i l.lru_main_vector,
            v.leads q i,
            v.leads p it e,
          );
          known = λ i q h. ground (
            arith,
            h,
            find-erase p q l.page_order_mapping,
            find-erase it i l.lru_main_vector,
            v.known i q,
            v.known it p (v.leads p it e),
          );
          unique = erase-IsUnique it l.lru_main_vector v.unique;
          fresh = λ i h. ground (arith, find-erase it i l.lru_main_vector, v.fresh i h);
        })
]

-- ===== src/Engine/Lru.antt =====
-- custom_cache.cpp: the order of the pages' last uses. A node of the list has an identity, for which an
-- iterator stands: `push_front` makes a new node, and the others keep theirs. An iterator that
-- dangles is that of no node of the list, and nothing is erased then.
pub mod Order
use lazyfs.Base.{
  ℕ, ◌+◌, nat_eq, Option, none, some, List, [], ◌∷◌, ltb, if◌then◌else◌, string_eq, length,
}
use lazyfs.Base.Assoc.{find, erase, put}
use lazyfs.Config.{Config}

-- `lru_main_vector` is the list of nodes with their pages, `page_order_mapping` gives a page's iterator.
pub record LruState : Type 0 where
  pub lru_main_vector : List (ℕ × ℕ)
  pub page_order_mapping : List (ℕ × ℕ)
  pub next_node : ℕ

abbrev pub back {ℓ} : {A : Type ℓ} → List A → Option A
back [] = none
back (x ∷ []) = some x
back (x ∷ y ∷ ys) = back (y ∷ ys)

abbrev pub pop_back {ℓ} : {A : Type ℓ} → List A → List A
pop_back [] = []
pop_back (x ∷ []) = []
pop_back (x ∷ y ∷ ys) = x ∷ pop_back (y ∷ ys)

-- `push_front`, and the iterator of the page to the new node.
abbrev pub push_front : LruState → ℕ → LruState
push_front l page = record {
  lru_main_vector = (l.next_node, page) ∷ l.lru_main_vector;
  page_order_mapping = put page l.next_node l.page_order_mapping;
  next_node = l.next_node + 1;
}

abbrev pub erase_node : LruState → ℕ → LruState
erase_node l it = record l { lru_main_vector = erase it l.lru_main_vector }

-- The last page leaves the map, and then the list.
abbrev pub drop_oldest : LruState → LruState
drop_oldest l = elim (back l.lru_main_vector) [
  | none ↦ l
  | some (it, page) ↦ record l {
    lru_main_vector = pop_back l.lru_main_vector;
    page_order_mapping = erase page l.page_order_mapping;
  }
]

-- `_apply_lru_after_page_visitation_on_WRITE`
unfoldable pub visit_on_write : Config → LruState → ℕ → LruState
visit_on_write c l visited_page_id = elim (find visited_page_id l.page_order_mapping) [
  | none ↦
      let pushed = push_front l visited_page_id in
      if ltb c.cache_nr_pages (length pushed.page_order_mapping) then drop_oldest pushed else pushed
  | some it ↦ push_front (erase_node l it) visited_page_id
]

-- `_apply_lru_after_page_visitation_on_READ`
unfoldable pub visit_on_read : LruState → ℕ → LruState
visit_on_read l visited_page_id = elim (find visited_page_id l.page_order_mapping) [
  | none ↦ push_front l visited_page_id
  | some it ↦ push_front (erase_node l it) visited_page_id
]

-- A page that becomes free leaves the list.
unfoldable pub forget : LruState → ℕ → LruState
forget l page_id = elim (find page_id l.page_order_mapping) [
  | none ↦ l
  | some it ↦ record (erase_node l it) { page_order_mapping = erase page_id l.page_order_mapping }
]

-- ===== src/Item/Updates.antt =====
-- item.cpp: `update_metadata` changes the fields that are named, and no other.
use lazyfs.Base.{
  string_eq, String, List, [], ◌∷◌, elem, ◌≡◌, refl, arith, if◌then◌else◌, nat_eq, eq_apart,
}
use lazyfs.Item.{Item, Metadata, update_metadata, update_fields, update_field}

-- The fields after an update, each one new exactly if its name is in the list.
pub record IsUpdated (old new' m : Metadata) (values : List String) : Type 0 where
  pub size_lem : m.size ≡ (if elem "size" values then new'.size else old.size)
  pub atim_lem : m.atim ≡ (if elem "atime" values then new'.atim else old.atim)
  pub ctim_lem : m.ctim ≡ (if elem "ctime" values then new'.ctim else old.ctim)
  pub mtim_lem : m.mtim ≡ (if elem "mtime" values then new'.mtim else old.mtim)
  pub nlinks_lem : m.nlinks ≡ (if elem "nlinks" values then new'.nlinks else old.nlinks)

update_fields-IsUpdated :
    (old new' : Metadata) (values : List String)
    → IsUpdated old new' (update_fields old new' values) values
unfolding update_fields
update_fields-IsUpdated old new' [] = record {
  size_lem = refl;
  atim_lem = refl;
  ctim_lem = refl;
  mtim_lem = refl;
  nlinks_lem = refl;
}
update_fields-IsUpdated old new' (str ∷ values) =
    let ih = update_fields-IsUpdated (update_field old new' str) new' values in
    record {
      size_lem = ground (arith, ih.size_lem);
      atim_lem = ground (arith, ih.atim_lem, eq_apart str "size" "atime" refl);
      ctim_lem =
          ground (
            arith,
            ih.ctim_lem,
            eq_apart str "size" "ctime" refl,
            eq_apart str "atime" "ctime" refl,
          );
      mtim_lem = ground (
        arith,
        ih.mtim_lem,
        eq_apart str "size" "mtime" refl,
        eq_apart str "atime" "mtime" refl,
        eq_apart str "ctime" "mtime" refl,
      );
      nlinks_lem = ground (
        arith,
        ih.nlinks_lem,
        eq_apart str "size" "nlinks" refl,
        eq_apart str "atime" "nlinks" refl,
        eq_apart str "ctime" "nlinks" refl,
        eq_apart str "mtime" "nlinks" refl,
      );
    }

-- `update_metadata` gives a field its new value exactly if the field's name is in the list, and
-- changes nothing else of the item.
pub update_metadata-IsUpdated :
    (item : Item) (new' : Metadata) (values : List String)
    → let r = update_metadata item new' values in
      IsUpdated item.metadata new' r.metadata values
      × (r.content ≡ item.content)
      × (r.data_synced ≡ item.data_synced)
unfolding update_metadata
update_metadata-IsUpdated item new' values =
    (update_fields-IsUpdated item.metadata new' values, refl, refl)

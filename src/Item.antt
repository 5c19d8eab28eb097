-- ===== src/Item.antt =====
-- libs/libpcache/src/item/item.cpp and metadata.cpp: what the cache knows of one file. The names
-- of the fields to update are strings, as in the source.
pub mod Blocks
pub mod Updates
pub mod Truncate
use lazyfs.Base.{ℕ, string_eq, if◌then◌else◌, ◌==◌, List, [], ◌∷◌, String, Bool, true, nat_eq}
use Blocks
use Blocks.{Data}

-- `struct timespec`
pub record Timespec : Type 0 where
  pub tv_sec : ℕ
  pub tv_nsec : ℕ

pub record Metadata : Type 0 where
  pub nlinks : ℕ
  pub size : ℕ
  pub atim : Timespec
  pub ctim : Timespec
  pub mtim : Timespec

abbrev pub zero_time : Timespec
zero_time = record { tv_sec = 0; tv_nsec = 0 }

-- The constructor leaves the times as they are in memory; here they are zero.
abbrev pub new_metadata : Metadata
new_metadata = record { nlinks = 1; size = 0; atim = zero_time; ctim = zero_time; mtim = zero_time }

pub record Item : Type 0 where
  pub data_synced : Bool
  pub content : Data
  pub metadata : Metadata

abbrev pub new_item : Item
new_item = record { data_synced = true; content = Blocks.empty; metadata = new_metadata }

-- One round of the loop of `update_metadata`.
unfoldable pub update_field : Metadata → Metadata → String → Metadata
update_field oldmeta new_meta str =
    if str == "size"
    then record oldmeta { size = new_meta.size }
    else if str == "atime"
    then record oldmeta { atim = new_meta.atim }
    else if str == "ctime"
    then record oldmeta { ctim = new_meta.ctim }
    else if str == "mtime"
    then record oldmeta { mtim = new_meta.mtim }
    else if str == "nlinks"
    then record oldmeta { nlinks = new_meta.nlinks }
    else oldmeta

unfoldable pub update_fields : Metadata → Metadata → List String → Metadata
unfolding update_field
update_fields oldmeta new_meta [] = oldmeta
update_fields oldmeta new_meta (str ∷ values) =
    update_fields (update_field oldmeta new_meta str) new_meta values

unfoldable pub update_metadata : Item → Metadata → List String → Item
unfolding update_fields
update_metadata item new_meta values_to_update = record item {
  metadata = update_fields item.metadata new_meta values_to_update;
}

unfoldable pub set_data_sync_flag : Item → Bool → Item
set_data_sync_flag item flag = record item { data_synced = flag }

-- ===== src/Tests/Data.antt =====
-- Test data: a cache of two pages of two blocks of two bytes, its pages, and an operating system
-- on which every call succeeds.
use lazyfs.Base.{
  ◌%◌, true, ℕ, String, ◌==◌, string_eq, List, refl, false, none, some, [], ◌∷◌, arith, nat_eq,
  length,
}
use lazyfs.Config.{Config, IsSound, default_config}
use lazyfs.Faults.{pos}
use lazyfs.Os.{Os, Stat}
use Prim.Native.String.{◌++◌}
use lazyfs.Page.{Page, reset, get_allocate_free_offset, contains_block, push_indexes}
use lazyfs.Page.Offsets
use lazyfs.Engine.{Engine, Entry}
use lazyfs.Cache.{Cache}
use lazyfs.Item.{new_item, zero_time}
use lazyfs.Page.Slots.{IsValid, reset-IsValid, get_allocate_free_offset-IsValid}

abbrev pub small : Config
small = record default_config { cache_nr_pages = 2; cache_page_size = 4; io_block_size = 2 }

pub small-IsSound : IsSound small
small-IsSound = record { positive = omega arith; divides = refl }

abbrev pub zero_stat : Stat
zero_stat = record {
  is_regular = true;
  is_directory = false;
  st_ino = 9;
  st_size = 0;
  st_blocks = 0;
  st_nlink = 1;
  st_atim = zero_time;
  st_ctim = zero_time;
  st_mtim = zero_time;
}

-- Every call succeeds and leaves no trace. An expression matches the text it was made of.
abbrev pub quiet : Os
quiet = record {
  State = Unit {0};
  iov_max = 2;
  open_write = λ path w. (some 3, w);
  pwrite = λ fd bytes off w. (some (length bytes), w);
  pwritev = λ fd iov off w. (some 0, w);
  ftruncate = λ fd size w. (false, w);
  close = λ fd w. w;
  utimes = λ path a m w. w;
  open_read = λ path w. (some 4, w);
  open_create = λ path w. (some 5, w);
  open_flags = λ path flags w. (some 6, w);
  pread = λ fd size off w. (some [], w);
  lstat = λ path w. (some zero_stat, w);
  stat = λ path w. (some zero_stat, w);
  clock = λ w. (zero_time, w);
  rename = λ from to w. (true, w);
  link = λ from to w. (true, w);
  symlink = λ from to w. (true, w);
  unlink = λ path w. (true, w);
  access = λ path mask w. (true, w);
  truncate = λ path size w. (true, w);
  fsync = λ fd w. (true, w);
  fdatasync = λ fd w. (true, w);
  errno = λ w. 0;
  to_string = λ n. "9";
  Regex = String;
  regex = λ text. some text;
  regex_match = λ text rgx. ".*" ++ text ++ ".*" == rgx;
  numbers = λ text. some (pos 1 ∷ pos 2 ∷ []);
  stoi = λ text. some (pos 2);
  open_mode = λ path flags mode w. (some 7, w);
  has_o_trunc = λ flags. false;
  access_mode = λ flags. flags % 4;
  o_rdonly = 0;
  o_wronly = 1;
  o_rdwr = 2;
  o_creat = 64;
  read = λ fd size w. (none, w);
  write = λ fd text w. (true, w);
  opendir = λ path w. (none, w);
  closedir = λ path w. w;
  mkdir = λ path mode w. (true, w);
  rmdir = λ path w. (true, w);
  chmod = λ path mode w. (true, w);
  lchown = λ path uid gid w. (true, w);
  utimensat = λ path times w. (true, w);
  lsetxattr = λ path name value flags w. (true, w);
  lremovexattr = λ path name w. (true, w);
  mkfifo = λ path mode w. (true, w);
  readlink = λ path size w. (some [], w);
  lgetxattr = λ path name size w. (some [], w);
  llistxattr = λ path size w. (some [], w);
  lseek = λ fd off whence w. (some 0, w);
  einval = 22;
  eexist = 17;
  strcasestr = λ text part. text == part;
}

abbrev pub blank : Page
blank = record {
  is_dirty = false;
  page_owner_id = "7";
  free_block_indexes = 2 ∷ 0 ∷ [];
  page_data = 0 ∷ 0 ∷ 0 ∷ 0 ∷ [];
  allocated_block_ids = Offsets.reset;
}

pub blank-IsValid : IsValid small blank
unfolding reset push_indexes
blank-IsValid = reset-IsValid small blank small-IsSound

-- Block 5 lies in the second slot.
abbrev pub upper : Page
upper = record blank {
  free_block_indexes = 0 ∷ [];
  allocated_block_ids = record {
    block_offset_mapping = (5, (2, 3)) ∷ [];
    block_readable_to = (5, none) ∷ [];
  };
}

pub upper-IsValid : IsValid small upper
unfolding get_allocate_free_offset contains_block
upper-IsValid = get_allocate_free_offset-IsValid small blank 5 small-IsSound blank-IsValid refl

-- Block 6 lies in the first slot too.
abbrev pub filled : Page
filled = record blank {
  free_block_indexes = [];
  allocated_block_ids = record {
    block_offset_mapping = (6, (0, 1)) ∷ (5, (2, 3)) ∷ [];
    block_readable_to = (6, none) ∷ (5, none) ∷ [];
  };
}

pub filled-IsValid : IsValid small filled
unfolding get_allocate_free_offset contains_block
filled-IsValid = get_allocate_free_offset-IsValid small upper 6 small-IsSound upper-IsValid refl

-- The file "7" has page 0, with its blocks 5 and 6; page 1 is free.
abbrev pub spare : Page
spare = record blank { page_owner_id = "none" }

abbrev pub entry : Entry
entry = record { page_id = 0; offsets = some (2, 3); is_synced = true }

abbrev pub owned_blocks : List (ℕ × Entry)
owned_blocks = (5, entry) ∷ (6, record entry { offsets = some (0, 1) }) ∷ []

abbrev pub engine : Engine
engine = record {
  lru = record { lru_main_vector = (0, 0) ∷ []; page_order_mapping = (0, 0) ∷ []; next_node = 1 };
  search_index = (0, filled) ∷ (1, spare) ∷ [];
  free_pages = 1 ∷ [];
  owner_pages_mapping = ("7", 0 ∷ []) ∷ [];
  owner_ordered_pages_mapping = ("7", owned_blocks) ∷ [];
  owner_free_pages_mapping = ("7", 0 ∷ []) ∷ [];
}

abbrev pub cache : Cache
cache = record {
  engine = engine;
  contents = ("7", new_item) ∷ ("8", new_item) ∷ [];
  file_inode_mapping = ("a", "7") ∷ ("b", "8") ∷ [];
}

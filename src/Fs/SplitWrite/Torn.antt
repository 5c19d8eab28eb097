-- ===== src/Fs/SplitWrite/Torn.antt =====
-- lazyfs.cpp, `split_write`: what a torn-op fault leaves of a write.
use lazyfs.Base.{ℕ, String, Option, List, [], ◌∷◌, ◌++◌, nat_eq, string_eq, take, drop}
use lazyfs.Base.Assoc.{put}
use lazyfs.Os.{Os}
use lazyfs.Faults.{Fault}
use lazyfs.Fs.{Fs}
use lazyfs.Fs.SplitWrite.{Part}

module _ (os : Os) where
  -- What the operating system holds when the parts of a buffer are written.
  abbrev pub parts_stored : Option ℕ → List ℕ → List Part → os.State → os.State
  parts_stored fd buf [] w = w
  parts_stored fd buf (p ∷ ps) w =
      parts_stored fd buf ps (os.pwrite fd (take p.size (drop p.buf_i buf)) p.off w).1

  -- The state after them.
  abbrev written : List Fault → String → List ℕ → List Part → Fs os → Fs os
  written v' path buf ps s = record s {
    injecting_fault = s.injecting_fault ++ path ∷ [];
    faults = put path v' s.faults;
    world = let (fd, w) = os.open_create path s.world in parts_stored fd buf ps w;
  }

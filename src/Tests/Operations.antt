-- ===== src/Tests/Operations.antt =====
-- The theorems on the operations of the file system at concrete inputs.
use lazyfs.Base.{Bool, ◌≡◌, refl, false, none, some, List, [], ◌∷◌, arith, nat_eq, string_eq}
use lazyfs.Base.Run.{ok}
use lazyfs.Os.{Stat}
use lazyfs.Item.{Metadata}
use lazyfs.Cache.{Cache, get_content_metadata}
use lazyfs.Faults.Registry.{is_reorder, is_split_write}
use lazyfs.Faults.{
  validate_reorder, pos, Fault, ReorderF, SplitWriteF, ClearF, reorder, split_write as torn_op,
}
use lazyfs.Fs.{Fs, new, done, ◌>>=◌}
use lazyfs.Fs.PersistWrite.{last_reorder, persist_write}
use lazyfs.Fs.PersistWrite.Restart.{end_group, persist_write-single}
use lazyfs.Fs.Commands.{add_torn_op, add_torn_seq}
use lazyfs.Fs.Commands.Single.{IsAdded, check_split, given_split, given_seq, add_torn-IsSingle}
use lazyfs.Faults.Registry.Every.{Every, IsSingle}
use lazyfs.Fs.PersistWrite.Steps.{IsTracked}
use lazyfs.Fs.PersistWrite.Groups.{write_all, keep, persist_write-group}
use lazyfs.Fs.SplitWrite.{split_write}
use lazyfs.Fs.Writes.{blocks_of}
use lazyfs.Fs.Writes.Ranges.{Covers, blocks_of-Covers}
use lazyfs.Fs.Attributes.{regular_attributes, find_inode}
use lazyfs.Fs.Attributes.Cached.{IsOf, regular_attributes-IsOf}
use lazyfs.Tests.Data.{small, quiet, cache, zero_stat}

-- A file system with faults of one file.
abbrev with_faults : List Fault → Fs quiet
with_faults v = new quiet small cache (("/a", v) ∷ []) tt

-- Of three writes the first and the third are to persist.
abbrev torn_seq : ReorderF
torn_seq = record {
  op = "write";
  counter = 0;
  persist = pos 1 ∷ pos 3 ∷ [];
  occurrence = pos 1;
  group_counter = 0;
}

abbrev sequence : Fs quiet
sequence = with_faults (reorder torn_seq ∷ [])

sequence-IsTracked : IsTracked quiet "/a" torn_seq sequence
unfolding new last_reorder
sequence-IsTracked = record {
  v_faults = reorder torn_seq ∷ [];
  found = refl;
  last = refl;
  list = [];
  known = refl;
}

persist_write-group_example :
    (s : Fs quiet) × (write_all quiet "/a" ((1 ∷ [], 0) ∷ (2 ∷ [], 1) ∷ (3 ∷ [], 2) ∷ []) sequence
      ≡ done tt s)
    × (s.world
        ≡ keep quiet "/a" (pos 1 ∷ pos 3 ∷ []) 1 ((1 ∷ [], 0) ∷ (2 ∷ [], 1) ∷ (3 ∷ [], 2) ∷ []) tt)
unfolding new
persist_write-group_example =
    persist_write-group quiet "/a" (λ fd buf offset w. refl) ".*/a.*" refl torn_seq sequence
      (1 ∷ [], 0) (2 ∷ [], 1) ((3 ∷ [], 2) ∷ []) sequence-IsTracked refl refl refl refl

-- The second of two parts is to persist.
abbrev torn : SplitWriteF
torn = record {
  occurrence = pos 1;
  counter = 0;
  persist = pos 2 ∷ [];
  parts = pos 2;
  parts_bytes = [];
}

-- Five bytes at offset 3, in blocks of four.
blocks_of-Covers_example : Covers 4 3 0 5 (blocks_of 4 3 5)
blocks_of-Covers_example = blocks_of-Covers 4 3 5 (omega arith) (omega arith) (omega arith)

abbrev after_fsync : ClearF
after_fsync = record {
  timing = "after";
  op = "fsync";
  from = "/a";
  to = "none";
  occurrence = pos 1;
  counter = 1;
  crash = false;
}

-- A file that the cache does not know.
regular_attributes-IsOf_example :
    (st : Stat) × (cache' : Cache) × (w : Unit {0}) × (meta : Metadata) × (regular_attributes quiet
        small "/a" zero_stat cache tt
      ≡ ok (some st, cache', w))
    × (get_content_metadata cache' (find_inode quiet "/a" zero_stat cache).0 ≡ some meta)
    × IsOf meta st
regular_attributes-IsOf_example = regular_attributes-IsOf quiet small "/a" zero_stat cache tt

-- The file "a" has the inode "7", and its size is 4.
abbrev long : Cache
long = record cache {
  contents =
      ("7", record lazyfs.Item.new_item { metadata = record lazyfs.Item.new_metadata { size = 4 } })
      ∷ [];
}

abbrev longer : Fs quiet
longer = new quiet small long [] tt

-- One write, which is put on hold.
persist_write-single_example :
    (b : Bool) × (s : Fs quiet) × ((persist_write quiet "/a" (1 ∷ []) 0 >>= λ _.
    end_group quiet "/a")
        sequence
      ≡ done b s)
    × IsTracked quiet "/a" torn_seq s
    × (s.pending_write ≡ none)
    × (s.world ≡ tt)
unfolding new
persist_write-single_example =
    persist_write-single quiet "/a" (λ fd buf offset w. refl) ".*/a.*" refl torn_seq sequence
      (1 ∷ []) 0 sequence-IsTracked refl refl

-- The first of two parts, and the first write of a sequence.
add_torn-IsSingle_example :
    let torn_op' = add_torn_op "/a" (pos 1) (pos 1 ∷ []) (pos 2) [] [] in
    let torn_seq' = add_torn_seq "/a" "write" (pos 1 ∷ []) (pos 1) [] in
    IsAdded
      (check_split (pos 1) (pos 2) (pos 1 ∷ []) [])
      is_split_write
      "/a"
      (torn_op (given_split (pos 1) (pos 2) (pos 1 ∷ []) []))
      []
      torn_op'
    × Every IsSingle torn_op'.1
    × IsAdded
        (validate_reorder (given_seq "write" (pos 1) (pos 1 ∷ [])))
        is_reorder
        "/a"
        (reorder (given_seq "write" (pos 1) (pos 1 ∷ [])))
        []
        torn_seq'
    × Every IsSingle torn_seq'.1
add_torn-IsSingle_example =
    add_torn-IsSingle "/a" "write" (pos 1) (pos 2) (pos 1 ∷ []) [] [] (λ file v h. cc)

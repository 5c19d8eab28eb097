-- ===== src/Os.antt =====
-- The system calls and the regular expressions of the C++ library that the code uses: a parameter of the model. A call may do anything to the
-- state and may fail; what a theorem relies on is one of its hypotheses.
use lazyfs.Base.{ℕ, String, Bool, Option, List, nat_eq, string_eq}
use lazyfs.Item.{Timespec}
use lazyfs.Faults.{ℤ}

-- `struct stat`, as far as it is used
pub record Stat : Type 0 where
  -- `S_ISREG (st_mode)`
  pub is_regular : Bool
  -- `S_ISDIR (st_mode)`
  pub is_directory : Bool
  pub st_ino : ℕ
  pub st_size : ℕ
  pub st_blocks : ℕ
  pub st_nlink : ℕ
  pub st_atim : Timespec
  pub st_ctim : Timespec
  pub st_mtim : Timespec

-- `struct dirent`, as far as it is used; `is_file` is `d_type == DT_REG`
pub record Dirent : Type 0 where
  pub d_name : String
  pub d_ino : ℕ
  pub d_type : ℕ
  pub is_file : Bool

-- A descriptor, or `none` for -1; a number of bytes, or `none` for -1.
pub record Os : Type 1 where
  pub State : Type 0
  -- `__IOV_MAX` of limits.h
  pub iov_max : ℕ
  -- `open (path, O_WRONLY)`
  pub open_write : String → State → Option ℕ × State
  pub pwrite : Option ℕ → List ℕ → ℕ → State → Option ℕ × State
  pub pwritev : Option ℕ → List (List ℕ) → ℕ → State → Option ℕ × State
  -- true if `ftruncate` returns a negative number
  pub ftruncate : Option ℕ → ℕ → State → Bool × State
  pub close : Option ℕ → State → State
  -- access and modification time, in seconds and microseconds
  pub utimes : String → ℕ × ℕ → ℕ × ℕ → State → State
  -- `open (path, O_RDONLY)`, `open (path, O_CREAT|O_WRONLY, 0666)`, and `open` with given flags
  pub open_read : String → State → Option ℕ × State
  pub open_create : String → State → Option ℕ × State
  pub open_flags : String → ℕ → State → Option ℕ × State
  -- the bytes that were read, or `none` for -1
  pub pread : Option ℕ → ℕ → ℕ → State → Option (List ℕ) × State
  -- `lstat` and `stat`; `none` for -1
  pub lstat : String → State → Option Stat × State
  pub stat : String → State → Option Stat × State
  -- `clock_gettime (CLOCK_REALTIME, &t)`
  pub clock : State → Timespec × State
  -- true if the call returns 0, false if it returns -1
  pub rename : String → String → State → Bool × State
  pub link : String → String → State → Bool × State
  pub symlink : String → String → State → Bool × State
  pub unlink : String → State → Bool × State
  pub access : String → ℕ → State → Bool × State
  pub truncate : String → ℕ → State → Bool × State
  pub fsync : Option ℕ → State → Bool × State
  pub fdatasync : Option ℕ → State → Bool × State
  -- `errno` of the last call that failed
  pub errno : State → ℕ
  -- `std::to_string`
  pub to_string : ℕ → String
  -- `std::regex`; the constructor throws `regex_error` where there is none
  pub Regex : Type 0
  pub regex : String → Option Regex
  pub regex_match : String → Regex → Bool
  -- the numbers of a text, which are what matches `\\d+`, by `std::stoi`, and `std::stoi` of a text;
  -- `none` where `stoi` throws
  pub numbers : String → Option (List ℤ)
  pub stoi : String → Option ℤ
  -- `open (path, flags, mode)`
  pub open_mode : String → ℕ → ℕ → State → Option ℕ × State
  -- `flags & O_TRUNC` and `flags & O_ACCMODE`, and the values of fcntl.h
  pub has_o_trunc : ℕ → Bool
  pub access_mode : ℕ → ℕ
  pub o_rdonly : ℕ
  pub o_wronly : ℕ
  pub o_rdwr : ℕ
  pub o_creat : ℕ
  -- what a FIFO gives, at most as many characters as are asked for, or `none` for -1
  pub read : Option ℕ → ℕ → State → Option String × State
  -- true if the text was written
  pub write : Option ℕ → String → State → Bool × State
  -- `opendir` with the entries that `readdir` goes through, and `closedir`
  pub opendir : String → State → Option (List Dirent) × State
  pub closedir : String → State → State
  -- calls that give 0 or -1
  pub mkdir : String → ℕ → State → Bool × State
  pub rmdir : String → State → Bool × State
  pub chmod : String → ℕ → State → Bool × State
  pub lchown : String → ℕ → ℕ → State → Bool × State
  pub utimensat : String → Timespec × Timespec → State → Bool × State
  pub lsetxattr : String → String → List ℕ → ℕ → State → Bool × State
  pub lremovexattr : String → String → State → Bool × State
  pub mkfifo : String → ℕ → State → Bool × State
  -- the bytes that are written into a buffer of a given size, or `none` for -1
  pub readlink : String → ℕ → State → Option (List ℕ) × State
  pub lgetxattr : String → String → ℕ → State → Option (List ℕ) × State
  pub llistxattr : String → ℕ → State → Option (List ℕ) × State
  pub lseek : Option ℕ → ℤ → ℕ → State → Option ℕ × State
  -- values of errno.h
  pub einval : ℕ
  pub eexist : ℕ
  -- `strcasestr (text, part)` finds the part
  pub strcasestr : String → String → Bool

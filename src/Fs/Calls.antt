-- ===== src/Fs/Calls.antt =====
-- lazyfs.cpp: the operations that only pass a call on. A lock that a thread shares with itself is granted.
use lazyfs.Base.{
  ℕ, ◌+◌, ◌-◌, ◌%◌, ◌^◌, String, Bool, Option, none, some, List, [], ◌∷◌, ◌++◌, if◌then◌else◌,
  length,
}
use lazyfs.Os.{Os}
use lazyfs.Item.{Timespec}
use lazyfs.Faults.{ℤ}
use lazyfs.Fs.{Op, done, ◌>>=◌, give, call}
use lazyfs.Fs.Writes.{Reply, success, error, FileInfo}

module _ (os : Os) where
  -- 0, or minus the number of the error.
  unfoldable pub pass_on : (os.State → Bool × os.State) → Op os Reply
  pass_on f =
      call f >>= λ res. if res then give (success 0) else (λ s. done (error (os.errno s.world)) s)

  -- The number of bytes that a call gives, with these.
  unfoldable pub pass_bytes : (os.State → Option (List ℕ) × os.State) → Op os (Reply × List ℕ)
  pass_bytes f = call f >>= λ res. elim res [
    | none ↦ (λ s. done (error (os.errno s.world), []) s)
    | some bytes ↦ give (success (length bytes), bytes)
  ]

  unfoldable pub lfs_mkdir : String → ℕ → Op os Reply
  unfolding pass_on
  lfs_mkdir path mode = pass_on (os.mkdir path mode)

  unfoldable pub lfs_rmdir : String → Op os Reply
  unfolding pass_on
  lfs_rmdir path = pass_on (os.rmdir path)

  unfoldable pub lfs_chmod : String → ℕ → Op os Reply
  unfolding pass_on
  lfs_chmod path mode = pass_on (os.chmod path mode)

  unfoldable pub lfs_chown : String → ℕ → ℕ → Op os Reply
  unfolding pass_on
  lfs_chown path uid gid = pass_on (os.lchown path uid gid)

  unfoldable pub lfs_utimens : String → Timespec × Timespec → Op os Reply
  unfolding pass_on
  lfs_utimens path ts = pass_on (os.utimensat path ts)

  unfoldable pub lfs_setxattr : String → String → List ℕ → ℕ → Op os Reply
  unfolding pass_on
  lfs_setxattr path name value flags = pass_on (os.lsetxattr path name value flags)

  unfoldable pub lfs_removexattr : String → String → Op os Reply
  unfolding pass_on
  lfs_removexattr path name = pass_on (os.lremovexattr path name)

  unfoldable pub lfs_getxattr : String → String → ℕ → Op os (Reply × List ℕ)
  unfolding pass_bytes
  lfs_getxattr path name size = pass_bytes (os.lgetxattr path name size)

  unfoldable pub lfs_listxattr : String → ℕ → Op os (Reply × List ℕ)
  unfolding pass_bytes
  lfs_listxattr path size = pass_bytes (os.llistxattr path size)

  -- The bytes end with a zero. `size - 1` of a size of 0 is the largest `size_t`.
  unfoldable pub lfs_readlink : String → ℕ → Op os (Reply × List ℕ)
  lfs_readlink path size = call (os.readlink path ((size + (2 ^ 64 - 1)) % 2 ^ 64)) >>= λ res.
      elim res [
        | none ↦ (λ s. done (error (os.errno s.world), []) s)
        | some bytes ↦ give (success 0, bytes ++ (0 ∷ []))
      ]

  unfoldable pub lfs_release : FileInfo → Op os Reply
  lfs_release fi = call (λ w. (success 0, os.close fi.fh w))

  -- The number of the error is read before the file is closed.
  unfoldable pub lfs_lseek : Option FileInfo → String → ℤ → ℕ → Op os Reply
  lfs_lseek fi path off whence = do
    fd ← (elim fi [ none ↦ call (os.open_read path) | some i ↦ give i.fh ])
    (elim fd [
      | none ↦ (λ s. done (error (os.errno s.world)) s)
      | some n ↦ (do
        res ← call (os.lseek (some n) off whence)
        reply ← (elim res [
          | none ↦ (λ s. done (error (os.errno s.world)) s)
          | some position ↦ give (success position)
        ])
        _ ← (elim fi [ none ↦ call (λ w. (tt, os.close (some n) w)) | some _ ↦ give tt ])
        give reply)
    ])

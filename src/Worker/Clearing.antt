-- ===== src/Worker/Clearing.antt =====
-- lazyfs/src/main.cpp, `fht_worker`: what the command "lazyfs::clear-cache" leads to.
use lazyfs.Base.{ℕ, suc, ◌≡◌, refl, Option, some, [], string_eq}
use lazyfs.Os.{Os}
use lazyfs.Cache.{Cache}
use lazyfs.Cache.Clear.{clear_all_cache-empty}
use lazyfs.Engine.Release.Removal.{IsKnown}
use lazyfs.Fs.{Fs, done}
use lazyfs.Fs.Hooks.{command_fault_clear_cache}
use lazyfs.Worker.{handle_command, worker_loop, clear_cache_command, no_complaint}
use lazyfs.Worker.Text.{has_prefix, c_string, drop_last}

handle_command-clear_cache :
    (os : Os) (fd : Option ℕ) (s : Fs os)
    → IsKnown s.cache.engine
    → (cache : Cache) × (cache.contents ≡ [])
      × (handle_command os (some fd) "lazyfs::clear-cache" s
          ≡ done no_complaint (record s {
            cache = cache;
            world = (os.write fd "finished::clear-cache\n" s.world).1;
          }))
unfolding handle_command clear_cache_command command_fault_clear_cache has_prefix
handle_command-clear_cache os fd s k =
    let (cache, e, empty, _) = clear_all_cache-empty s.config s.cache k in (cache, empty, rw e refl)

-- If the worker, which has opened a FIFO for completed faults, reads the line "lazyfs::clear-cache",
-- and the pages of the owners are pages of the engine, then it goes on to its next round with a
-- cache that has no content, after the line "finished::clear-cache" was given to the call that
-- writes to that FIFO; nothing else of the file system is changed.
pub worker_loop-clear_cache :
    (os : Os) (n : ℕ) (fd_fifo fd : Option ℕ) (s : Fs os) (w : os.State)
    → IsKnown s.cache.engine
    → os.read fd_fifo 255 s.world ≡ (some "lazyfs::clear-cache\n", w)
    → (cache : Cache) × (cache.contents ≡ [])
      × (worker_loop os (suc n) fd_fifo (some fd) s
          ≡ worker_loop os n fd_fifo
              (some fd)
              (record s { cache = cache; world = (os.write fd "finished::clear-cache\n" w).1 }))
unfolding worker_loop c_string drop_last
worker_loop-clear_cache os n fd_fifo fd s w k line =
    let (cache, empty, e) = handle_command-clear_cache os fd (record s { world = w }) k in
    (cache, empty, rw line (rw e refl))

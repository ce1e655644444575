-- ===== src/Tests/Local.antt =====
-- The file store on a concrete disk.
mod Log
use Prim.Native.String.{String}
use go_memoize.Base.{ℕ, true, arith, false, none, some, [], ◌∷◌, ◌≡◌, ◌⊎◌}
use go_memoize.Stored.{Stored}
use go_memoize.Store.{Ctx, Error, background, zero_stored}
use go_memoize.Store.Laws.{MapLaws, found}
use go_memoize.Stores.Local.{get, set, delete, clear, local_store, path_of}
use go_memoize.Stores.Local.Disk.{Apart, Untouched, held}
use go_memoize.Stores.Local.Writes.{set-all_or_nothing}
use go_memoize.Stores.Local.Methods.{Deleted}
use go_memoize.Stores.Local.Crashes.{watched, EachOldOrNew, set-atomic}
use go_memoize.Stores.Local.Laws.{AnyDisk, entry, local_store-MapLaws}
use go_memoize.Tests.Local.Log.{Disk, log_os, log_files, codec, here, laws, reliable}

abbrev seven : Stored ℕ
seven = record (zero_stored 0) { value = 7 }

-- a disk with an entry and a file that does not decode
abbrev disk : Disk
disk = ("kuser.cache", some (some (record { stored = seven }))) ∷ ("kold.cache", some none) ∷ []

set-all_or_nothing_example :
    (((set log_os codec here background "new" seven disk).0 ≡ none)
      × (held log_os codec log_files here
            (set log_os codec here background "new" seven disk).1
            "new"
          ≡ some seven)
      × Apart log_files
          (path_of log_os codec here "new")
          disk
          (set log_os codec here background "new" seven disk).1)
    ⊎ ((x : Error) × ((set log_os codec here background "new" seven disk).0 ≡ some x)
        × ((j : String)
            → held log_os codec log_files here
                (set log_os codec here background "new" seven disk).1
                j
              ≡ held log_os codec log_files here disk j))
set-all_or_nothing_example = set-all_or_nothing laws background "new" seven disk

local_store-MapLaws_example :
    MapLaws 0 (local_store log_os codec here) (AnyDisk laws reliable) (entry laws)
local_store-MapLaws_example = local_store-MapLaws laws reliable

set-atomic_example :
    EachOldOrNew laws "user" seven disk
      (set (watched log_os) codec here background "user" seven (disk, [])).1.1
set-atomic_example = set-atomic laws background "user" seven disk

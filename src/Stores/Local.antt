-- ===== src/Stores/Local.antt =====
-- stores/local/store.go: the store that keeps each entry in a file of its own. The file system with
-- its path names, SHA-256 in hex and the gob encoding are parameters, as the source imports them.
pub mod Disk
pub mod Writes
pub mod Crashes
pub mod Methods
pub mod Laws
use Prim.Native.String.{String, ◌++◌}
use go_memoize.Base.{Bool, true, false, Option, none, some, List, [], ◌∷◌, ◌≡◌, refl, if◌then◌else◌}
use go_memoize.Base.Result.{Result, ok, err}
use go_memoize.Stored.{Stored}
use go_memoize.Store.{Store, Ctx, Found, Error, zero_stored}

-- What `os.ReadDir` tells of a name.
pub record DirEntry : Type 0 where
  pub name : String
  pub is_dir : Bool

-- The functions of `os` and of its files that the store calls, on a disk `D`, with file contents
-- `Bytes` and open files `File`. Each may fail.
pub record Os (D Bytes File : Type 0) : Type 0 where
  pub join : String → String → String
  pub is_not_exist : Error → Bool
  pub read_file : String → D → Result Error Bytes × D
  pub mkdir_all : String → D → Option Error × D
  pub create_temp : String → String → D → Result Error File × D
  pub name : File → String
  pub write : File → Bytes → D → Option Error × D
  pub close : File → D → Option Error × D
  pub rename : String → String → D → Option Error × D
  pub remove : String → D → Option Error × D
  pub read_dir : String → D → Result Error (List DirEntry) × D

-- What the file of an entry holds.
pub record DiskEntry (V : Type 0) : Type 0 where
  pub stored : Stored V

-- The encoding of entries, and the hash of keys as `%x` prints it.
pub record Codec (V Bytes : Type 0) : Type 0 where
  pub zero : V
  pub encode : DiskEntry V → Result Error Bytes
  pub decode : Bytes → Result Error (DiskEntry V)
  pub sum256 : String → String

pub record LocalFileStore : Type 0 where
  pub dir : String

unfoldable pub new_local : String → LocalFileStore
new_local dir = record { dir = dir }

module _ {D : Type 0} where
  -- `if err != nil { clean up; return err }`, and what follows
  unfoldable pub checked : (D → D) → Option Error × D → (D → Option Error × D) → Option Error × D
  checked clean (some e, d) rest = (some e, clean d)
  checked clean (none, d) rest = rest d

  -- the same for a call that has a result
  unfoldable pub given_result {ℓ} :
      {A : Type ℓ} → Result Error A × D → (A → D → Option Error × D) → Option Error × D
  given_result (err e, d) rest = (some e, d)
  given_result (ok a, d) rest = rest a d

  -- The two ways in which `checked` goes on.
  pub checked-cases {ℓ} :
      (P : Option Error × D → Type ℓ) (clean : D → D) (r : Option Error × D)
      → (rest : D → Option Error × D) → ((e : Error) → r.0 ≡ some e → P (some e, clean r.1))
      → (r.0 ≡ none → P (rest r.1))
      → P (checked clean r rest)
  unfolding checked
  checked-cases P clean (some e, d) rest failed went = failed e refl
  checked-cases P clean (none, d) rest failed went = went refl

  pub given_result-cases {ℓ κ} :
      {A : Type ℓ} (P : Option Error × D → Type κ) (r : Result Error A × D)
      → (rest : A → D → Option Error × D) → ((e : Error) → r.0 ≡ err e → P (some e, r.1))
      → ((a : A) → r.0 ≡ ok a → P (rest a r.1))
      → P (given_result r rest)
  unfolding given_result
  given_result-cases P (err e, d) rest failed went = failed e refl
  given_result-cases P (ok a, d) rest failed went = went a refl

module _ {V D Bytes File : Type 0} (os : Os D Bytes File) (codec : Codec V Bytes) where
  -- `path`
  unfoldable pub path_of : LocalFileStore → String → String
  path_of s key = os.join s.dir (codec.sum256 key ++ ".cache")

  -- what `Get` makes of the contents of a file
  unfoldable pub decoded : Bytes → Found (Stored V)
  decoded bytes = elim (codec.decode bytes) [
    | ok entry ↦ (entry.stored, true, none)
    | err _ ↦ (zero_stored codec.zero, false, none)
  ]

  -- what `Get` makes of the result of `os.ReadFile`
  unfoldable pub answer : Result Error Bytes → Found (Stored V)
  answer (ok bytes) = decoded bytes
  answer (err e) =
      if os.is_not_exist e
      then (zero_stored codec.zero, false, none)
      else (zero_stored codec.zero, false, some e)

  unfoldable pub get : LocalFileStore → Ctx → String → D → Found (Stored V) × D
  get s ctx key d = let r = os.read_file (path_of s key) d in (answer r.0, r.1)

  -- `Set` once it has the bytes of the entry
  unfoldable pub write_entry : LocalFileStore → String → Bytes → D → Option Error × D
  write_entry s key bytes d = given_result (os.create_temp s.dir ".tmp-" d) (λ tmp d.
      checked (λ d. (os.remove (os.name tmp) (os.close tmp d).1).1) (os.write tmp bytes d)
        (λ d.
          checked (λ d. (os.remove (os.name tmp) d).1) (os.close tmp d)
            (os.rename (os.name tmp) (path_of s key))))

  unfoldable pub set : LocalFileStore → Ctx → String → Stored V → D → Option Error × D
  set s ctx key value d =
      checked (λ d. d) (os.mkdir_all s.dir d)
        (λ d. given_result (codec.encode (record { stored = value }), d) (write_entry s key))

  -- `Delete`, given what `os.Remove` returns
  unfoldable pub unless_missing : Option Error → Option Error
  unless_missing none = none
  unless_missing (some e) = if os.is_not_exist e then none else some e

  unfoldable pub delete : LocalFileStore → Ctx → String → D → Option Error × D
  delete s ctx key d = let r = os.remove (path_of s key) d in (unless_missing r.0, r.1)

  -- the loop of `Clear`
  unfoldable pub remove_all : LocalFileStore → List DirEntry → D → D
  remove_all s [] d = d
  remove_all s (e ∷ entries) d =
      remove_all s entries (if e.is_dir then d else (os.remove (os.join s.dir e.name) d).1)

  -- `Clear`, given what `os.ReadDir` returns
  unfoldable pub clear_listed : LocalFileStore → Result Error (List DirEntry) × D → Option Error × D
  clear_listed s (err e, d) = if os.is_not_exist e then (none, d) else (some e, d)
  clear_listed s (ok entries, d) = (none, remove_all s entries d)

  unfoldable pub clear : LocalFileStore → Ctx → D → Option Error × D
  clear s ctx d = clear_listed s (os.read_dir s.dir d)

  -- a `LocalFileStore` as a `Store[string, V]`, on the disk; it has neither optional method
  unfoldable pub local_store : LocalFileStore → Store String V D
  local_store s = record {
    get = get s;
    set = set s;
    delete = delete s;
    clear = clear s;
    peek = none;
    peek_fresh_value = none;
  }

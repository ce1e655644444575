-- ===== src/Stores/Local/Disk.antt =====
-- What stores/local/store.go relies on of the file system, the hash and the encoding, as laws over
-- the contents of the files. Any call may fail. It then leaves the files as they were, but for the
-- open file that it writes.
use Prim.Native.String.{String, ◌++◌}
use go_memoize.Base.{true, false, Option, none, some, List, [], ◌∷◌, ◌≡◌, ◌≢◌, ◌⊎◌}
use go_memoize.Base.Result.{Result, ok, err}
use go_memoize.Stored.{Stored}
use go_memoize.Store.{Error}
use go_memoize.Stores.Local.{Os, Codec, DirEntry, DiskEntry, LocalFileStore, path_of}

-- The files of a disk by their paths, with an empty file's contents.
pub record Files (D Bytes : Type 0) : Type 0 where
  pub at : D → String → Option Bytes
  pub empty : Bytes

-- A listing has a file of this name.
abbrev pub Listed : String → List DirEntry → Type 0
Listed name [] = ⊥
Listed name (e ∷ entries) = ((e.name ≡ name) × (e.is_dir ≡ false)) ⊎ Listed name entries

-- A call leaves every file as it was.
abbrev pub Untouched : {D Bytes : Type 0} → Files D Bytes → D → D → Type 0
Untouched files d d' = (p : String) → files.at d' p ≡ files.at d p

-- A call leaves every file but one as it was.
abbrev pub Apart : {D Bytes : Type 0} → Files D Bytes → String → D → D → Type 0
Apart files q d d' = (p : String) → p ≢ q → files.at d' p ≡ files.at d p

module _ {D Bytes File : Type 0} (os : Os D Bytes File) (files : Files D Bytes) where
  pub record ReadLaws : Type 0 where
    pub read-contents :
        (p : String) (d : D) (bytes : Bytes)
        → (os.read_file p d).0 ≡ ok bytes
        → files.at d p ≡ some bytes
    pub read-missing :
        (p : String) (d : D) (e : Error)
        → (os.read_file p d).0 ≡ err e
        → os.is_not_exist e ≡ true
        → files.at d p ≡ none
    pub read-Untouched : (p : String) (d : D) → Untouched files d (os.read_file p d).1

  pub record WriteLaws : Type 0 where
    pub mkdir-Untouched : (dir : String) (d : D) → Untouched files d (os.mkdir_all dir d).1
    -- a temporary file is new and empty
    pub create-fresh :
        (dir pattern : String) (d : D) (tmp : File)
        → (os.create_temp dir pattern d).0 ≡ ok tmp
        → (files.at d (os.name tmp) ≡ none)
          × (files.at (os.create_temp dir pattern d).1 (os.name tmp) ≡ some files.empty)
          × Apart files (os.name tmp) d (os.create_temp dir pattern d).1
    pub create-failed :
        (dir pattern : String) (d : D) (e : Error)
        → (os.create_temp dir pattern d).0 ≡ err e
        → Untouched files d (os.create_temp dir pattern d).1
    pub write-contents :
        (tmp : File) (bytes : Bytes) (d : D)
        → files.at d (os.name tmp) ≡ some files.empty
        → (os.write tmp bytes d).0 ≡ none
        → files.at (os.write tmp bytes d).1 (os.name tmp) ≡ some bytes
    pub write-Apart :
        (tmp : File) (bytes : Bytes) (d : D) → Apart files (os.name tmp) d (os.write tmp bytes d).1
    pub close-Untouched : (tmp : File) (d : D) → Untouched files d (os.close tmp d).1
    pub rename-moves :
        (p q : String) (d : D)
        → p ≢ q
        → (os.rename p q d).0 ≡ none
        → (files.at (os.rename p q d).1 q ≡ files.at d p)
          × (files.at (os.rename p q d).1 p ≡ none)
          × ((r : String) → r ≢ p → r ≢ q → files.at (os.rename p q d).1 r ≡ files.at d r)
    pub rename-failed :
        (p q : String) (d : D) (e : Error)
        → (os.rename p q d).0 ≡ some e
        → Untouched files d (os.rename p q d).1

  pub record RemoveLaws : Type 0 where
    pub remove-gone :
        (p : String) (d : D)
        → (os.remove p d).0 ≡ none
        → (files.at (os.remove p d).1 p ≡ none) × Apart files p d (os.remove p d).1
    pub remove-failed :
        (p : String) (d : D) (e : Error)
        → (os.remove p d).0 ≡ some e
        → Untouched files d (os.remove p d).1
    pub remove-missing :
        (p : String) (d : D) (e : Error)
        → (os.remove p d).0 ≡ some e
        → os.is_not_exist e ≡ true
        → files.at d p ≡ none

module _ {V D Bytes File : Type 0} (os : Os D Bytes File) (codec : Codec V Bytes)
    (files : Files D Bytes) (s : LocalFileStore) where
  -- the names of entries: no two keys share one, no temporary file has one, and a listing of the
  -- directory has each that is there
  pub record NameLaws : Type 0 where
    pub path-injective : (k j : String) → path_of os codec s k ≡ path_of os codec s j → k ≡ j
    pub temp-apart :
        (d : D) (tmp : File) (k : String)
        → (os.create_temp s.dir ".tmp-" d).0 ≡ ok tmp
        → path_of os codec s k ≢ os.name tmp
    pub read_dir-Untouched : (d : D) → Untouched files d (os.read_dir s.dir d).1
    pub read_dir-lists :
        (d : D) (entries : List DirEntry) (k : String)
        → (os.read_dir s.dir d).0 ≡ ok entries
        → (files.at d (path_of os codec s k) ≡ none) ⊎ Listed (codec.sum256 k ++ ".cache") entries
    pub read_dir-missing :
        (d : D) (e : Error) (k : String)
        → (os.read_dir s.dir d).0 ≡ err e
        → os.is_not_exist e ≡ true
        → files.at d (path_of os codec s k) ≡ none

  pub record DiskLaws : Type 0 where
    pub reads : ReadLaws os files
    pub writes : WriteLaws os files
    pub removes : RemoveLaws os files
    pub names : NameLaws
    pub decode-encode :
        (x : DiskEntry V) (bytes : Bytes) → codec.encode x ≡ ok bytes → codec.decode bytes ≡ ok x

  -- No call fails for another reason than a missing file or directory, and none once `os.MkdirAll`
  -- has made the directory `Made`.
  pub record Reliable (Made : D → Type 0) : Type 0 where
    pub read-errors :
        (p : String) (d : D) (e : Error) → (os.read_file p d).0 ≡ err e → os.is_not_exist e ≡ true
    pub mkdir-Made : (d : D) → ((os.mkdir_all s.dir d).0 ≡ none) × Made (os.mkdir_all s.dir d).1
    pub create-Made :
        (d : D) → Made d → (tmp : File) × ((os.create_temp s.dir ".tmp-" d).0 ≡ ok tmp)
    pub write-none : (tmp : File) (bytes : Bytes) (d : D) → (os.write tmp bytes d).0 ≡ none
    pub close-none : (tmp : File) (d : D) → (os.close tmp d).0 ≡ none
    pub rename-none :
        (p q : String) (d : D) (bytes : Bytes)
        → files.at d p ≡ some bytes
        → (os.rename p q d).0 ≡ none
    pub remove-errors :
        (p : String) (d : D) (e : Error) → (os.remove p d).0 ≡ some e → os.is_not_exist e ≡ true
    pub read_dir-errors :
        (d : D) (e : Error) → (os.read_dir s.dir d).0 ≡ err e → os.is_not_exist e ≡ true
    pub encode-ok : (x : DiskEntry V) → (bytes : Bytes) × (codec.encode x ≡ ok bytes)

  -- The entry that the disk holds for a key: the one its file decodes to. A file that does not
  -- decode counts as none.
  abbrev pub readable : Result Error (DiskEntry V) → Option (Stored V)
  readable (ok x) = some x.stored
  readable (err _) = none

  abbrev pub decoded_entry : Option Bytes → Option (Stored V)
  decoded_entry none = none
  decoded_entry (some bytes) = readable (codec.decode bytes)

  abbrev pub held : D → String → Option (Stored V)
  held d k = decoded_entry (files.at d (path_of os codec s k))

-- ===== src/Stores/Local/Methods.antt =====
-- `Get`, `Delete` and `Clear` of stores/local/store.go, on a disk that may fail.
use Prim.Native.String.{String}
use go_memoize.Base.Strings.{string_discrete}
use go_memoize.Base.{
  false, Bool-cases, Option, Option-cases, none, some, List, [], ◌∷◌, ◌≡◌, ◌⊎◌, inl, inr, refl, ap,
  arith, ◌∙◌,
}
use go_memoize.Base.Result.{Result, ok, err}
use go_memoize.Stored.{Stored}
use go_memoize.Store.{Ctx, Error, zero_stored}
use go_memoize.Store.Laws.{found}
use go_memoize.Stores.Local.{
  Os, Codec, DirEntry, LocalFileStore, path_of, decoded, answer, get, delete, unless_missing,
  remove_all, clear_listed, clear,
}
use go_memoize.Stores.Local.Disk.{Files, Untouched, Apart, DiskLaws, held, decoded_entry}

module _ {V D Bytes File : Type 0} {os : Os D Bytes File} {codec : Codec V Bytes}
    {files : Files D Bytes} {s : LocalFileStore} (laws : DiskLaws os codec files s) where
  abbrev entry : D → String → Option (Stored V)
  entry = held os codec files s

  decoded-found :
      (bytes : Bytes)
      → decoded os codec bytes ≡ found codec.zero (decoded_entry os codec files s (some bytes))
  unfolding decoded
  decoded-found bytes = ground arith

  -- `Get` finds the entry that the disk holds for its key, and fails only if the file is there
  -- and cannot be read.
  pub answer-found :
      (p : String) (d : D) (r : Result Error Bytes)
      → (os.read_file p d).0 ≡ r
      → (answer os codec r ≡ found codec.zero (decoded_entry os codec files s (files.at d p)))
        ⊎ ((x : Error) × (r ≡ err x)
            × (os.is_not_exist x ≡ false)
            × (answer os codec r ≡ (zero_stored codec.zero, false, some x)))
  unfolding answer
  answer-found p d (ok bytes) e =
      inl (rw (laws.reads.read-contents p d bytes e) (decoded-found bytes))
  answer-found p d (err x) e = elim (Bool-cases (os.is_not_exist x)) [
    | inl missing ↦ inl (rw (missing, laws.reads.read-missing p d x e missing) refl)
    | inr present ↦ inr (x, refl, present, rw present refl)
  ]

  remove-Shrunk :
      (p q : String) (d : D)
      → (files.at (os.remove p d).1 q ≡ none) ⊎ (files.at (os.remove p d).1 q ≡ files.at d q)
  remove-Shrunk p q d = elim (Option-cases (os.remove p d).0) [
    | inr (x, failed) ↦ inr (laws.removes.remove-failed p d x failed q)
    | inl done ↦ elim (string_discrete q p) [
      | yes e ↦ inl (rw e (laws.removes.remove-gone p d done).0)
      | no other ↦ inr ((laws.removes.remove-gone p d done).1 q other)
    ]
  ]

  -- What a run of removals does to one file: it may go, and is not changed otherwise.
  pub remove_all-Shrunk :
      (entries : List DirEntry) (q : String) (d : D)
      → (files.at (remove_all os codec s entries d) q ≡ none)
        ⊎ (files.at (remove_all os codec s entries d) q ≡ files.at d q)
  unfolding remove_all
  remove_all-Shrunk [] q d = inr refl
  remove_all-Shrunk (e ∷ entries) q d = elim (Bool-cases e.is_dir) [
    | inl dir ↦ rw dir (remove_all-Shrunk entries q d)
    | inr file ↦
        let step = os.remove (os.join s.dir e.name) d in
        rw file (elim (remove_all-Shrunk entries q step.1) [
          | inl gone ↦ inl gone
          | inr same ↦ elim (remove-Shrunk (os.join s.dir e.name) q d) [
            | inl gone ↦ inl (same ∙ gone)
            | inr kept ↦ inr (same ∙ kept)
          ]
        ])
  ]

  abbrev pub Deleted : String → D → Option Error × D → Type 0
  Deleted key d r =
      ((r.0 ≡ none) × (entry r.1 key ≡ none) × Apart files (path_of os codec s key) d r.1)
      ⊎ ((x : Error) × (r.0 ≡ some x) × (os.is_not_exist x ≡ false) × Untouched files d r.1)

  -- Either `Delete` returns no error, its key has no entry and no other file of the disk has
  -- changed, or it returns an error other than a missing file, and no file has changed.
  pub delete-Deleted :
      (ctx : Ctx) (key : String) (d : D) → Deleted key d (delete os codec s ctx key d)
  unfolding delete unless_missing
  delete-Deleted ctx key d =
      let p = path_of os codec s key in
      let removes = laws.removes in
      elim (Option-cases (os.remove p d).0) [
        | inl done ↦
            let gone = removes.remove-gone p d done in inl (rw done refl, rw gone.0 refl, gone.1)
        | inr (x, failed) ↦
            let same = removes.remove-failed p d x failed in
            elim (Bool-cases (os.is_not_exist x)) [
              | inl missing ↦ inl (
                rw (failed, missing) refl,
                rw (same p, removes.remove-missing p d x failed missing) refl,
                λ q n. same q,
              )
              | inr present ↦ inr (x, rw (failed, present) refl, present, same)
            ]
      ]

  clear_listed-Shrunk :
      (q : String) (d d' : D) (r : Result Error (List DirEntry))
      → files.at d' q ≡ files.at d q
      → (files.at (clear_listed os codec s (r, d')).1 q ≡ none)
        ⊎ (files.at (clear_listed os codec s (r, d')).1 q ≡ files.at d q)
  unfolding clear_listed
  clear_listed-Shrunk q d d' (err x) same = elim (Bool-cases (os.is_not_exist x)) [
    | inl missing ↦ inr (rw missing same)
    | inr present ↦ inr (rw present same)
  ]
  clear_listed-Shrunk q d d' (ok entries) same = elim (remove_all-Shrunk entries q d') [
    | inl gone ↦ inl gone
    | inr kept ↦ inr (kept ∙ same)
  ]

  clear-Shrunk :
      (ctx : Ctx) (k : String) (d : D)
      → (entry (clear os codec s ctx d).1 k ≡ none)
        ⊎ (entry (clear os codec s ctx d).1 k ≡ entry d k)
  unfolding clear
  clear-Shrunk ctx k d =
      let p = path_of os codec s k in
      let r = os.read_dir s.dir d in
      elim (clear_listed-Shrunk p d r.1 r.0 (laws.names.read_dir-Untouched d p)) [
        | inl gone ↦ inl (ap (decoded_entry os codec files s) gone)
        | inr same ↦ inr (ap (decoded_entry os codec files s) same)
      ]

  -- Whatever fails: `Get` answers with the entry that the disk holds for its key, where a file that
  -- does not decode counts as none, or with an error other than a missing file, and changes no
  -- file. `Delete` leaves its key without an entry and no other file changed, or returns such an
  -- error and changes no file. `Clear` may drop an entry and changes none.
  calls_sound :
      (ctx : Ctx) (key : String) (d : D)
      → (((get os codec s ctx key d).0 ≡ found codec.zero (entry d key))
          ⊎ ((x : Error) × (os.is_not_exist x ≡ false)
              × ((get os codec s ctx key d).0 ≡ (zero_stored codec.zero, false, some x))))
        × Untouched files d (get os codec s ctx key d).1
        × Deleted key d (delete os codec s ctx key d)
        × ((k : String)
            → (entry (clear os codec s ctx d).1 k ≡ none)
              ⊎ (entry (clear os codec s ctx d).1 k ≡ entry d k))
  unfolding get
  calls_sound ctx key d = (
    elim (answer-found (path_of os codec s key) d _ refl) [
      | inl read ↦ inl read
      | inr (x, failed, present, e) ↦ inr (x, present, e)
    ],
    laws.reads.read-Untouched _ d,
    delete-Deleted ctx key d,
    λ k. clear-Shrunk ctx k d,
  )

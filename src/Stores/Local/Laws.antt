-- ===== src/Stores/Local/Laws.antt =====
-- stores/local/store.go meets the contract of a store on a disk that does not fail.
use Prim.Native.String.{String, ◌++◌}
use go_memoize.Base.{
  true, Option, Option-cases, none, some, List, [], ◌∷◌, ◌≡◌, ◌≢◌, inl, inr, refl, sym, ap,
  if◌then◌else◌, ◌∙◌,
}
use go_memoize.Base.Result.{Result, ok, err}
use go_memoize.Stored.{Stored}
use go_memoize.Store.{Ctx, Error}
use go_memoize.Store.Laws.{StoreLaws, MapLaws, found}
use go_memoize.Stores.Local.{
  Os, Codec, DirEntry, LocalFileStore, path_of, get, delete, unless_missing, remove_all,
  clear_listed, clear, write_entry, set, checked-cases, given_result-cases, local_store,
}
use go_memoize.Stores.Local.Disk.{Files, Apart, Listed, DiskLaws, Reliable, held, decoded_entry}
use go_memoize.Stores.Local.Writes.{set-all_or_nothing}
use go_memoize.Stores.Local.Methods.{answer-found, remove_all-Shrunk, delete-Deleted}

module _ {V D Bytes File : Type 0} {os : Os D Bytes File} {codec : Codec V Bytes}
    {files : Files D Bytes} {s : LocalFileStore} (laws : DiskLaws os codec files s) where
  abbrev pub entry : D → String → Option (Stored V)
  entry = held os codec files s

  module _ {Made : D → Type 0} (reliable : Reliable os codec files s Made) where
    remove-clears : (p : String) (d : D) → files.at (os.remove p d).1 p ≡ none
    remove-clears p d = elim (Option-cases (os.remove p d).0) [
      | inl done ↦ (laws.removes.remove-gone p d done).0
      | inr (x, failed) ↦
          laws.removes.remove-failed p d x failed p
          ∙ laws.removes.remove-missing p d x failed (reliable.remove-errors p d x failed)
    ]

    gone-stays :
        (entries : List DirEntry) (q : String) (d : D)
        → files.at d q ≡ none
        → files.at (remove_all os codec s entries d) q ≡ none
    gone-stays entries q d gone = elim (remove_all-Shrunk laws entries q d) [
      | inl e ↦ e
      | inr same ↦ same ∙ gone
    ]

    -- every listed file goes
    remove_all-gone :
        (entries : List DirEntry) (name : String) (d : D)
        → Listed name entries
        → files.at (remove_all os codec s entries d) (os.join s.dir name) ≡ none
    unfolding remove_all
    remove_all-gone [] name d h = elim h [ ]
    remove_all-gone (e ∷ entries) name d (inl (same, file)) =
        let p = os.join s.dir e.name in
        rw (sym same, file) (gone-stays entries p (os.remove p d).1 (remove-clears p d))
    remove_all-gone (e ∷ entries) name d (inr rest) =
        remove_all-gone entries name
          (if e.is_dir then d else (os.remove (os.join s.dir e.name) d).1) rest

    clear_listed-gone :
        (k : String) (d d' : D) (r : Result Error (List DirEntry))
        → (os.read_dir s.dir d).0 ≡ r
        → files.at d' (path_of os codec s k) ≡ files.at d (path_of os codec s k)
        → ((clear_listed os codec s (r, d')).0 ≡ none)
          × (files.at (clear_listed os codec s (r, d')).1 (path_of os codec s k) ≡ none)
    unfolding clear_listed path_of
    clear_listed-gone k d d' (err x) e same =
        let missing = reliable.read_dir-errors d x e in
        (rw missing refl, rw missing (same ∙ laws.names.read_dir-missing d x k e missing))
    clear_listed-gone k d d' (ok entries) e same = (
      refl,
      elim (laws.names.read_dir-lists d entries k e) [
        | inl gone ↦ gone-stays entries (path_of os codec s k) d' (same ∙ gone)
        | inr listed ↦ remove_all-gone entries (codec.sum256 k ++ ".cache") d' listed
      ],
    )

    write_entry-errors :
        (key : String) (bytes : Bytes) (d : D)
        → Made d
        → (write_entry os codec s key bytes d).0 ≡ none
    unfolding write_entry
    write_entry-errors key bytes d made =
        let writes = laws.writes in
        let created = os.create_temp s.dir ".tmp-" d in
        given_result-cases (λ r. r.0 ≡ none) created _
          (λ e failed. absurd (cc (failed, (reliable.create-Made d made).1)))
          (λ tmp is_made.
            let fresh = writes.create-fresh s.dir ".tmp-" d tmp is_made in
            let written = os.write tmp bytes created.1 in
            checked-cases (λ r. r.0 ≡ none) _ written _
              (λ e failed. absurd (cc (failed, reliable.write-none tmp bytes created.1)))
              (λ wrote.
                checked-cases (λ r. r.0 ≡ none) _ (os.close tmp written.1) _
                  (λ e failed. absurd (cc (failed, reliable.close-none tmp written.1)))
                  (λ done. reliable.rename-none (os.name tmp) (path_of os codec s key) _ bytes (
                    writes.close-Untouched tmp written.1 _
                    ∙ writes.write-contents tmp bytes created.1 fresh.1 wrote))))

    set-errors :
        (ctx : Ctx) (key : String) (e : Stored V) (d : D) → (set os codec s ctx key e d).0 ≡ none
    unfolding set
    set-errors ctx key e d =
        let made = reliable.mkdir-Made d in
        checked-cases (λ r. r.0 ≡ none) _ (os.mkdir_all s.dir d) _
          (λ x failed. absurd (cc (failed, made.0)))
          (λ done.
            given_result-cases (λ r. r.0 ≡ none)
              (codec.encode (record { stored = e }), (os.mkdir_all s.dir d).1) _
              (λ x failed. absurd (cc (failed, (reliable.encode-ok (record { stored = e })).1)))
              (λ bytes encoded. write_entry-errors key bytes _ made.1))

    -- `Delete` returns no error of a missing file, and on a reliable disk there is no other
    delete-error :
        (o : Option Error)
        → ((x : Error) → o ≡ some x → os.is_not_exist x ≡ true)
        → unless_missing os codec o ≡ none
    unfolding unless_missing
    delete-error none only = refl
    delete-error (some x) only = rw (only x refl) refl

    path-apart : (k j : String) → j ≢ k → path_of os codec s j ≢ path_of os codec s k
    path-apart k j n e = n (laws.names.path-injective j k e)

    get-law :
        (ctx : Ctx) (k : String) (d : D) → (get os codec s ctx k d).0 ≡ found codec.zero (entry d k)
    unfolding get
    get-law ctx k d =
        let p = path_of os codec s k in
        elim (answer-found laws p d (os.read_file p d).0 refl) [
          | inl read ↦ read
          | inr (x, failed, present, e) ↦ absurd (cc (present, reliable.read-errors p d x failed))
        ]

    set-law :
        (ctx : Ctx) (k : String) (e : Stored V) (d : D)
        → (entry (set os codec s ctx k e d).1 k ≡ some e)
          × Apart files (path_of os codec s k) d (set os codec s ctx k e d).1
    set-law ctx k e d = elim (set-all_or_nothing laws ctx k e d) [
      | inl (done, own, others) ↦ (own, others)
      | inr (x, failed, same) ↦ absurd (cc (failed, set-errors ctx k e d))
    ]

    delete-law :
        (ctx : Ctx) (k : String) (d : D)
        → ((delete os codec s ctx k d).0 ≡ none)
          × (entry (delete os codec s ctx k d).1 k ≡ none)
          × Apart files (path_of os codec s k) d (delete os codec s ctx k d).1
    unfolding delete
    delete-law ctx k d = elim (delete-Deleted laws ctx k d) [
      | inl deleted ↦ deleted
      | inr (x, failed, present, same) ↦ absurd (
          cc (
            failed,
            delete-error (os.remove (path_of os codec s k) d).0
                (reliable.remove-errors (path_of os codec s k) d),
          ))
    ]

    clear-law :
        (ctx : Ctx) (k : String) (d : D)
        → ((clear os codec s ctx d).0 ≡ none)
          × (files.at (clear os codec s ctx d).1 (path_of os codec s k) ≡ none)
    unfolding clear
    clear-law ctx k d =
        let r = os.read_dir s.dir d in
        clear_listed-gone k d r.1 r.0 refl (laws.names.read_dir-Untouched d _)

    -- Every disk is a valid state.
    abbrev pub AnyDisk : D → Type 0
    AnyDisk _ = Unit {0}

    -- the laws without what `Set` does to other keys
    local_store-StoreLaws : StoreLaws codec.zero (local_store os codec s) AnyDisk entry
    unfolding local_store get clear
    local_store-StoreLaws =
        let view = decoded_entry os codec files s in
        record {
          get-view = λ ctx k d h.
              let still = laws.reads.read-Untouched (path_of os codec s k) d in
              (get-law ctx k d, record { valid = tt; same = λ j. ap view (still _) });
          peek-view = λ peek ctx k d e h. absurd (cc);
          peek_fresh_value-view = λ ask ctx k now d e h. absurd (cc);
          set-view = λ ctx k e d h.
              let law = set-law ctx k e d in
              (set-errors ctx k e d, tt, law.0, λ j n. inr (ap view (law.1 _ (path-apart k j n))));
          delete-view = λ ctx k d h.
              let law = delete-law ctx k d in
              (law.0, tt, law.1, λ j n. ap view (law.2 _ (path-apart k j n)));
          clear-view = λ ctx d h. ((clear-law ctx "" d).0, tt, λ j. ap view (clear-law ctx j d).1);
        }

    -- On a reliable disk the store implements the interface of a store: a lookup answers with the
    -- entry last set and changes nothing, `Set` and `Delete` change their key and no other,
    -- `Clear` drops all keys, and no call returns an error.
    pub local_store-MapLaws : MapLaws codec.zero (local_store os codec s) AnyDisk entry
    unfolding local_store
    local_store-MapLaws = (
      local_store-StoreLaws,
      λ ctx k e d h j n.
          ap (decoded_entry os codec files s) ((set-law ctx k e d).1 _ (path-apart k j n)),
    )

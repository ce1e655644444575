-- ===== src/Stores/Local/Writes.antt =====
-- `Set` of stores/local/store.go: it writes a temporary file and renames it.
use Prim.Native.String.{String}
use go_memoize.Base.Strings.{string_discrete}
use go_memoize.Base.{Option, Option-cases, none, some, ◌≡◌, ◌⊎◌, inl, inr, refl, sym, ap, ◌∙◌}
use go_memoize.Base.Result.{ok}
use go_memoize.Stored.{Stored}
use go_memoize.Store.{Ctx, Error}
use go_memoize.Stores.Local.{
  Os, Codec, LocalFileStore, path_of, checked-cases, given_result-cases, write_entry, set,
}
use go_memoize.Stores.Local.Disk.{Files, Untouched, Apart, DiskLaws, held, decoded_entry}

module _ {V D Bytes File : Type 0} {os : Os D Bytes File} {codec : Codec V Bytes}
    {files : Files D Bytes} {s : LocalFileStore} (laws : DiskLaws os codec files s) where
  -- The files of all entries are as they were.
  abbrev pub SameEntries : D → D → Type 0
  SameEntries d d' =
      (j : String) → files.at d' (path_of os codec s j) ≡ files.at d (path_of os codec s j)

  -- Either the file of the entry has the bytes and no other file changed, or there is an error and
  -- the files of all entries are as they were.
  abbrev pub Written : D → String → Bytes → Option Error × D → Type 0
  Written d key bytes r =
      ((r.0 ≡ none)
        × (files.at r.1 (path_of os codec s key) ≡ some bytes)
        × Apart files (path_of os codec s key) d r.1)
      ⊎ ((x : Error) × (r.0 ≡ some x) × SameEntries d r.1)

  -- Work on one temporary file.
  module _ (d : D) (tmp : File) (made : (os.create_temp s.dir ".tmp-" d).0 ≡ ok tmp) where
    pub Apart-SameEntries : (d' : D) → Apart files (os.name tmp) d d' → SameEntries d d'
    Apart-SameEntries d' h j = h (path_of os codec s j) (laws.names.temp-apart d tmp j made)

    pub Apart-Untouched :
        (d' d'' : D)
        → Apart files (os.name tmp) d d'
        → Untouched files d' d''
        → Apart files (os.name tmp) d d''
    Apart-Untouched d' d'' h u p n = u p ∙ h p n

    -- the file is removed, whether or not that succeeds
    pub removed-Apart :
        (d' : D)
        → Apart files (os.name tmp) d d'
        → Apart files (os.name tmp) d (os.remove (os.name tmp) d').1
    removed-Apart d' h p n = elim (Option-cases (os.remove (os.name tmp) d').0) [
      | inl gone ↦ (laws.removes.remove-gone (os.name tmp) d' gone).1 p n ∙ h p n
      | inr (e, failed) ↦ laws.removes.remove-failed (os.name tmp) d' e failed p ∙ h p n
    ]

    pub rename-Written :
        (key : String) (bytes : Bytes) (d' : D)
        → files.at d (os.name tmp) ≡ none
        → Apart files (os.name tmp) d d'
        → files.at d' (os.name tmp) ≡ some bytes
        → Written d key bytes (os.rename (os.name tmp) (path_of os codec s key) d')
    rename-Written key bytes d' fresh apart full =
        let p = os.name tmp in
        let q = path_of os codec s key in
        let own = laws.names.temp-apart d tmp key made in
        elim (Option-cases (os.rename p q d').0) [
          | inl done ↦
              let moved = laws.writes.rename-moves p q d' (λ e. own (sym e)) done in
              inl (
                done,
                moved.0 ∙ full,
                λ r n. elim (string_discrete r p) [
                  | yes e ↦ rw e (moved.1 ∙ sym fresh)
                  | no other ↦ moved.2 r other n ∙ apart r other
                ],
              )
          | inr (e, failed) ↦ inr (
            e,
            failed,
            Apart-SameEntries _
                (Apart-Untouched d' _ apart (laws.writes.rename-failed p q d' e failed)),
          )
        ]

  write_entry-Written :
      (key : String) (bytes : Bytes) (d : D)
      → Written d key bytes (write_entry os codec s key bytes d)
  unfolding write_entry
  write_entry-Written key bytes d =
      let writes = laws.writes in
      let created = os.create_temp s.dir ".tmp-" d in
      given_result-cases (Written d key bytes) created _
        (λ e failed. inr (e, refl, λ j. writes.create-failed s.dir ".tmp-" d e failed _))
        (λ tmp made.
          let fresh = writes.create-fresh s.dir ".tmp-" d tmp made in
          let written = os.write tmp bytes created.1 in
          let apart : Apart files (os.name tmp) d written.1 =
            λ p n. writes.write-Apart tmp bytes created.1 p n ∙ fresh.2 p n in
          let closed = os.close tmp written.1 in
          let apart' : Apart files (os.name tmp) d closed.1 =
            Apart-Untouched d tmp made written.1 closed.1 apart
              (writes.close-Untouched tmp written.1) in
          checked-cases (Written d key bytes) _ written _
            (λ e failed.
              inr (
                e,
                refl,
                Apart-SameEntries d tmp made _ (removed-Apart d tmp made closed.1 apart'),
              ))
            (λ wrote.
              checked-cases (Written d key bytes) _ closed _
                (λ e failed. inr (
                  e,
                  refl,
                  Apart-SameEntries d tmp made _ (removed-Apart d tmp made closed.1 apart'),
                ))
                (λ done. rename-Written d tmp made key bytes closed.1 fresh.0 apart' (
                  writes.close-Untouched tmp written.1 _
                  ∙ writes.write-contents tmp bytes created.1 fresh.1 wrote))))

  -- What `Set` does to the entries.
  abbrev pub Replaced : String → Stored V → D → Option Error × D → Type 0
  Replaced key e d r =
      ((r.0 ≡ none)
        × (held os codec files s r.1 key ≡ some e)
        × Apart files (path_of os codec s key) d r.1)
      ⊎ ((x : Error) × (r.0 ≡ some x)
          × ((j : String) → held os codec files s r.1 j ≡ held os codec files s d j))

  pub Written-Replaced :
      (key : String) (e : Stored V) (bytes : Bytes) (d d' : D) (r : Option Error × D)
      → codec.encode (record { stored = e }) ≡ ok bytes
      → Untouched files d d'
      → Written d' key bytes r
      → Replaced key e d r
  Written-Replaced key e bytes d d' r encoded still (inl (done, full, apart)) =
      let read = laws.decode-encode (record { stored = e }) bytes encoded in
      inl (done, rw (full, read) refl, λ p n. apart p n ∙ still p)
  Written-Replaced key e bytes d d' r encoded still (inr (x, failed, same)) =
      inr (x, failed, λ j. ap (decoded_entry os codec files s) (same j ∙ still _))

  -- Whatever fails: either `Set` returns no error, a lookup of the key finds the new entry, and no
  -- other file of the disk has changed, or it returns an error and every key, its own included,
  -- has the entry it had.
  pub set-all_or_nothing :
      (ctx : Ctx) (key : String) (e : Stored V) (d : D)
      → (((set os codec s ctx key e d).0 ≡ none)
          × (held os codec files s (set os codec s ctx key e d).1 key ≡ some e)
          × Apart files (path_of os codec s key) d (set os codec s ctx key e d).1)
        ⊎ ((x : Error) × ((set os codec s ctx key e d).0 ≡ some x)
            × ((j : String)
                → held os codec files s (set os codec s ctx key e d).1 j
                  ≡ held os codec files s d j))
  unfolding set
  set-all_or_nothing ctx key e d =
      let made = os.mkdir_all s.dir d in
      let still = laws.writes.mkdir-Untouched s.dir d in
      checked-cases (Replaced key e d) _ made _
        (λ x failed. inr (x, refl, λ j. ap (decoded_entry os codec files s) (still _)))
        (λ ok.
          given_result-cases (Replaced key e d) (codec.encode (record { stored = e }), made.1) _
            (λ x failed. inr (x, refl, λ j. ap (decoded_entry os codec files s) (still _)))
            (λ bytes encoded.
              Written-Replaced key e bytes d made.1 _ encoded still
                (write_entry-Written key bytes made.1)))

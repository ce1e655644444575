-- ===== src/Stores/Local/Crashes.antt =====
-- `Set` of stores/local/store.go when the program ends between two of its calls: the same code, on a
-- file system that notes the disk after each call.
use Prim.Native.String.{String}
use go_memoize.Base.{Option, some, List, [], ◌∷◌, ◌≡◌, ◌⊎◌, inl, inr, ap, ◌∙◌}
use go_memoize.Base.Result.{ok}
use go_memoize.Stored.{Stored}
use go_memoize.Store.{Ctx, Error}
use go_memoize.Stores.Local.{
  Os, Codec, LocalFileStore, path_of, checked-cases, given_result-cases, write_entry, set,
}
use go_memoize.Stores.Local.Disk.{Files, Untouched, Apart, DiskLaws, held, decoded_entry}
use go_memoize.Stores.Local.Writes.{
  SameEntries, Written, Apart-SameEntries, Apart-Untouched, removed-Apart, rename-Written,
  Written-Replaced,
}

-- what a call leaves, with the disk after it noted
abbrev pub noted : {D : Type 0} {A : Type 0} → List D → A × D → A × (D × List D)
noted seen r = (r.0, (r.1, r.1 ∷ seen))

-- The same file system, whose disks carry those after each call so far, the latest first.
abbrev pub watched : {D Bytes File : Type 0} → Os D Bytes File → Os (D × List D) Bytes File
watched os = record {
  join = os.join;
  is_not_exist = os.is_not_exist;
  read_file = λ p w. noted w.1 (os.read_file p w.0);
  mkdir_all = λ dir w. noted w.1 (os.mkdir_all dir w.0);
  create_temp = λ dir pattern w. noted w.1 (os.create_temp dir pattern w.0);
  name = os.name;
  write = λ tmp bytes w. noted w.1 (os.write tmp bytes w.0);
  close = λ tmp w. noted w.1 (os.close tmp w.0);
  rename = λ p q w. noted w.1 (os.rename p q w.0);
  remove = λ p w. noted w.1 (os.remove p w.0);
  read_dir = λ dir w. noted w.1 (os.read_dir dir w.0);
}

module _ {V D Bytes File : Type 0} {os : Os D Bytes File} {codec : Codec V Bytes}
    {files : Files D Bytes} {s : LocalFileStore} (laws : DiskLaws os codec files s) where
  -- A disk on which every entry is as before, or just that of the key is the new one.
  abbrev pub OldOrNew : String → Stored V → D → D → Type 0
  OldOrNew key e d x =
      ((j : String) → held os codec files s x j ≡ held os codec files s d j)
      ⊎ ((held os codec files s x key ≡ some e) × Apart files (path_of os codec s key) d x)

  abbrev pub EachOldOrNew : String → Stored V → D → List D → Type 0
  EachOldOrNew key e d [] = Unit {0}
  EachOldOrNew key e d (x ∷ seen) = OldOrNew key e d x × EachOldOrNew key e d seen

  -- After a call that leaves the entries as they are, they are as before.
  same-OldOrNew :
      (key : String) (e : Stored V) (d d' x : D)
      → Untouched files d d'
      → SameEntries laws d' x
      → OldOrNew key e d x
  same-OldOrNew key e d d' x still same =
      inl (λ j. ap (decoded_entry os codec files s) (same j ∙ still _))

  abbrev AllGood : String → Stored V → D → Option Error × (D × List D) → Type 0
  AllGood key e d r = EachOldOrNew key e d r.1.1

  renamed-OldOrNew :
      (key : String) (e : Stored V) (bytes : Bytes) (d d' : D) (r : Option Error × D)
      → codec.encode (record { stored = e }) ≡ ok bytes
      → Untouched files d d'
      → Written laws d' key bytes r
      → OldOrNew key e d r.1
  renamed-OldOrNew key e bytes d d' r encoded still h =
      elim (Written-Replaced laws key e bytes d d' r encoded still h) [
        | inl (done, own, apart) ↦ inr (own, apart)
        | inr (x, failed, same) ↦ inl same
      ]

  write_entry-crash :
      (key : String) (e : Stored V) (bytes : Bytes) (d d' : D) (seen : List D)
      → codec.encode (record { stored = e }) ≡ ok bytes
      → Untouched files d d'
      → EachOldOrNew key e d seen
      → AllGood key e d (write_entry (watched os) codec s key bytes (d', seen))
  unfolding write_entry path_of
  write_entry-crash key e bytes d d' seen encoded still good =
      let writes = laws.writes in
      let created = os.create_temp s.dir ".tmp-" d' in
      given_result-cases (AllGood key e d) (noted seen created) _
        (λ x failed. (
          same-OldOrNew key e d d' _ still (λ j. writes.create-failed s.dir ".tmp-" d' x failed _),
          good,
        ))
        (λ tmp made.
          let fresh = writes.create-fresh s.dir ".tmp-" d' tmp made in
          let written = os.write tmp bytes created.1 in
          let apart : Apart files (os.name tmp) d' written.1 =
            λ p n. writes.write-Apart tmp bytes created.1 p n ∙ fresh.2 p n in
          let closed = os.close tmp written.1 in
          let apart' : Apart files (os.name tmp) d' closed.1 =
            Apart-Untouched laws d' tmp made written.1 closed.1 apart
              (writes.close-Untouched tmp written.1) in
          let old : (x : D) → Apart files (os.name tmp) d' x → OldOrNew key e d x =
            λ x h. same-OldOrNew key e d d' x still (Apart-SameEntries laws d' tmp made x h) in
          let gone = removed-Apart laws d' tmp made closed.1 apart' in
          let seen₁ = created.1 ∷ seen in
          let seen₂ = written.1 ∷ seen₁ in
          checked-cases (AllGood key e d) _ (noted seen₁ written) _
            (λ x failed. (old _ gone, (old _ apart', (old _ apart, (old _ fresh.2, good)))))
            (λ wrote.
              checked-cases (AllGood key e d) _ (noted seen₂ closed) _
                (λ x failed. (old _ gone, (old _ apart', (old _ apart, (old _ fresh.2, good)))))
                (λ done. (
                  renamed-OldOrNew key e bytes d d' _ encoded still (
                      rename-Written laws d' tmp made key bytes closed.1 fresh.0 apart' (
                        writes.close-Untouched tmp written.1 _
                        ∙ writes.write-contents tmp bytes created.1 fresh.1 wrote)),
                  (old _ apart', (old _ apart, (old _ fresh.2, good))),
                ))))

  -- `Set` is atomic: whichever calls fail and after whichever of them the program ends, a lookup
  -- finds for each key the entry that was there before, or for the key that is set the new one,
  -- never a part of it, and then no other file of the disk has changed.
  pub set-atomic :
      (ctx : Ctx) (key : String) (e : Stored V) (d : D)
      → EachOldOrNew key e d (set (watched os) codec s ctx key e (d, [])).1.1
  unfolding set
  set-atomic ctx key e d =
      let made = os.mkdir_all s.dir d in
      let still = laws.writes.mkdir-Untouched s.dir d in
      let good : OldOrNew key e d made.1 =
        inl (λ j. ap (decoded_entry os codec files s) (still _)) in
      checked-cases (AllGood key e d) _ (noted [] made) _ (λ x failed. (good, tt))
        (λ done.
          given_result-cases (AllGood key e d)
            (codec.encode (record { stored = e }), (noted [] made).1) _ (λ x failed. (good, tt))
            (λ bytes encoded.
              write_entry-crash key e bytes d made.1 (made.1 ∷ []) encoded still (good, tt)))

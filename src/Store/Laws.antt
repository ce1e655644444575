-- ===== src/Store/Laws.antt =====
-- What a cache relies on of its store, as laws over an abstract view: a map from keys to entries,
-- which a bounded store may shrink when it makes room.
use go_memoize.Base.{true, false, Option, none, some, ◌≡◌, ◌≢◌, ◌⊎◌, inl, inr, ◌∙◌}
use go_memoize.Time.{Time}
use go_memoize.Stored.{Stored, fresh, state}
use go_memoize.Store.{Store, Ctx, Found, zero_stored}

module _ {V : Type 0} (zero : V) where
  -- the answer of a lookup
  abbrev pub found : Option (Stored V) → Found (Stored V)
  found (some e) = (e, true, none)
  found none = (zero_stored zero, false, none)

  -- the answer to whether there is a fresh value
  abbrev pub fresh_found : Option (Stored V) → Time → Found V
  fresh_found none now = (zero, false, none)
  fresh_found (some e) now = elim (state e now) [
    | fresh ↦ (e.value, true, none)
    | _ ↦ (zero, false, none)
  ]

-- A read leaves the view as it was.
pub record Keeps {K V S : Type 0} (Valid : S → Type 0) (view : S → K → Option (Stored V)) (s t : S)
    : Type 0 where
  pub valid : Valid t
  pub same : (j : K) → view t j ≡ view s j

-- A write keeps the entries of the other keys, or drops them to make room.
abbrev pub Shrinks : {K V S : Type 0} → (S → K → Option (Stored V)) → K → S → S → Type 0
Shrinks {K} view k s t = (j : K) → j ≢ k → (view t j ≡ none) ⊎ (view t j ≡ view s j)

pub record StoreLaws {K V S : Type 0} (zero : V) (store : Store K V S) (Valid : S → Type 0)
    (view : S → K → Option (Stored V)) : Type 0 where
  pub get-view :
      (ctx : Ctx) (k : K) (s : S)
      → Valid s
      → ((store.get ctx k s).0 ≡ found zero (view s k)) × Keeps Valid view s (store.get ctx k s).1
  pub peek-view :
      (peek : Ctx → K → S → Found (Stored V) × S) (ctx : Ctx) (k : K) (s : S)
      → store.peek ≡ some peek
      → Valid s
      → ((peek ctx k s).0 ≡ found zero (view s k)) × Keeps Valid view s (peek ctx k s).1
  pub peek_fresh_value-view :
      (ask_fresh : Ctx → K → Time → S → Found V × S) (ctx : Ctx) (k : K) (now : Time) (s : S)
      → store.peek_fresh_value ≡ some ask_fresh
      → Valid s
      → ((ask_fresh ctx k now s).0 ≡ fresh_found zero (view s k) now)
        × Keeps Valid view s (ask_fresh ctx k now s).1
  pub set-view :
      (ctx : Ctx) (k : K) (e : Stored V) (s : S)
      → Valid s
      → ((store.set ctx k e s).0 ≡ none)
        × Valid (store.set ctx k e s).1
        × (view (store.set ctx k e s).1 k ≡ some e)
        × Shrinks view k s (store.set ctx k e s).1
  pub delete-view :
      (ctx : Ctx) (k : K) (s : S)
      → Valid s
      → ((store.delete ctx k s).0 ≡ none)
        × Valid (store.delete ctx k s).1
        × (view (store.delete ctx k s).1 k ≡ none)
        × ((j : K) → j ≢ k → view (store.delete ctx k s).1 j ≡ view s j)
  pub clear-view :
      (ctx : Ctx) (s : S)
      → Valid s
      → ((store.clear ctx s).0 ≡ none)
        × Valid (store.clear ctx s).1
        × ((j : K) → view (store.clear ctx s).1 j ≡ none)

-- `Set` changes no other key.
abbrev pub SetKeeps :
    {K V S : Type 0} → Store K V S → (S → Type 0) → (S → K → Option (Stored V)) → Type 0
SetKeeps {K} {V} {S} store Valid view =
    (ctx : Ctx) (k : K) (e : Stored V) (s : S)
    → Valid s
    → (j : K) → j ≢ k
    → view (store.set ctx k e s).1 j ≡ view s j

-- The laws of a store that makes no room: a map.
abbrev pub MapLaws :
    {K V S : Type 0} → V → Store K V S → (S → Type 0) → (S → K → Option (Stored V)) → Type 0
MapLaws zero store Valid view = StoreLaws zero store Valid view × SetKeeps store Valid view

-- The laws of a store with room for one entry: `Set` drops that of any other key.
abbrev pub SlotLaws :
    {K V S : Type 0} → V → Store K V S → (S → Type 0) → (S → K → Option (Stored V)) → Type 0
SlotLaws {K} {V} {S} zero store Valid view =
    StoreLaws zero store Valid view
    × ((ctx : Ctx) (k : K) (e : Stored V) (s : S)
        → Valid s
        → (j : K) → j ≢ k
        → view (store.set ctx k e s).1 j ≡ none)

pub Keeps-trans :
    {K V S : Type 0} {Valid : S → Type 0} {view : S → K → Option (Stored V)} {s t u : S}
    → Keeps Valid view s t
    → Keeps Valid view t u
    → Keeps Valid view s u
Keeps-trans p q = record { valid = q.valid; same = λ j. q.same j ∙ p.same j }

pub Keeps-Shrinks :
    {K V S : Type 0} {Valid : S → Type 0} {view : S → K → Option (Stored V)} {k : K} {s t u : S}
    → Keeps Valid view s t
    → Shrinks view k t u
    → Shrinks view k s u
Keeps-Shrinks p q = λ j n. elim (q j n) [ inl gone ↦ inl gone | inr same ↦ inr (same ∙ p.same j) ]

-- ===== src/Stores/Memory/Loops.antt =====
-- The two loops of `Set` end: each removes one entry a round.
use go_memoize.Base.{
  ℕ, zero, suc, ◌+◌, ◌-◌, ◌≤◌, ◌<◌, Bool, true, false, ◌&&◌, ◌||◌, Bool-cases, Option, some, ◌==◌,
  ltb, ◌≡◌, ◌⊎◌, inl, inr, refl, arith,
}
use go_memoize.Stores.Sizes.{Sizes}
use go_memoize.Stores.Memory.{MemoryStore, remove_tail, make_room, enforce_bytes}
use go_memoize.Stores.Memory.Valid.{IsValid}
use go_memoize.Stores.Memory.Evict.{Evicted, Evicted-refl, Evicted-trans, remove_tail-ok}

-- There is room for one more entry of a cost, in the array and in the bytes.
abbrev pub HasRoom : {K V : Type 0} → ℕ → MemoryStore K V → Type 0
HasRoom cost s =
    (s.len < s.cap) × ((s.max_bytes ≡ 0) ⊎ ((s.used_bytes + cost ≤ s.max_bytes) ⊎ (s.len ≡ 0)))

-- The bytes are within their bound, or only one entry is left.
abbrev pub IsBounded : {K V : Type 0} → MemoryStore K V → Type 0
IsBounded s = (0 < s.len) × ((s.max_bytes ≡ 0) ⊎ ((s.used_bytes ≤ s.max_bytes) ⊎ (s.len ≡ 1)))

module _ {K V : Type 0} (go : Sizes K V) where
  abbrev wants_room : ℕ → MemoryStore K V → Bool
  wants_room cost s =
      s.len == s.cap
      || (ltb 0 s.max_bytes && (ltb s.max_bytes (s.used_bytes + cost) && ltb 0 s.len))

  abbrev is_over : MemoryStore K V → Bool
  is_over s = ltb 0 s.max_bytes && (ltb s.max_bytes s.used_bytes && ltb 1 s.len)

  module _ (s t : MemoryStore K V) (fuel cost : ℕ) {r : Option (Unit {0} × MemoryStore K V)} where
    make_room-more :
        wants_room cost s ≡ true
        → remove_tail go s ≡ some (tt, t)
        → make_room go fuel cost t ≡ r
        → make_room go (suc fuel) cost s ≡ r
    unfolding make_room
    make_room-more e run rest = rw (make_room, e, run) rest

    enforce_bytes-more :
        is_over s ≡ true
        → remove_tail go s ≡ some (tt, t)
        → enforce_bytes go fuel t ≡ r
        → enforce_bytes go (suc fuel) s ≡ r
    unfolding enforce_bytes
    enforce_bytes-more e run rest = rw (enforce_bytes, e, run) rest

  make_room-done :
      (s : MemoryStore K V) (fuel cost : ℕ)
      → wants_room cost s ≡ false
      → make_room go (suc fuel) cost s ≡ some (tt, s)
  unfolding make_room
  make_room-done s fuel cost e = rw (make_room, e) refl

  enforce_bytes-done :
      (s : MemoryStore K V) (fuel : ℕ)
      → is_over s ≡ false
      → enforce_bytes go (suc fuel) s ≡ some (tt, s)
  unfolding enforce_bytes
  enforce_bytes-done s fuel e = rw (enforce_bytes, e) refl

  -- On a valid store, the loop of `Set` that makes room ends after at most one round for each entry:
  -- with more fuel than entries it does not panic and leaves a valid store with room for one more
  -- entry of the given cost, in the array and, if there are bytes to bound and entries left, in
  -- the bytes. Each entry that is evicted was used before every one that is left.
  pub make_room-ok :
      {stamp : K → ℕ} {now : ℕ} (fuel cost : ℕ) (s : MemoryStore K V)
      → IsValid go stamp now s
      → s.len < fuel
      → (t : MemoryStore K V) × (make_room go fuel cost s ≡ some (tt, t))
        × IsValid go stamp now t
        × Evicted stamp s t
        × HasRoom cost t
  make_room-ok zero cost s v fueled = elim fueled [ ]
  make_room-ok {stamp} (suc fuel) cost s v fueled = elim (Bool-cases (wants_room cost s)) [
    | inr e ↦ (s, make_room-done s fuel cost e, v, Evicted-refl stamp s, ground (arith, v.len-le))
    | inl e ↦
        let some_left : 0 < s.len = ground (arith, v.cap_pos) in
        let n = s.len - 1 in
        let counted : s.len ≡ suc n = omega arith in
        let (t, run, r, valid, evicted) = remove_tail-ok go v n counted in
        let (u, rest, valid', evicted', done) =
          make_room-ok fuel cost t valid (omega (arith, r.len)) in
        (u, make_room-more s t fuel cost e run rest, valid', Evicted-trans evicted evicted', done)
  ]

  pub enforce_bytes-ok :
      {stamp : K → ℕ} {now : ℕ} (fuel : ℕ) (s : MemoryStore K V)
      → IsValid go stamp now s
      → 0 < s.len
      → s.len < fuel
      → (t : MemoryStore K V) × (enforce_bytes go fuel s ≡ some (tt, t))
        × IsValid go stamp now t
        × Evicted stamp s t
        × IsBounded t
  enforce_bytes-ok zero s v pos fueled = elim fueled [ ]
  enforce_bytes-ok {stamp} (suc fuel) s v pos fueled = elim (Bool-cases (is_over s)) [
    | inr e ↦ (s, enforce_bytes-done s fuel e, v, Evicted-refl stamp s, ground arith)
    | inl e ↦
        let several : 1 < s.len = ground arith in
        let n = s.len - 1 in
        let counted : s.len ≡ suc n = omega arith in
        let (t, run, r, valid, evicted) = remove_tail-ok go v n counted in
        let (u, rest, valid', evicted', done) =
          enforce_bytes-ok fuel t valid (omega (arith, r.len)) (omega (arith, r.len)) in
        (u, enforce_bytes-more s t fuel 0 e run rest, valid', Evicted-trans evicted evicted', done)
  ]

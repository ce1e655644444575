-- ===== src/Stores/Memory/Reached.antt =====
-- A memory store from `New` on, through any calls of its methods.
use Prim.Native.String.{String}
use native.Mathlib.Nat.{mul-le-mul_right}
use go_memoize.Base.{
  ℕ, ◌+◌, ◌*◌, ◌%◌, ◌≤◌, ◌<◌, none, some, List, [], ◌∷◌, ◌==◌, if◌then◌else◌, ◌≡◌, ◌⊎◌, inl, inr,
  ◌∙◌, refl, arith,
}
use go_memoize.Time.{Time}
use go_memoize.Stored.{Stored}
use go_memoize.Stores.Sizes.{Sizes}
use go_memoize.Stores.Memory.{u32_mod, empty_index, MemoryStore, M, pure, ◌>>=◌, ◌>>◌, zero_element}
use go_memoize.Stores.Memory.Ring.{IsRing-empty}
use go_memoize.Stores.Memory.Valid.{IsValid}
use go_memoize.Stores.Memory.Evict.{Shrunk}
use go_memoize.Stores.Memory.Reads.{Looked, peek-ok, get-ok, peek_fresh_value-ok}
use go_memoize.Stores.Memory.Replaces.{Written}
use go_memoize.Stores.Memory.Writes.{set-ok, delete-ok, clear-ok}
use go_memoize.Stores.Memory.ByTag.{delete_by_tag-ok}
use go_memoize.Stores.Memory.Methods.{
  new_memory, get, peek, peek_fresh_value, set, delete, clear, delete_by_tag,
}

-- the calls a client can make
pub data Call (K V : Type 0) : Type 0 where
  got : K → Call K V
  peeked : K → Call K V
  asked : K → Time → Call K V
  wrote : K → Stored V → Call K V
  deleted : K → Call K V
  cleared : Call K V
  purged : String → Call K V

module _ {K V : Type 0} (go : Sizes K V) where
  abbrev pub run_call : Call K V → M K V (Unit {0})
  run_call (got k) = get go k >>= λ _. pure tt
  run_call (peeked k) = peek go k >>= λ _. pure tt
  run_call (asked k now) = peek_fresh_value go k now >>= λ _. pure tt
  run_call (wrote k e) = set go k e
  run_call (deleted k) = delete go k
  run_call cleared = clear go
  run_call (purged tag) = delete_by_tag go tag

  abbrev pub run_calls : List (Call K V) → M K V (Unit {0})
  run_calls [] = pure tt
  run_calls (c ∷ cs) = run_call c >> run_calls cs

  -- The bounds of a store: on its entries, and on its bytes but for a single entry.
  pub record InBounds (cap max_bytes : ℕ) (s : MemoryStore K V) : Type 0 where
    pub len-le : s.len ≤ cap
    pub used : s.used_bytes ≡ s.len * (go.key_size + go.stored_size)
    pub bytes : (max_bytes ≡ 0) ⊎ ((s.used_bytes ≤ max_bytes) ⊎ (s.len ≤ 1))

  -- the invariant along the calls
  pub record Safe (cap max_bytes : ℕ) (s : MemoryStore K V) : Type 0 where
    pub stamp : K → ℕ
    pub now : ℕ
    pub valid : IsValid go stamp now s
    pub caps : s.cap ≡ cap
    pub maxs : s.max_bytes ≡ max_bytes
    pub fits : (max_bytes ≡ 0) ⊎ ((s.used_bytes ≤ max_bytes) ⊎ (s.len ≤ 1))

  module _ {c m : ℕ} {s t : MemoryStore K V} (h : Safe c m s) where
    Safe-Shrunk : Shrunk s t → {stamp : K → ℕ} {now : ℕ} → IsValid go stamp now t → Safe c m t
    Safe-Shrunk less {stamp} {now} v = record {
      stamp = stamp;
      now = now;
      valid = v;
      caps = less.cap ∙ h.caps;
      maxs = less.max_bytes ∙ h.maxs;
      fits = elim h.fits [
        | inl none_set ↦ inl none_set
        | inr (inl le) ↦ inr (
            inl (
              omega (
                arith,
                v.used,
                h.valid.used,
                mul-le-mul_right (go.key_size + go.stored_size) less.len,
              )))
        | inr (inr le) ↦ inr (inr (omega (arith, less.len)))
      ];
    }

    Safe-Looked : (k : K) → Looked go h.valid k t → Safe c m t
    Safe-Looked k (same, valid) =
        let less : Shrunk s t = record {
          cap = same.cap;
          max_bytes = same.max_bytes;
          len = omega (arith, same.len);
        } in
        elim valid [ inl v ↦ Safe-Shrunk less v | inr v ↦ Safe-Shrunk less v ]

    Safe-Written :
        (k : K) (e : Stored V) {stamp : K → ℕ} {now : ℕ}
        → Written h.stamp k e s t
        → IsValid go stamp now t
        → Safe c m t
    Safe-Written k e {stamp} {now} w v = record {
      stamp = stamp;
      now = now;
      valid = v;
      caps = w.cap ∙ h.caps;
      maxs = w.max_bytes ∙ h.maxs;
      fits = ground (arith, w.bounded.1, w.max_bytes, h.maxs);
    }

  run_call-ok :
      {c m : ℕ} {s : MemoryStore K V} (a : Call K V)
      → Safe c m s
      → (t : MemoryStore K V) × (run_call a s ≡ some (tt, t)) × Safe c m t
  run_call-ok (got k) h =
      let (t, run, same) = get-ok go h.valid k in (t, rw (run_call, run) refl, Safe-Looked h k same)
  run_call-ok {s} (peeked k) h = (s, rw (run_call, peek-ok go h.valid k) refl, h)
  run_call-ok (asked k now) h =
      let (t, run, same) = peek_fresh_value-ok go h.valid k now in
      (t, rw (run_call, run) refl, Safe-Looked h k same)
  run_call-ok {s} (wrote k e) h =
      let (t, run, valid, w) = set-ok go s h.valid k e in (t, run, Safe-Written h k e w valid)
  run_call-ok {s} (deleted k) h =
      let (t, run, valid, less, _, _) = delete-ok go s h.valid k in
      (t, run, Safe-Shrunk h less valid)
  run_call-ok {s} cleared h =
      let (t, run, valid, less, _) = clear-ok go s h.valid in (t, run, Safe-Shrunk h less valid)
  run_call-ok {s} (purged tag) h =
      let (t, run, valid, less, _) = delete_by_tag-ok go tag s h.valid in
      (t, run, Safe-Shrunk h less valid)

  run_calls-ok :
      {c m : ℕ} (s : MemoryStore K V) (calls : List (Call K V))
      → Safe c m s
      → (t : MemoryStore K V) × (run_calls calls s ≡ some (tt, t)) × Safe c m t
  run_calls-ok s [] h = (s, refl, h)
  run_calls-ok s (a ∷ calls) h =
      let (t, run, safe) = run_call-ok a h in
      let (u, rest, done) = run_calls-ok t calls safe in (u, rw (run_calls, run) rest, done)

  pub new_memory-Safe :
      (capacity sample m : ℕ)
      → 0 < capacity % u32_mod
      → (s : MemoryStore K V) × (new_memory go capacity sample m ≡ some s)
        × Safe (capacity % u32_mod) m s
  unfolding new_memory
  new_memory-Safe capacity sample m pos = (
    record {
      index = λ _. none;
      elements = λ _. zero_element go;
      head = empty_index;
      len = 0;
      cap = capacity % u32_mod;
      used_bytes = 0;
      get_hits = 0;
      get_recency_sample = if sample == 0 then 1 else sample;
      max_bytes = m;
    },
    ground arith,
    record {
      stamp = λ _. 0;
      now = 0;
      valid = record {
        cap_pos = pos;
        cap-lt = omega arith;
        len-le = omega arith;
        head_empty = λ f. refl;
        head_in = λ f. absurd (omega arith);
        ring = IsRing-empty (λ q i. omega arith);
        recent = λ q i. absurd (omega arith);
        indexed = λ q i. absurd (omega arith);
        index_in = λ k q f. absurd (cc f);
        index_key = λ k q f. absurd (cc f);
        costs = λ q i. absurd (omega arith);
        used = grind arith;
      };
      caps = refl;
      maxs = refl;
      fits = inr (inr (omega arith));
    },
  )

  -- Whatever methods a client calls on a new store, of a capacity that is not a multiple of 2 ^ 32:
  -- no call panics, and then the store has at most as many entries as its capacity modulo 2 ^ 32,
  -- its bytes in use are those of its entries, and they are within the bound on them if there is
  -- one, unless there is a single entry.
  pub run_calls-InBounds :
      (capacity sample m : ℕ) (calls : List (Call K V))
      → 0 < capacity % u32_mod
      → (s : MemoryStore K V) × (t : MemoryStore K V) × (new_memory go capacity sample m ≡ some s)
        × (run_calls calls s ≡ some (tt, t))
        × InBounds (capacity % u32_mod) m t
  run_calls-InBounds capacity sample m calls pos =
      let (s, made, safe) = new_memory-Safe capacity sample m pos in
      let (t, run, h) = run_calls-ok s calls safe in
      (
        s,
        t,
        made,
        run,
        record {
          len-le = omega (arith, h.valid.len-le, h.caps);
          used = h.valid.used;
          bytes = h.fits;
        },
      )

-- ===== src/Cache/New.antt =====
-- What `New` guarantees of the cache that it returns, and which settings it accepts.
use go_memoize.Base.{
  ◌<◌, Bool, true, false, some, is_some, List, [], ◌∷◌, ◌≡◌, ◌⊎◌, ◌∙◌, refl, arith, if◌then◌else◌,
}
use mathlib.Core.Path.{subst}
use go_memoize.Base.Int.{pos, pos_part, neg_part}
use go_memoize.Base.Result.{ok, ◌>>=◌, >>=-eq-ok}
use go_memoize.Store.{Store}
use go_memoize.Options.{given, Options}
use go_memoize.Cache.{
  Cache, initial, apply_store, apply_settings, apply_options, apply_all, validate, start_clock, new,
  stop,
}

if-eta : (b : Bool) → (if b then true else false) ≡ b
if-eta true = refl
if-eta false = refl

-- Settings that make a cache work: an expiration policy, a stale window only behind a ttl, and a
-- store, unless the cache is bypassed.
pub record IsLegal {K V S : Type 0} (c : Cache K V S) : Type 0 where
  pub policy : (0 < pos_part c.ttl) ⊎ ((c.no_expiration ≡ true) ⊎ (c.bypass ≡ true))
  pub ttl_valid : c.ttl_set ≡ true → 0 < pos_part c.ttl
  pub stale_valid : neg_part c.stale_ttl ≡ 0
  pub stale_behind : 0 < pos_part c.stale_ttl → 0 < pos_part c.ttl
  pub stored : (is_some c.store ≡ true) ⊎ (c.bypass ≡ true)

-- A cache that can run: legal settings, and a clock that it owns exactly if it is a ticker of its
-- own making, which only `Stop` of this cache stops.
pub record IsReady {K V S : Type 0} (c : Cache K V S) : Type 0 where
  pub legal : IsLegal c
  pub clocked : is_some c.clock ≡ true
  pub owned : c.clock_owned ≡ true → stop c ≡ true

-- What holds of the settings while `New` applies its options.
record IsApplied {K V S : Type 0} (c : Cache K V S) : Type 0 where
  unset : c.ttl_set ≡ false → c.ttl ≡ pos 0
  unowned : c.clock_owned ≡ false

module _ {K V S : Type 0} where
  validate-IsLegal : (c d : Cache K V S) → IsApplied c → validate c ≡ ok d → (c ≡ d) × IsLegal c
  unfolding validate
  validate-IsLegal c d a h = ground arith

  validate_complete : (c : Cache K V S) → IsApplied c → IsLegal c → validate c ≡ ok c
  unfolding validate
  validate_complete c a h = ground arith

  apply_options-IsApplied :
      (c d : Cache K V S) (opt : Options K V S)
      → IsApplied c
      → apply_options c opt ≡ ok d
      → IsApplied d
  unfolding apply_options
  apply_options-IsApplied c d opt a h = ground arith

  apply_all-IsApplied :
      (c d : Cache K V S) (opts : List (Options K V S))
      → IsApplied c
      → apply_all c opts ≡ ok d
      → IsApplied d
  unfolding apply_all
  apply_all-IsApplied c d [] a h = ground arith
  apply_all-IsApplied c d (opt ∷ opts) a h =
      let (c', e, rest) = >>=-eq-ok (apply_options c opt) (λ c. apply_all c opts) h in
      apply_all-IsApplied c' d opts (apply_options-IsApplied c c' opt a e) rest

  start_clock-IsReady : (c : Cache K V S) → IsApplied c → IsLegal c → IsReady (start_clock c)
  unfolding start_clock stop
  start_clock-IsReady c a h = ground arith

  initial-IsApplied : IsApplied (initial {K = K} {V = V} {S = S})
  unfolding initial
  initial-IsApplied = ground arith

  -- Whatever the options, a cache that `New` returns has an expiration policy, a positive ttl
  -- wherever one was set, a stale window only behind a ttl, a store unless it is bypassed, and a
  -- clock; and if it owns the clock, `Stop` stops it.
  pub new-IsReady : (opts : List (Options K V S)) (c : Cache K V S) → new opts ≡ ok c → IsReady c
  unfolding new
  new-IsReady opts c h =
      let (c₁, applied, rest) =
        >>=-eq-ok (apply_all initial opts) (λ c. validate c >>= λ c. ok (start_clock c)) h in
      let (c₂, valid, started) = >>=-eq-ok (validate c₁) (λ c. ok (start_clock c)) rest in
      let a = apply_all-IsApplied initial c₁ opts initial-IsApplied applied in
      let (same, legal) = validate-IsLegal c₁ c₂ a valid in
      let e : start_clock c₁ ≡ c = cc in subst IsReady e (start_clock-IsReady c₁ a legal)

  -- `New` refuses nothing that is legal: when the options apply and the settings are legal, it
  -- returns those settings with their clock started.
  pub new_complete :
      (opts : List (Options K V S)) (c : Cache K V S)
      → apply_all initial opts ≡ ok c
      → IsLegal c
      → new opts ≡ ok (start_clock c)
  unfolding new
  new_complete opts c h l =
      rw h (rw (validate_complete c (apply_all-IsApplied initial c opts initial-IsApplied h) l))

  -- Settings other than the store leave the store alone.
  apply_settings-store :
      (c : Cache K V S) (opts : Options K V S)
      → ((apply_settings c opts).store ≡ c.store) × ((apply_settings c opts).peeker ≡ c.peeker)
  unfolding apply_settings
  apply_settings-store c opts = (ground arith, ground arith)

  apply_settings-bypass :
      (c : Cache K V S) (opts : Options K V S)
      → (apply_settings c opts).bypass ≡ (if opts.bypass then true else c.bypass)
  unfolding apply_settings
  apply_settings-bypass c opts = ground arith

  start_clock-store :
      (c : Cache K V S)
      → ((start_clock c).bypass ≡ c.bypass)
        × ((start_clock c).store ≡ c.store)
        × ((start_clock c).peeker ≡ c.peeker)
  unfolding start_clock
  start_clock-store c = (ground arith, ground arith, ground arith)

  apply_options-given :
      (opt : Options K V S) (store : Store K V S)
      → opt.has_store ≡ true
      → opt.store ≡ given store
      → apply_options initial opt
        ≡ ok (apply_settings (record initial { store = some store; peeker = store.peek }) opt)
  unfolding apply_options apply_store
  apply_options-given opt store has is = simp (has, is)

  -- A cache made with one store works on that store, through its optional methods where it has
  -- them.
  pub new-store :
      (opt : Options K V S) (store : Store K V S) {c : Cache K V S}
      → opt.has_store ≡ true
      → opt.store ≡ given store
      → new (opt ∷ []) ≡ ok c
      → (c.bypass ≡ opt.bypass) × (c.store ≡ some store) × (c.peeker ≡ store.peek)
  unfolding new initial
  new-store opt store {c} has is made =
      let d : Cache K V S = record initial { store = some store; peeker = store.peek } in
      let e = apply_settings d opt in
      let (c₁, applied, rest) =
        >>=-eq-ok (apply_all initial (opt ∷ [])) (λ c. validate c >>= λ c. ok (start_clock c))
          made in
      let (c₂, valid, started) = >>=-eq-ok (validate c₁) (λ c. ok (start_clock c)) rest in
      let a = apply_all-IsApplied initial c₁ (opt ∷ []) initial-IsApplied applied in
      let (same, legal) = validate-IsLegal c₁ c₂ a valid in
      let all : apply_all initial (opt ∷ []) ≡ ok e =
        rw (apply_options-given opt store has is, apply_all) in
      let is_e : start_clock e ≡ c = cc in
      let (b, s, p) = start_clock-store e in
      let (s', p') = apply_settings-store d opt in
      rw (← is_e) (b ∙ apply_settings-bypass d opt ∙ if-eta opt.bypass, s ∙ s', p ∙ p')

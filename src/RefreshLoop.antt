-- ===== src/RefreshLoop.antt =====
-- internal/refreshloop/refreshloop.go: the loop of the goroutines that load a value again and again.
use go_memoize.Base.{ℕ, suc, Option, none, some, List, [], ◌∷◌, if◌then◌else◌}
use go_memoize.Base.Int.{is_nonpos}
use go_memoize.Time.{Duration}
use go_memoize.Store.{Error}

-- What the loop waits for: a tick of its ticker, or the end of its context.
pub data Signal : Type 0 where
  tick done : Signal

-- A load function, by how many loads ran before: the value and the error that it returns.
abbrev pub Load : Type 0 → Type 0
Load V = ℕ → V × Option Error

-- `Hooks[V]`, as steps on a state; `none` in place of a state is a panic.
pub record Hooks (V S : Type 0) : Type 0 where
  pub on_value : Option (V → S → Option S)
  pub on_error : Option (Error → S → Option S)

module _ {S : Type 0} where
  -- a hook that may be missing
  abbrev pub call : {A : Type 0} → Option (A → S → Option S) → A → S → Option S
  call none a s = some s
  call (some hook) a s = hook a s

  abbrev pub and_then : Option S → (S → Option S) → Option S
  and_then none f = none
  and_then (some s) f = f s

module _ {V S : Type 0} where
  -- what a load makes of the state
  unfoldable pub hand_on : Hooks V S → V × Option Error → S → Option S
  hand_on hooks (v, some err) s = call hooks.on_error err s
  hand_on hooks (v, none) s = call hooks.on_value v s

  -- the loop, from a number of loads on, by the signals that come
  unfoldable pub run_from : Load V → Hooks V S → ℕ → List Signal → S → Option S
  run_from load hooks i [] s = some s
  run_from load hooks i (done ∷ signals) s = some s
  run_from load hooks i (tick ∷ signals) s =
      and_then (hand_on hooks (load i) s) (run_from load hooks (suc i) signals)

  -- `Run`
  unfoldable pub run_loop : Duration → Load V → Hooks V S → ℕ → List Signal → S → Option S
  run_loop interval load hooks i signals s =
      if is_nonpos interval then some s else run_from load hooks i signals s

-- the ticks before the end
abbrev pub ticks : List Signal → ℕ
ticks [] = 0
ticks (done ∷ signals) = 0
ticks (tick ∷ signals) = suc (ticks signals)

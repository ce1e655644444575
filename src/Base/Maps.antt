-- ===== src/Base/Maps.antt =====
-- Maps as functions: Go's maps and arrays, where only reads and writes of single keys matter.
use mathlib.Core.Path.{◌≡◌, refl}
use mathlib.Core.Logic.{◌≢◌, ite, if_pos, if_neg}

-- `m[k] = v`
unfoldable pub update {ℓ κ} : {K : Type ℓ} {A : Type κ} → Discrete K → (K → A) → K → A → K → A
update dec m k v j = ite (dec k j) v (m j)

module _ {ℓ κ} {K : Type ℓ} {A : Type κ} (dec : Discrete K) (m : K → A) where
  pub update_self : (k : K) (v : A) → update dec m k v k ≡ v
  unfolding update
  update_self k v = if_pos (dec k k) refl v (m k)

  pub update_ne : (k j : K) (v : A) → k ≢ j → update dec m k v j ≡ m j
  unfolding update
  update_ne k j v h = if_neg (dec k j) h v (m j)

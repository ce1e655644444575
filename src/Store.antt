-- ===== src/Store.antt =====
-- store.go and errors.go: the errors of the package, and the interface through which a cache
-- reaches its store, with the two optional methods that cache.go asks a store for.
pub mod Laws
use Prim.Native.String.{String}
use go_memoize.Base.{ℕ, Bool, true, false, Option, none, some, List, []}
use go_memoize.Time.{Time, Duration}
use go_memoize.Stored.{Stored}

-- `external` stands for the errors of code outside the package: compute functions and stores.
pub data Error : Type 0 where
  missing_expiration_policy invalid_ttl invalid_stale_ttl missing_store invalid_store : Error
  external : ℕ → Error

-- `context.Context`: it is handed on and never read.
pub data Ctx : Type 0 where
  background : Ctx
  request : ℕ → Ctx
  with_timeout : Duration → Ctx

-- What Go's `(A, bool, error)` returns.
abbrev pub Found : Type 0 → Type 0
Found A = A × Bool × Option Error

-- The zero value of a type, which Go returns where there is no result.
abbrev pub zero_stored : {V : Type 0} → V → Stored V
zero_stored zero = record {
  value = zero;
  created_at = 0;
  fresh_until = 0;
  stale_until = 0;
  no_expire = false;
  version = "";
  tags = [];
}

-- `Store[K, V]` over a store whose state is `S`. The last two methods are those of `peekingStore`
-- and `freshValueStore`, which a store may lack.
pub record Store (K V S : Type 0) : Type 0 where
  pub get : Ctx → K → S → Found (Stored V) × S
  pub set : Ctx → K → Stored V → S → Option Error × S
  pub delete : Ctx → K → S → Option Error × S
  pub clear : Ctx → S → Option Error × S
  pub peek : Option (Ctx → K → S → Found (Stored V) × S)
  pub peek_fresh_value : Option (Ctx → K → Time → S → Found V × S)

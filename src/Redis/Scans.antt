-- ===== src/Redis/Scans.antt =====
-- `Clear` of adapters/redis/store.go: what its deletions leave.
use Prim.Native.String.{String}
use mathlib.Core.Path.{subst}
use go_memoize.Base.Strings.{string_discrete}
use go_memoize.Base.{Option, none, some, List, [], ◌∷◌, ◌≡◌, ◌⊎◌, inl, inr, refl, ◌∙◌}
use go_memoize.Store.{Ctx, Error}
use go_memoize.Redis.{Go, RedisStore}
use go_memoize.Redis.Methods.{unless_error, del_all}
use go_memoize.Redis.Server.{Listed, ServerLaws}

unless_error-cases {ℓ} :
    {C : Type 0} (P : Option Error × C → Type ℓ) (r : Option Error × C)
    (rest : C → Option Error × C)
    → ((e : Error) → r.0 ≡ some e → P (some e, r.1))
    → (r.0 ≡ none → P (rest r.1))
    → P (unless_error r rest)
unfolding unless_error
unless_error-cases P (some e, c) rest failed went = failed e refl
unless_error-cases P (none, c) rest failed went = went refl

module _ {K V C Bytes : Type 0} {go : Go K V Bytes} {s : RedisStore K V C Bytes}
    {at : C → String → Option Bytes} (server : ServerLaws go s at) where
  -- a deletion may drop any value and changes none
  del-Shrunk :
      (ctx : Ctx) (k q : String) (c : C)
      → (at (s.client.del ctx k c).1 q ≡ none) ⊎ (at (s.client.del ctx k c).1 q ≡ at c q)
  del-Shrunk ctx k q c = elim (string_discrete q k) [
    | yes e ↦ rw e (server.del-Shrunk ctx k c)
    | no other ↦ inr (server.del-Apart ctx k c q other)
  ]

  pub del_all-Shrunk :
      (ctx : Ctx) (ks : List String) (last : Option Error) (q : String) (c : C)
      → (at (del_all go s ctx ks last c).1 q ≡ none)
        ⊎ (at (del_all go s ctx ks last c).1 q ≡ at c q)
  unfolding del_all
  del_all-Shrunk ctx [] last q c = inr refl
  del_all-Shrunk ctx (k ∷ ks) last q c =
      let step = s.client.del ctx k c in
      unless_error-cases (λ r. (at r.1 q ≡ none) ⊎ (at r.1 q ≡ at c q)) step _
        (λ e failed. del-Shrunk ctx k q c)
        (λ done. elim (del_all-Shrunk ctx ks last q step.1) [
          | inl gone ↦ inl gone
          | inr same ↦ elim (del-Shrunk ctx k q c) [
            | inl gone ↦ inl (same ∙ gone)
            | inr kept ↦ inr (same ∙ kept)
          ]
        ])

  pub gone-stays :
      (ctx : Ctx) (ks : List String) (last : Option Error) (q : String) (c : C)
      → at c q ≡ none
      → at (del_all go s ctx ks last c).1 q ≡ none
  gone-stays ctx ks last q c gone = elim (del_all-Shrunk ctx ks last q c) [
    | inl e ↦ e
    | inr same ↦ same ∙ gone
  ]

  -- without an error, every key of the scan is gone and the scan ended well
  pub del_all-gone :
      (ctx : Ctx) (ks : List String) (last : Option Error) (q : String) (c : C)
      → (del_all go s ctx ks last c).0 ≡ none
      → (last ≡ none) × (Listed q ks → at (del_all go s ctx ks last c).1 q ≡ none)
  unfolding del_all
  del_all-gone ctx [] last q c done = (done, λ h. elim h [ ])
  del_all-gone ctx (k ∷ ks) last q c done =
      let step = s.client.del ctx k c in
      unless_error-cases (λ r. r.0 ≡ none → (last ≡ none) × (Listed q (k ∷ ks) → at r.1 q ≡ none))
        step _ (λ e failed h. absurd (cc))
        (λ went done.
          let rest = del_all-gone ctx ks last q step.1 done in
          (
            rest.0,
            λ listed. elim listed [
              | inl same ↦
                  gone-stays ctx ks last q step.1
                    (subst (λ q. at step.1 q ≡ none) same (server.del-gone ctx k c went))
              | inr later ↦ rest.1 later
            ],
          ))
        done

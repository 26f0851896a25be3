-- ===== src/System/SetUp.antt =====
-- What holds of each backend that `NewBackend` makes holds of the backends of a pool that `cmd/lb`
-- sets up (lib/balancer.go, cmd/lb/main.go).
use go_load_balance.Prelude.{
  some_value, bind_inv, ok_value, ℕ, zero, suc, ◌≡◌, refl, sym, ap, subst, ◌∙◌, List, [], ◌∷◌, none,
  String, pos, Result, ok, ◌>>=◌, get_elem?,
}
use go_load_balance.Backend.{Backend, new_backend}
use go_load_balance.Pool.{Pool, new_backends, new_pool, set_max_conns, enable_cache_aware}
use go_load_balance.Pool.Choose.{At}
use go_load_balance.System.{IsSetUp, unlimited, limited, cache_aware}

-- A predicate of each backend of a list.
abbrev pub Everywhere : (Backend → Type 0) → List Backend → Type 0
Everywhere P bs = (i : ℕ) (b : Backend) → At bs i b → P b

module _ (P : Backend → Type 0) where
  Everywhere-cons :
      (b : Backend) (bs : List Backend) → P b → Everywhere P bs → Everywhere P (b ∷ bs)
  Everywhere-cons b bs first rest zero c at = subst P (some_value at) first
  Everywhere-cons b bs first rest (suc i) c at = rest i c at

  module _ (parse_url : String → Result String String)
      (made : (u : String) (b : Backend) → new_backend parse_url u ≡ ok b → P b) where
    new_backends-Everywhere :
        (urls : List String) (bs : List Backend)
        → new_backends parse_url urls ≡ ok bs
        → Everywhere P bs
    unfolding new_backends
    new_backends-Everywhere [] bs e i b at = cc
    new_backends-Everywhere (u ∷ urls) bs e i b at =
        let (c, parsed, rest) =
          bind_inv (new_backend parse_url u)
            (λ c. new_backends parse_url urls >>= (λ cs. ok (c ∷ cs))) bs e in
        let (cs, others, is) = bind_inv (new_backends parse_url urls) (λ cs. ok (c ∷ cs)) bs rest in
        Everywhere-cons c cs (made u c parsed) (new_backends-Everywhere urls cs others) i b
          (ap (λ l. get_elem? l i) (ok_value is) ∙ at)

    pub new_pool-Everywhere :
        (urls : List String) (p : Pool)
        → new_pool parse_url urls ≡ ok p
        → Everywhere P p.backends × (p.max_conns ≡ pos 0) × (p.affinity ≡ none)
    unfolding new_pool
    new_pool-Everywhere [] p e = cc
    new_pool-Everywhere (u ∷ urls) p e =
        let (bs, made_all, is) =
          bind_inv (new_backends parse_url (u ∷ urls))
            (λ bs. ok (record { backends = bs; max_conns = pos 0; affinity = none })) p e in
        subst (λ (x : Pool). Everywhere P x.backends × (x.max_conns ≡ pos 0) × (x.affinity ≡ none))
          (ok_value is) (new_backends-Everywhere (u ∷ urls) bs made_all, refl, refl)

    pub IsSetUp-Everywhere : {p : Pool} → IsSetUp parse_url p → Everywhere P p.backends
    unfolding set_max_conns enable_cache_aware
    IsSetUp-Everywhere (unlimited urls {p} is_ok) = (new_pool-Everywhere urls p is_ok).0
    IsSetUp-Everywhere (limited urls n p is_ok is) =
        subst (λ (q : Pool). Everywhere P q.backends) (sym is) (new_pool-Everywhere urls p is_ok).0
    IsSetUp-Everywhere (cache_aware urls ttl n p is_ok above is) =
        subst (λ (q : Pool). Everywhere P q.backends) (sym is) (new_pool-Everywhere urls p is_ok).0

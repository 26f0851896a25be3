-- ===== src/Routing/Admission.antt =====
-- Cache-aware routing admits the requests that least-connections routing admits.
use go_load_balance.Prelude.{ℕ, ◌≡◌, ◌↔◌, refl, ap, subst, false, List, ℤ, arith}
use go_load_balance.Table.{Hash}
use go_load_balance.Backend.{Backend}
use go_load_balance.Affinity.{Affinity}
use go_load_balance.Pool.Scan.{is_eligible}
use go_load_balance.Pool.Choose.{
  IsIntn, At, Chosen, least_of, all_full, all_down, least_conn_locked-Chosen,
}
use go_load_balance.Pool.{Pool, Choice, refused, SelectError, least_conn_locked}
use go_load_balance.Routing.Select.{
  IsReady, Outcome, served, turned_away, CountsNat-CountsFit, select_cache_aware-Outcome,
}
use go_load_balance.Routing.{select_cache_aware}

module _ {max_conns : ℤ} {bs : List Backend} where
  Chosen-refused_unique :
      {e e' : SelectError}
      → Chosen max_conns bs (refused e)
      → Chosen max_conns bs (refused e')
      → e ≡ e'
  Chosen-refused_unique (all_full i b at up n) (all_full i' b' at' up' n') = refl
  Chosen-refused_unique (all_full i b at up n) (all_down down) =
      let is_down = down i b at in absurd (ground arith)
  Chosen-refused_unique (all_down down) (all_full i b at up n) =
      let is_down = down i b at in absurd (ground arith)
  Chosen-refused_unique (all_down down) (all_down down') = refl

  Chosen-refused-none_eligible :
      {e : SelectError} (i : ℕ) (b : Backend)
      → Chosen max_conns bs (refused e)
      → At bs i b
      → is_eligible max_conns b ≡ false
  Chosen-refused-none_eligible i b (all_full j c at_c up n) at = n i b at
  Chosen-refused-none_eligible i b (all_down down) at = let is_down = down i b at in ground arith

  Chosen-refused-agree :
      {e : SelectError} {c : Choice}
      → Chosen max_conns bs (refused e)
      → Chosen max_conns bs c
      → c ≡ refused e
  Chosen-refused-agree r (least_of {i} b l) =
      let out = Chosen-refused-none_eligible i b r l.at in absurd (ground (arith, l.eligible))
  Chosen-refused-agree {e} r (all_full j c at_c up n) =
      ap refused (Chosen-refused_unique (all_full j c at_c up n) r)
  Chosen-refused-agree {e} r (all_down down) = ap refused (Chosen-refused_unique (all_down down) r)

Outcome-refused :
    {p : Pool} {a : Affinity} {e : SelectError} {r : Pool × Choice}
    → Outcome p a r
    → r.1 ≡ refused e
    → Chosen p.max_conns p.backends (refused e)
Outcome-refused (served b a' admits inv) h = absurd (cc)
Outcome-refused {p} (turned_away a' c inv) h = subst (Chosen p.max_conns p.backends) h c

Outcome-refusal :
    {p : Pool} {a : Affinity} {e : SelectError} {r : Pool × Choice}
    → Outcome p a r
    → Chosen p.max_conns p.backends (refused e)
    → r.1 ≡ refused e
Outcome-refusal (served {i} b a' admits inv) c =
    let out = Chosen-refused-none_eligible i b c admits.at in
    absurd (ground (arith, admits.healthy, admits.below_cap))
Outcome-refusal (turned_away a' c' inv) c = ap refused (Chosen-refused_unique c' c)

-- Affinity never turns a request away: in a pool that is ready, `selectCacheAware` returns an
-- error exactly when `leastConnLocked` would, and it is the same error, whatever the chain and
-- the pins.
pub select_cache_aware-refuses_iff :
    (chain : List Hash) (now : ℕ) (p : Pool) (a : Affinity) (intn : ℕ → ℕ) (e : SelectError)
    → IsReady p a
    → IsIntn intn
    → ((select_cache_aware intn now chain p).1 ≡ refused e) ↔ (least_conn_locked intn p ≡ refused e)
select_cache_aware-refuses_iff chain now p a intn e ready random =
    let outcome = select_cache_aware-Outcome chain now p a ready intn random in
    let least =
      least_conn_locked-Chosen intn p random (CountsNat-CountsFit p.backends ready.counts) in
    (
      λ h. Chosen-refused-agree (Outcome-refused outcome h) least,
      λ h. Outcome-refusal outcome (subst (Chosen p.max_conns p.backends) h least),
    )

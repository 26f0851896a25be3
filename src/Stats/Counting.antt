-- ===== src/Stats/Counting.antt =====
-- What the routing counters count: the requests that were served (lib/cacheaware.go,
-- `selectCacheAware` and `affinityStatsLine`).
use go_load_balance.Prelude.{
  ℕ, ◌+◌, ◌%◌, ◌^◌, ◌≡◌, ◌≢◌, refl, sym, ap, subst, ◌∙◌, List, [], ◌∷◌, Option, none, some, length,
  get_elem?, arith,
}
use go_load_balance.Table.{Hash, nat_eq}
use go_load_balance.Backend.{Backend}
use go_load_balance.Affinity.{Affinity, RequestRecord, Entry}
use go_load_balance.Pool.Choose.{IsIntn}
use go_load_balance.Pool.{Pool, Choice, picked, refused, panicked}
use go_load_balance.Routing.Select.{IsReady, select_cache_aware-follow, select_cache_aware-Outcome}
use go_load_balance.Routing.Sticky.{Outcome-ne-panicked}
use go_load_balance.Routing.{
  Route, warm, cold, overflow, failed, fault, follow, serve_on, finish, put_retained, upsert_locked,
  upsert_chain, select_cache_aware,
}
use go_load_balance.Stats.{StatsLine, idle, shares, stats_total, stats_line, affinity_stats_line}

-- A choice that is a request served.
abbrev pub served_count : Choice → ℕ
served_count (picked i) = 1
served_count (refused e) = 0
served_count panicked = 0

-- The same counters.
abbrev SameCounters : Affinity → Affinity → Type 0
SameCounters a a' = (a'.warm ≡ a.warm) × (a'.cold ≡ a.cold) × (a'.overflow ≡ a.overflow)

put_retained-SameCounters :
    (idx : ℕ) (a a' : Affinity) (o : Option (List RequestRecord × List (Hash × Entry)))
    → put_retained idx a o ≡ some a'
    → SameCounters a a'
put_retained-SameCounters idx a a' none e = cc
put_retained-SameCounters idx a a' (some (records, table)) e = ground arith

upsert_chain-SameCounters :
    (chain : List Hash) (idx epoch now : ℕ) (a a' : Affinity)
    → upsert_chain chain idx epoch now a ≡ some a'
    → SameCounters a a'
unfolding upsert_locked
upsert_chain-SameCounters [] idx epoch now a a' e = ground arith
upsert_chain-SameCounters (h ∷ chain) idx epoch now a a' e = put_retained-SameCounters idx a a' _ e

-- A call that leaves the counters with this sum.
abbrev Totals : ℕ → Pool × Choice → Type 0
Totals n r = (a' : Affinity) × (r.0.affinity ≡ some a') × (stats_total a' ≡ n)

module _ (chain : List Hash) (now : ℕ) (p : Pool) where
  finish-Totals :
      (i epoch : ℕ) (a : Affinity) (o : Option Affinity)
      → upsert_chain chain i epoch now a ≡ o
      → (finish p i o).1 ≢ panicked
      → Totals (stats_total a) (finish p i o) × ((finish p i o).1 ≡ picked i)
  finish-Totals i epoch a none e ok = absurd (ok refl)
  finish-Totals i epoch a (some a') e ok =
      let same = upsert_chain-SameCounters chain i epoch now a a' e in
      ((a', refl, ground arith), refl)

  serve_on-Totals :
      (i : ℕ) (a : Affinity) (o : Option Backend)
      → (serve_on chain now p a i o).1 ≢ panicked
      → Totals (stats_total a) (serve_on chain now p a i o)
        × ((serve_on chain now p a i o).1 ≡ picked i)
  serve_on-Totals i a none ok = absurd (ok refl)
  serve_on-Totals i a (some b) ok =
      finish-Totals i b.epoch a (upsert_chain chain i b.epoch now a) refl ok

  one_more :
      (i n m : ℕ) (r : Pool × Choice)
      → Totals m r × (r.1 ≡ picked i)
      → m ≡ (n + 1) % 2 ^ 64
      → Totals ((n + served_count r.1) % 2 ^ 64) r
  one_more i n m r ((a', kept, total), chose) e =
      (a', kept, total ∙ e ∙ ap (λ c. (n + served_count c) % 2 ^ 64) (sym chose))

  follow-Totals :
      (a : Affinity) (r : Route)
      → (follow chain now p a r).1 ≢ panicked
      → Totals
          ((stats_total a + served_count (follow chain now p a r).1) % 2 ^ 64)
          (follow chain now p a r)
  unfolding follow
  follow-Totals a (warm i) ok =
      let a₁ = record a { warm = (a.warm + 1) % 2 ^ 64 } in
      one_more i (stats_total a) (stats_total a₁)
        (serve_on chain now p a₁ i (get_elem? p.backends i))
        (serve_on-Totals i a₁ (get_elem? p.backends i) ok) (omega arith)
  follow-Totals a (cold i) ok =
      let a₁ = record a { cold = (a.cold + 1) % 2 ^ 64 } in
      one_more i (stats_total a) (stats_total a₁)
        (serve_on chain now p a₁ i (get_elem? p.backends i))
        (serve_on-Totals i a₁ (get_elem? p.backends i) ok) (omega arith)
  follow-Totals a (overflow i) ok =
      let a₁ = record a { overflow = (a.overflow + 1) % 2 ^ 64 } in
      one_more i (stats_total a) (stats_total a₁)
        (serve_on chain now p a₁ i (get_elem? p.backends i))
        (serve_on-Totals i a₁ (get_elem? p.backends i) ok) (omega arith)
  follow-Totals a (failed e) ok = (a, refl, omega arith)
  follow-Totals a fault ok = absurd (ok refl)

  select_cache_aware-Totals :
      (a : Affinity) (intn : ℕ → ℕ)
      → IsReady p a
      → IsIntn intn
      → Totals
          ((stats_total a + served_count (select_cache_aware intn now chain p).1) % 2 ^ 64)
          (select_cache_aware intn now chain p)
  select_cache_aware-Totals a intn ready random =
      let (table, selected, only) = select_cache_aware-follow chain now p a ready intn in
      let ok = Outcome-ne-panicked (select_cache_aware-Outcome chain now p a ready intn random) in
      subst (λ r. Totals ((stats_total a + served_count r.1) % 2 ^ 64) r) (sym selected)
        (follow-Totals (record a { table = table }) _
          (subst (λ (r : Pool × Choice). r.1 ≢ panicked) selected ok))

-- Calls of `selectCacheAware`, one after the other on the same routing state, of which `n` served a
-- request. Between two calls the backends may change in any way in which the pool stays ready.
pub data Calls (a : Affinity) : ℕ → Affinity → Type 0 where
  quiet : Calls a 0 a
  call :
      {n : ℕ} {a₁ a₂ : Affinity} (chain : List Hash) (now : ℕ) (p : Pool) (intn : ℕ → ℕ)
      → Calls a n a₁
      → IsReady p a₁
      → IsIntn intn
      → (select_cache_aware intn now chain p).0.affinity ≡ some a₂
      → Calls a (n + served_count (select_cache_aware intn now chain p).1) a₂

Calls-total :
    {a a' : Affinity} {n : ℕ} → Calls a n a' → stats_total a' ≡ (stats_total a + n) % 2 ^ 64
Calls-total {a} quiet = omega arith
Calls-total {a} (call {n} {a₁} {a₂} chain now p intn before ready random kept) =
    let (a₃, is, total) = select_cache_aware-Totals chain now p a₁ intn ready random in
    let same : a₃ ≡ a₂ = cc in omega (arith, ap stats_total same, total, Calls-total before)

-- What a status line counts.
abbrev pub counted : StatsLine → ℕ
counted (idle keys) = 0
counted (shares w c o total keys) = total

stats_line-counted : (w c o t keys : ℕ) → counted (stats_line w c o t keys) ≡ t
stats_line-counted w c o t keys = ground arith

-- The requests on a status line are those that cache-aware selection served since the last one:
-- warm, cold or overflow, each once, and none that was refused; modulo 2 ^ 64.
pub affinity_stats_line-counted :
    (a a' : Affinity) (n : ℕ)
    → Calls (affinity_stats_line a).0 n a'
    → counted (affinity_stats_line a').1 ≡ n % 2 ^ 64
unfolding affinity_stats_line
affinity_stats_line-counted a a' n calls =
    stats_line-counted a'.warm a'.cold a'.overflow (stats_total a') (length a'.table)
    ∙ Calls-total calls
    ∙ omega arith

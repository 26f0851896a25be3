-- ===== src/System/Invariant.antt =====
-- What holds of the balancer in every reachable state.
use go_load_balance.Prelude.{
  ℕ, suc, ◌<◌, ◌^◌, ◌≡◌, ◌≢◌, ◌⊎◌, inl, inr, refl, sym, subst, ◌∙◌, List, ◌∷◌, Option, none, some,
  pos, ◌<ℤ◌, ◌≤ℤ◌, length, modify, length-modify,
}
use go_load_balance.Backend.{Backend, increment_conns}
use go_load_balance.Affinity.{Affinity}
use go_load_balance.Pool.{Pool, Choice, reserve, select_backend}
use go_load_balance.Pool.Choose.{IsIntn, At}
use go_load_balance.Pool.Reserve.{
  Room-CountsFit, RespectsCap, reserve_below-RespectsCap, eligible-lt_cap,
}
use go_load_balance.Pool.Select.{select_backend_cases}
use go_load_balance.Routing.Invariant.{AffinityInv}
use go_load_balance.Routing.Select.{IsReady, Outcome, served, turned_away}
use go_load_balance.Routing.{retention_limit}
use go_load_balance.Serve.{Reply, aborted, reply_to}
use go_load_balance.System.Accounting.{
  Accounted, Accounted-CountsNat, Accounted-Room, reserve-Accounted,
}
use go_load_balance.System.{System, arrival}

-- The routing state of a pool in cache-aware mode.
pub record Routes (p : Pool) : Type 0 where
  pub state : Affinity
  pub enabled : p.affinity ≡ some state
  pub above_zero : pos 0 <ℤ p.max_conns
  pub limit : pos 0 ≤ℤ retention_limit state.max_conns
  pub inv : AffinityInv (length p.backends) p.max_conns state

pub record Inv (s : System) : Type 0 where
  pub accounted : Accounted s.pool.backends s.in_flight
  pub small : length s.in_flight < 2 ^ 63
  pub capped : RespectsCap s.pool.max_conns s.pool.backends
  pub mode : (s.pool.affinity ≡ none) ⊎ Routes s.pool

-- What an arrival leaves: the invariant, and no panic.
abbrev pub ArrivedOk : List ℕ → Pool × Reply → Type 0
ArrivedOk in_flight r = Inv (arrival r in_flight) × (r.1 ≢ aborted)

module _ (s : System) (inv : Inv s) where
  -- The same requests in flight, on a pool with other routing state.
  pub reroute :
      (o : Option Affinity)
      → (o ≡ none) ⊎ Routes (record s.pool { affinity = o })
      → Inv (record { pool = record s.pool { affinity = o }; in_flight = s.in_flight })
  reroute o mode = record {
    accounted = inv.accounted;
    small = inv.small;
    capped = inv.capped;
    mode = mode;
  }

  -- One more request in flight, on a backend below the cap.
  pub take_slot :
      (i : ℕ) (b : Backend) (o : Option Affinity)
      → suc (length s.in_flight) < 2 ^ 63
      → At s.pool.backends i b
      → (pos 0 <ℤ s.pool.max_conns → b.active_conns <ℤ s.pool.max_conns)
      → (o ≡ none) ⊎ Routes (record (reserve i s.pool) { affinity = o })
      → Inv (record {
        pool = record (reserve i s.pool) { affinity = o };
        in_flight = i ∷ s.in_flight;
      })
  take_slot i b o small at below mode = record {
    accounted = reserve-Accounted s.pool.backends s.in_flight inv.accounted i small;
    small = small;
    capped =
        reserve_below-RespectsCap s.pool.max_conns s.pool.backends i b at below
          (Accounted-Room s.pool.backends s.in_flight inv.accounted small) inv.capped;
    mode = mode;
  }

  Routes-backends :
      (bs : List Backend)
      → length bs ≡ length s.pool.backends
      → Routes s.pool
      → Routes (record s.pool { backends = bs })
  Routes-backends bs same r = record {
    state = r.state;
    enabled = r.enabled;
    above_zero = r.above_zero;
    limit = r.limit;
    inv = subst (λ n. AffinityInv n s.pool.max_conns r.state) (sym same) r.inv;
  }

  pub mode-backends :
      (bs : List Backend)
      → length bs ≡ length s.pool.backends
      → (s.pool.affinity ≡ none) ⊎ Routes (record s.pool { backends = bs })
  mode-backends bs same = elim inv.mode [
    | inl off ↦ inl off
    | inr r ↦ inr (Routes-backends bs same r)
  ]

  pub select_backend-ArrivedOk :
      (intn : ℕ → ℕ)
      → IsIntn intn
      → suc (length s.in_flight) < 2 ^ 63
      → ArrivedOk s.in_flight (reply_to (select_backend intn s.pool))
  select_backend-ArrivedOk intn random small =
      select_backend_cases (λ r. ArrivedOk s.in_flight (reply_to r)) intn s.pool random
        (Room-CountsFit 1 s.pool.backends
          (Accounted-Room s.pool.backends s.in_flight inv.accounted small))
        (λ i b l. (
          take_slot i b s.pool.affinity small l.at
              (λ above. eligible-lt_cap s.pool.max_conns b above l.eligible)
              (mode-backends (modify s.pool.backends i increment_conns)
                (length-modify s.pool.backends i increment_conns)),
          λ e. cc,
        ))
        (λ e c. (inv, λ x. cc))

  pub Routes-IsReady : (r : Routes s.pool) → IsReady s.pool r.state
  Routes-IsReady r = record {
    enabled = r.enabled;
    capped = r.above_zero;
    limit = r.limit;
    counts = Accounted-CountsNat s.pool.backends s.in_flight inv.accounted inv.small;
    inv = r.inv;
  }

  pub Outcome-ArrivedOk :
      (r : Routes s.pool) {x : Pool × Choice}
      → suc (length s.in_flight) < 2 ^ 63
      → Outcome s.pool r.state x
      → ArrivedOk s.in_flight (reply_to x)
  Outcome-ArrivedOk r small (served {i} b a' admits inv') = (
    take_slot i b (some a') small admits.at (λ _. admits.below_cap)
        (inr (record {
          state = a';
          enabled = refl;
          above_zero = r.above_zero;
          limit =
              subst (λ m. pos 0 ≤ℤ retention_limit m) (r.inv.same_cap ∙ sym inv'.same_cap) r.limit;
          inv =
              subst (λ n. AffinityInv n s.pool.max_conns a')
                (sym (length-modify s.pool.backends i increment_conns)) inv';
        })),
    λ e. cc,
  )
  Outcome-ArrivedOk r small (turned_away a' c inv') = (
    reroute (some a') (
        inr (record {
          state = a';
          enabled = refl;
          above_zero = r.above_zero;
          limit =
              subst (λ m. pos 0 ≤ℤ retention_limit m) (r.inv.same_cap ∙ sym inv'.same_cap) r.limit;
          inv = inv';
        })),
    λ e. cc,
  )

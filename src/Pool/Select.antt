-- ===== src/Pool/Select.antt =====
-- `SelectBackend` over time: the hard cap, and bursts that stay even.
use go_load_balance.Prelude.{ℕ, suc, List, [], ◌∷◌, ℤ, length, arith}
use go_load_balance.Backend.{Backend}
use go_load_balance.Pool.Choose.{
  IsIntn, CountsFit, IsLeast, Chosen, least_of, least_conn_locked-Chosen,
}
use go_load_balance.Pool.{
  Pool, Choice, picked, refused, panicked, reserve, reserve_choice, least_conn_locked,
  select_backend, SelectError,
}
use go_load_balance.Pool.Reserve.{
  Room, Room-le, Room-CountsFit, IsBalanced, RespectsCap, reserve-Room, reserve-IsBalanced,
  reserve-RespectsCap,
}

Chosen-picked :
    {max_conns : ℤ} {bs : List Backend} {i : ℕ}
    → Chosen max_conns bs (picked i)
    → (b : Backend) × IsLeast max_conns bs i b
Chosen-picked (least_of b l) = (b, l)

Chosen-panicked : {max_conns : ℤ} {bs : List Backend} → ¬ Chosen max_conns bs panicked
Chosen-panicked h = elim h [ ]

-- To prove `P` of a call of `SelectBackend`, prove it of a reservation on a least loaded backend
-- and of a refusal, which changes nothing.
pub select_backend_cases {κ} :
    (P : Pool × Choice → Type κ) (intn : ℕ → ℕ) (p : Pool)
    → IsIntn intn
    → CountsFit p.backends
    → ((i : ℕ) (b : Backend) → IsLeast p.max_conns p.backends i b → P (reserve i p, picked i))
    → ((e : SelectError) → Chosen p.max_conns p.backends (refused e) → P (p, refused e))
    → P (select_backend intn p)
unfolding select_backend
select_backend_cases P intn p random fit on_pick on_refusal =
    by_choice (least_conn_locked intn p) (least_conn_locked-Chosen intn p random fit)
  where
    by_choice : (c : Choice) → Chosen p.max_conns p.backends c → P (reserve_choice c p)
    by_choice (picked i) h = let (b, l) = Chosen-picked h in on_pick i b l
    by_choice (refused e) h = on_refusal e h
    by_choice panicked h = absurd (Chosen-panicked h)

-- Simultaneous requests, in the order in which they take the pool's lock.
unfoldable pub burst : List (ℕ → ℕ) → Pool → Pool
burst [] p = p
burst (intn ∷ later) p = burst later (select_backend intn p).0

abbrev pub AllIntn : List (ℕ → ℕ) → Type 0
AllIntn [] = Unit {0}
AllIntn (intn ∷ later) = IsIntn intn × AllIntn later

record Even (n : ℕ) (p : Pool) : Type 0 where
  room : Room n p.backends
  balanced : IsBalanced p.backends

select_backend-Even :
    (n : ℕ) (intn : ℕ → ℕ) (p : Pool)
    → IsIntn intn
    → Even (suc n) p
    → Even n (select_backend intn p).0
select_backend-Even n intn p random even =
    select_backend_cases (λ r. Even n r.0) intn p random
      (Room-CountsFit (suc n) p.backends even.room)
      (λ i b l. record {
        room = reserve-Room n p.backends i even.room;
        balanced =
            reserve-IsBalanced p.max_conns p.backends i b l (Room-le n p.backends even.room)
              even.balanced;
      })
      (λ e _. record { room = λ i b at. omega (arith, even.room i b at); balanced = even.balanced })

burst-Even : (rs : List (ℕ → ℕ)) (p : Pool) → AllIntn rs → Even (length rs) p → Even 0 (burst rs p)
unfolding burst
burst-Even [] p random even = even
burst-Even (r ∷ rs) p random even =
    burst-Even rs _ random.1 (select_backend-Even (length rs) r p random.0 even)

-- A burst of requests spreads evenly: while no healthy backend is more than one connection ahead
-- of another, any number of `SelectBackend` calls, with any tie-breaks and at any cap, keeps it so,
-- as long as every counter has room for that many more connections.
pub burst-IsBalanced :
    (rs : List (ℕ → ℕ)) (p : Pool)
    → AllIntn rs
    → Room (length rs) p.backends
    → IsBalanced p.backends
    → IsBalanced (burst rs p).backends
burst-IsBalanced rs p random room balanced =
    (burst-Even rs p random (record { room = room; balanced = balanced })).balanced

-- The cap is hard: where every counter is at most a cap above 0, it still is after
-- `SelectBackend`.
select_backend-RespectsCap :
    (intn : ℕ → ℕ) (p : Pool)
    → IsIntn intn
    → Room 1 p.backends
    → RespectsCap p.max_conns p.backends
    → RespectsCap p.max_conns (select_backend intn p).0.backends
select_backend-RespectsCap intn p random room cap =
    select_backend_cases (λ r. RespectsCap p.max_conns r.0.backends) intn p random
      (Room-CountsFit 1 p.backends room)
      (λ i b l. reserve-RespectsCap p.max_conns p.backends i b l room cap) (λ e _. cap)

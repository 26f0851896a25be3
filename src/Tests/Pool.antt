-- ===== src/Tests/Pool.antt =====
-- Selection over three backends.
use go_load_balance.Prelude.{
  ℕ, zero, suc, ◌<◌, ◌≡◌, refl, true, [], ◌∷◌, pos, arith, length, int_laws, pos_part, neg_part,
  ◌≤◌, to_int, ◌+ℤ◌,
}
use go_load_balance.Backend.{Backend, increment_conns}
use go_load_balance.Pool.Choose.{
  IsIntn, At, CountsFit, IsLeast, Chosen, candidates, least_conn_locked-Chosen,
  least_conn_locked_reaches,
}
use go_load_balance.Pool.Reserve.{Room, IsBalanced}
use go_load_balance.Pool.Select.{burst, burst-IsBalanced}
use go_load_balance.Pool.{picked, scan, visit, tie_break, least_conn_locked, select_backend}
use go_load_balance.Tests.Samples.{backend, down, three, pool, first}

pub first-IsIntn : IsIntn first
first-IsIntn n h = h

three-Room : Room 2 three
three-Room zero b at = ground arith
three-Room (suc zero) b at = ground arith
three-Room (suc (suc zero)) b at = ground arith
three-Room (suc (suc (suc i))) b at = absurd (cc)

three-CountsFit : CountsFit three
three-CountsFit i b at = omega (arith, three-Room i b at)

three_counts :
    (i : ℕ) (b : Backend)
    → At three i b
    → b.healthy ≡ true
    → (1 ≤ pos_part b.active_conns) × (pos_part b.active_conns ≤ 2) × (neg_part b.active_conns ≡ 0)
three_counts zero b at up = ground arith
three_counts (suc zero) b at up = ground arith
three_counts (suc (suc zero)) b at up = ground arith
three_counts (suc (suc (suc i))) b at up = absurd (cc)

three-IsBalanced : IsBalanced three
three-IsBalanced i j b c at_i at_j up_i up_j =
    omega (int_laws, three_counts i b at_i up_i, three_counts j c at_j up_j)

least_conn_locked_test : least_conn_locked first pool ≡ picked 1
unfolding least_conn_locked scan visit tie_break
least_conn_locked_test = refl

-- Three more requests: the counts 2 and 1 become 3 and 3.
burst_test : (burst (first ∷ first ∷ first ∷ []) pool).backends ≡ backend 3 ∷ backend 3 ∷ down ∷ []
unfolding burst select_backend least_conn_locked scan visit tie_break increment_conns to_int ◌+ℤ◌
burst_test = refl

least_conn_locked-Chosen_example : Chosen (pos 10) three (least_conn_locked first pool)
least_conn_locked-Chosen_example = least_conn_locked-Chosen first pool first-IsIntn three-CountsFit

one-IsLeast : IsLeast (pos 10) three 1 (backend 1)
one-IsLeast = record {
  at = refl;
  eligible = refl;
  least = λ j c at in_reach. omega (arith, three_counts j c at (ground arith));
}

least_conn_locked_reaches_example :
    (k : ℕ) × (k < length (candidates (pos 10) three))
    × (least_conn_locked (λ _. k) pool ≡ picked 1)
least_conn_locked_reaches_example =
    least_conn_locked_reaches pool 1 (backend 1) three-CountsFit one-IsLeast

burst-IsBalanced_example : IsBalanced (burst (first ∷ first ∷ []) pool).backends
burst-IsBalanced_example =
    burst-IsBalanced (first ∷ first ∷ []) pool (first-IsIntn, (first-IsIntn, tt)) three-Room
      three-IsBalanced

-- ===== src/Stats/Shares.antt =====
-- The shares of the status line.
use go_load_balance.Prelude.{
  ℕ, ◌+◌, ◌*◌, ◌/◌, ◌^◌, ◌≤◌, ◌<◌, ◌≡◌, ◌⊎◌, inl, inr, refl, ap, ◌∙◌, length, ◌==◌, arith,
  Bool-cases, true, false,
}
use native.Mathlib.Nat.{
  div-add-mod, mod-lt, mod-eq_of_lt, le_of_mul-le-mul_left, lt_of_mul-lt-mul_left,
}
use go_load_balance.Affinity.{Affinity}
use go_load_balance.Stats.{idle, shares, stats_total, stats_line, affinity_stats_line}

-- Three quotients of parts that add up to a hundred times the divisor.
quotients_near :
    (t w c o : ℕ)
    → w + c + o ≡ t
    → 0 < t
    → (w * 100 / t + c * 100 / t + o * 100 / t ≤ 100)
      × (98 ≤ w * 100 / t + c * 100 / t + o * 100 / t)
quotients_near t w c o all some_request =
    let x = w * 100 / t in
    let y = c * 100 / t in
    let z = o * 100 / t in
    let whole : t * (x + y + z) ≡ t * x + t * y + t * z = grind arith in
    let more : t * (x + y + z + 3) ≡ t * (x + y + z) + t * 3 = grind arith in
    let below : t * (x + y + z) ≤ t * 100 =
      omega (arith, div-add-mod (w * 100) t, div-add-mod (c * 100) t, div-add-mod (o * 100) t) in
    let above : t * 100 < t * (x + y + z + 3) = omega (
      arith,
      div-add-mod (w * 100) t,
      div-add-mod (c * 100) t,
      div-add-mod (o * 100) t,
      mod-lt (w * 100) some_request,
      mod-lt (c * 100) some_request,
      mod-lt (o * 100) some_request,
    ) in
    let few = le_of_mul-le-mul_left below some_request in
    let many = lt_of_mul-lt-mul_left t above in (few, omega (arith, many))

stats_line-shares :
    (w c o t keys : ℕ)
    → (t == 0) ≡ false
    → w * 100 < 2 ^ 64
    → c * 100 < 2 ^ 64
    → o * 100 < 2 ^ 64
    → stats_line w c o t keys ≡ shares (w * 100 / t) (c * 100 / t) (o * 100 / t) t keys
stats_line-shares w c o t keys counted small_w small_c small_o =
    rw (counted, mod-eq_of_lt small_w, mod-eq_of_lt small_c, mod-eq_of_lt small_o) refl

stats_line-idle : (w c o t keys : ℕ) → (t == 0) ≡ true → stats_line w c o t keys ≡ idle keys
stats_line-idle w c o t keys none_counted = rw none_counted refl

-- The shares of the status line add up to 98, 99 or 100 per cent, where a request was counted and
-- a hundred times the requests fit a uint64; with the line the counters start again at 0, and
-- nothing else of the routing state changes. Where no request was counted the line is idle.
affinity_stats_line-shares :
    (a : Affinity)
    → (a.warm + a.cold + a.overflow) * 100 < 2 ^ 64
    → ((affinity_stats_line a).0 ≡ record a { warm = 0; cold = 0; overflow = 0 })
      × (((a.warm + a.cold + a.overflow ≡ 0) × ((affinity_stats_line a).1 ≡ idle (length a.table)))
          ⊎ ((w : ℕ) × (c : ℕ) × (o : ℕ) × (0 < a.warm + a.cold + a.overflow)
              × ((affinity_stats_line a).1
                  ≡ shares w c o (a.warm + a.cold + a.overflow) (length a.table))
              × (w + c + o ≤ 100)
              × (98 ≤ w + c + o)))
unfolding affinity_stats_line
affinity_stats_line-shares a small =
    let t = a.warm + a.cold + a.overflow in
    let total : stats_total a ≡ t = omega arith in
    (
      refl,
      elim (Bool-cases (t == 0)) [
        | inl none_counted ↦ inl (
          ground arith,
          ap (λ n. stats_line a.warm a.cold a.overflow n (length a.table)) total
              ∙ stats_line-idle a.warm a.cold a.overflow t (length a.table) none_counted,
        )
        | inr counted ↦
            let some_request : 0 < t = ground arith in
            let near = quotients_near t a.warm a.cold a.overflow refl some_request in
            inr (
              a.warm * 100 / t,
              a.cold * 100 / t,
              a.overflow * 100 / t,
              some_request,
              ap (λ n. stats_line a.warm a.cold a.overflow n (length a.table)) total
                  ∙ stats_line-shares a.warm a.cold a.overflow t (length a.table) counted
                      (omega arith) (omega arith) (omega arith),
              near.0,
              near.1,
            )
      ],
    )

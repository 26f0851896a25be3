-- ===== src/Pool/Totals.antt =====
-- What `GetStatus` counts (lib/balancer.go).
use go_load_balance.Prelude.{
  ℕ, suc, ◌+◌, ◌<◌, ◌≤◌, ◌^◌, ◌≡◌, refl, sym, ap, subst, ◌∙◌, List, [], ◌∷◌, ℤ, pos, ◌+ℤ◌, +ℤ_parts,
  eq_of_parts, to_int, to_int_of_fits, IsInt, pos_part, neg_part, inl, inr, Bool-cases, length,
  arith, if◌then◌else◌,
}
use go_load_balance.Backend.{Backend}
use go_load_balance.Pool.Choose.{At}
use go_load_balance.Pool.{Pool, status_loop, get_status}

-- How many of the backends are healthy.
abbrev pub count_healthy : List Backend → ℕ
count_healthy [] = 0
count_healthy (b ∷ bs) = if b.healthy then suc (count_healthy bs) else count_healthy bs

count_healthy-le : (bs : List Backend) → count_healthy bs ≤ length bs
count_healthy-le [] = omega arith
count_healthy-le (b ∷ bs) = ground (arith, count_healthy-le bs)

next_count : (n : ℕ) → suc n < 2 ^ 63 → to_int (pos n +ℤ pos 1) ≡ pos (suc n)
unfolding ◌+ℤ◌
next_count n small =
    let next : pos n +ℤ pos 1 ≡ pos (suc n) = ground arith in
    to_int_of_fits (pos n +ℤ pos 1) (subst IsInt (sym next) (omega arith)) ∙ next

status_loop-healthy :
    (bs : List Backend) (active : ℤ) (n : ℕ)
    → n + length bs < 2 ^ 63
    → (status_loop bs active (pos n)).1 ≡ pos (n + count_healthy bs)
status_loop-healthy [] active n small = ap pos (omega arith)
status_loop-healthy (b ∷ bs) active n small =
    let a = to_int (active +ℤ b.active_conns) in
    elim (Bool-cases b.healthy) [
      | inl up ↦ rw up (
          ap (λ z. (status_loop bs a z).1) (next_count n (omega arith))
          ∙ status_loop-healthy bs a (suc n) (omega arith)
          ∙ ap pos (omega arith))
      | inr down ↦ rw down (status_loop-healthy bs a n (omega arith))
    ]

-- `GetStatus` counts the healthy backends, of fewer than 2 ^ 63.
pub get_status-healthy_count :
    (p : Pool)
    → length p.backends < 2 ^ 63
    → (get_status p).healthy_count ≡ pos (count_healthy p.backends)
unfolding get_status
get_status-healthy_count p small =
    status_loop-healthy p.backends (pos 0) 0 (omega arith) ∙ ap pos (omega arith)

-- The connections of all backends.
abbrev pub sum_conns : List Backend → ℕ
sum_conns [] = 0
sum_conns (b ∷ bs) = pos_part b.active_conns + sum_conns bs

-- No counter is negative.
abbrev pub NoneNegative : List Backend → Type 0
NoneNegative bs = (i : ℕ) (b : Backend) → At bs i b → neg_part b.active_conns ≡ 0

add_count :
    (n : ℕ) (x : ℤ)
    → neg_part x ≡ 0
    → n + pos_part x < 2 ^ 63
    → to_int (pos n +ℤ x) ≡ pos (n + pos_part x)
add_count n x nat small =
    let next : pos n +ℤ x ≡ pos (n + pos_part x) =
      eq_of_parts _ _ (omega (arith, +ℤ_parts (pos n) x)) in
    to_int_of_fits (pos n +ℤ x) (subst IsInt (sym next) (omega arith)) ∙ next

status_loop-active :
    (bs : List Backend) (n : ℕ) (healthy : ℤ)
    → NoneNegative bs
    → n + sum_conns bs < 2 ^ 63
    → (status_loop bs (pos n) healthy).0 ≡ pos (n + sum_conns bs)
status_loop-active [] n healthy nat small = ap pos (omega arith)
status_loop-active (b ∷ bs) n healthy nat small =
    let h = if b.healthy then to_int (healthy +ℤ pos 1) else healthy in
    ap (λ z. (status_loop bs z h).0) (add_count n b.active_conns (nat 0 b refl) (omega arith))
    ∙ status_loop-active bs (n + pos_part b.active_conns) h (λ i c at. nat (suc i) c at)
        (omega arith)
    ∙ ap pos (omega arith)

-- `GetStatus` adds up the connections of all backends, of fewer than 2 ^ 63.
pub get_status-total_active :
    (p : Pool)
    → NoneNegative p.backends
    → sum_conns p.backends < 2 ^ 63
    → (get_status p).total_active ≡ pos (sum_conns p.backends)
unfolding get_status
get_status-total_active p nat small =
    status_loop-active p.backends 0 (pos 0) nat (omega arith) ∙ ap pos (omega arith)

pub get_status-total_count : (p : Pool) → (get_status p).total_count ≡ length p.backends
unfolding get_status
get_status-total_count p = refl

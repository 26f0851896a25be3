-- ===== src/Pool/Reserve.antt =====
-- What a reservation on the least loaded backend does to the counters.
use go_load_balance.Prelude.{
  ℕ, suc, ◌≢◌, ◌+◌, ◌<◌, ◌≤◌, ◌^◌, ◌≡◌, ◌⊎◌, inl, inr, refl, sym, ap, ◌∙◌, true, List, some, ℤ, pos,
  ◌≤ℤ◌, ◌<ℤ◌, ◌+ℤ◌, pos_part, neg_part, get_elem?, modify, get_elem?-modify_inv, arith, int_laws,
  Bool-cases,
}
use go_load_balance.Backend.{Backend, increment_conns}
use go_load_balance.Backend.Counts.{increment_conns_lem}
use go_load_balance.Pool.Scan.{is_eligible}
use go_load_balance.Pool.Choose.{At, CountsFit, IsLeast}

-- Each counter can grow by `n` more.
abbrev pub Room : ℕ → List Backend → Type 0
Room n bs =
    (i : ℕ) (b : Backend)
    → At bs i b
    → (pos_part b.active_conns + n < 2 ^ 63) × (neg_part b.active_conns ≤ 2 ^ 63)

pub Room-CountsFit : (n : ℕ) (bs : List Backend) → Room n bs → CountsFit bs
Room-CountsFit n bs room i b at = (omega (arith, room i b at), (room i b at).1)

-- Backend `c` of the pool after a reservation on `i` was `b` before.
pub record Reserved (bs : List Backend) (i j : ℕ) (c : Backend) : Type 0 where
  pub before : Backend
  pub was_at : At bs j before
  pub same_health : c.healthy ≡ before.healthy
  pub same_epoch : c.epoch ≡ before.epoch
  pub count : ((i ≡ j) × (c.active_conns ≡ before.active_conns +ℤ pos 1)) ⊎ ((i ≢ j) × (c ≡ before))

increment-fits :
    (b : Backend)
    → (pos_part b.active_conns + 1 < 2 ^ 63) × (neg_part b.active_conns ≤ 2 ^ 63)
    → (increment_conns b).active_conns ≡ b.active_conns +ℤ pos 1
increment-fits b h = increment_conns_lem b (omega int_laws)

pub reserve-Reserved :
    (bs : List Backend) (i j : ℕ) (c : Backend)
    → Room 1 bs
    → At (modify bs i increment_conns) j c
    → Reserved bs i j c
unfolding increment_conns
reserve-Reserved bs i j c room at = elim (get_elem?-modify_inv bs i j increment_conns c at) [
  | inl (e, b, was, changed) ↦ record {
    before = b;
    was_at = was;
    same_health = ap (λ (x : Backend). x.healthy) changed;
    same_epoch = ap (λ (x : Backend). x.epoch) changed;
    count = inl (e, ap (λ (x : Backend). x.active_conns) changed ∙ increment-fits b (room j b was));
  }
  | inr (ne, was) ↦ record {
    before = c;
    was_at = was;
    same_health = refl;
    same_epoch = refl;
    count = inr (ne, refl);
  }
]

-- A healthy backend is at most one connection ahead of another.
abbrev pub IsBalanced : List Backend → Type 0
IsBalanced bs =
    (i j : ℕ) (b c : Backend)
    → At bs i b
    → At bs j c
    → b.healthy ≡ true
    → c.healthy ≡ true
    → b.active_conns ≤ℤ c.active_conns +ℤ pos 1

-- No counter is above the cap, where there is one.
abbrev pub RespectsCap : ℤ → List Backend → Type 0
RespectsCap max_conns bs =
    pos 0 <ℤ max_conns → (i : ℕ) (b : Backend) → At bs i b → b.active_conns ≤ℤ max_conns

-- The selected backend has the fewest connections of all healthy ones, those at the cap included.
pub IsLeast-le_healthy :
    (max_conns : ℤ) (bs : List Backend) (i j : ℕ) (b c : Backend)
    → IsLeast max_conns bs i b
    → At bs j c
    → c.healthy ≡ true
    → b.active_conns ≤ℤ c.active_conns
IsLeast-le_healthy max_conns bs i j b c l at up = elim (Bool-cases (is_eligible max_conns c)) [
  | inl in_reach ↦ l.least j c at in_reach
  | inr full ↦ ground (arith, l.eligible)
]

-- The count of a backend after a reservation lies between the old count and one more.
Reserved-bounds :
    {bs : List Backend} {i j : ℕ} {c : Backend} (r : Reserved bs i j c)
    → (r.before.active_conns ≤ℤ c.active_conns) × (c.active_conns ≤ℤ r.before.active_conns +ℤ pos 1)
Reserved-bounds r = elim r.count [
  | inl (_, grown) ↦ rw grown (omega int_laws)
  | inr (_, same) ↦ rw same (omega int_laws)
]

Reserved-self :
    {bs : List Backend} {i j : ℕ} {b c : Backend} (r : Reserved bs i j c)
    → At bs i b
    → i ≡ j
    → r.before ≡ b
Reserved-self {bs} {i} {j} {b} r at e =
    let was : get_elem? bs i ≡ some r.before = rw e r.was_at in ground arith

pub eligible-lt_cap :
    (max_conns : ℤ) (b : Backend)
    → pos 0 <ℤ max_conns
    → is_eligible max_conns b ≡ true
    → b.active_conns <ℤ max_conns
eligible-lt_cap max_conns b capped h = ground arith

module _ (max_conns : ℤ) (bs : List Backend) (i : ℕ) (b : Backend) where
  pub reserve-IsBalanced :
      IsLeast max_conns bs i b
      → Room 1 bs
      → IsBalanced bs
      → IsBalanced (modify bs i increment_conns)
  reserve-IsBalanced l room even j k c d at_j at_k up_j up_k =
      let rj = reserve-Reserved bs i j c room at_j in
      let rk = reserve-Reserved bs i k d room at_k in
      let before =
        even j k rj.before rk.before rj.was_at rk.was_at (sym rj.same_health ∙ up_j)
          (sym rk.same_health ∙ up_k) in
      let ahead = (Reserved-bounds rk).0 in
      elim rj.count [
        | inl (e, grown) ↦
            let same : rj.before ≡ b = Reserved-self rj l.at e in
            let behind =
              IsLeast-le_healthy max_conns bs i k b rk.before l rk.was_at
                (sym rk.same_health ∙ up_k) in
            rw (grown, same) (omega (int_laws, behind, ahead))
        | inr (ne, same) ↦ rw same (omega (int_laws, before, ahead))
      ]

  -- A slot on a backend that is below the cap, where there is one, keeps the cap.
  pub reserve_below-RespectsCap :
      At bs i b
      → (pos 0 <ℤ max_conns → b.active_conns <ℤ max_conns)
      → Room 1 bs
      → RespectsCap max_conns bs
      → RespectsCap max_conns (modify bs i increment_conns)
  reserve_below-RespectsCap at_i below room cap capped j c at =
      let r = reserve-Reserved bs i j c room at in
      elim r.count [
        | inl (e, grown) ↦
            let same : r.before ≡ b = Reserved-self r at_i e in
            rw (grown, same) (omega (int_laws, below capped))
        | inr (ne, same) ↦ rw same (cap capped j r.before r.was_at)
      ]

  pub reserve-RespectsCap :
      IsLeast max_conns bs i b
      → Room 1 bs
      → RespectsCap max_conns bs
      → RespectsCap max_conns (modify bs i increment_conns)
  reserve-RespectsCap l =
      reserve_below-RespectsCap l.at (λ capped. eligible-lt_cap max_conns b capped l.eligible)

pub reserve-Room :
    (n : ℕ) (bs : List Backend) (i : ℕ) → Room (suc n) bs → Room n (modify bs i increment_conns)
reserve-Room n bs i room j c at =
    let r =
      reserve-Reserved bs i j c (λ k b at_k. (omega (arith, room k b at_k), (room k b at_k).1))
        at in
    omega (int_laws, room j r.before r.was_at, Reserved-bounds r)

pub Room-le : (n : ℕ) (bs : List Backend) → Room (suc n) bs → Room 1 bs
Room-le n bs room i b at = omega (arith, room i b at)

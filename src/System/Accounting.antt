-- ===== src/System/Accounting.antt =====
-- Each counter is the number of requests in flight on its backend.
use go_load_balance.Prelude.{
  count, ℕ, suc, ◌+◌, ◌<◌, ◌≤◌, ◌^◌, ◌≡◌, ◌≢◌, inl, inr, sym, ap, subst, ◌∙◌, ◌++◌, List, [], ◌∷◌,
  pos, ◌≤ℤ◌, ◌+ℤ◌, ◌-ℤ◌, pos_part, neg_part, IsInt, length, modify, get_elem?-modify_inv, ◌==◌,
  if◌then◌else◌, arith,
}
use go_load_balance.Backend.{Backend, increment_conns, decrement_conns}
use go_load_balance.Backend.Counts.{decrement_conns_lem}
use go_load_balance.Health.{Event, handle}
use go_load_balance.Health.Neutral.{handle-active_conns}
use go_load_balance.Pool.Choose.{At}
use go_load_balance.Pool.Reserve.{Room, reserve-Reserved}
use go_load_balance.Routing.Guard.{CountsNat}

-- Each counter is the number of requests in flight on its backend.
abbrev pub Accounted : List Backend → List ℕ → Type 0
Accounted bs in_flight =
    (i : ℕ) (b : Backend) → At bs i b → b.active_conns ≡ pos (count i in_flight)

pub count-le_length : (i : ℕ) (js : List ℕ) → count i js ≤ length js
count-le_length i [] = omega arith
count-le_length i (j ∷ js) = ground (arith, count-le_length i js)

count-append : (i : ℕ) (js ks : List ℕ) → count i (js ++ ks) ≡ count i js + count i ks
count-append i [] ks = omega arith
count-append i (j ∷ js) ks = ground (arith, count-append i js ks)

count-cons_eq : (i j : ℕ) (js : List ℕ) → i ≡ j → count j (i ∷ js) ≡ suc (count j js)
count-cons_eq i j js e = ground arith

count-cons_ne : (i j : ℕ) (js : List ℕ) → i ≢ j → count j (i ∷ js) ≡ count j js
count-cons_ne i j js ne = ground arith

pos-suc : (n : ℕ) → pos n +ℤ pos 1 ≡ pos (suc n)
unfolding ◌+ℤ◌
pos-suc n = ground arith

suc-pos : (n : ℕ) → pos (suc n) -ℤ pos 1 ≡ pos n
unfolding ◌-ℤ◌
suc-pos n = ground arith

-- A slot that is released was counted.
pub count-split :
    (i j : ℕ) (before after : List ℕ)
    → count j (before ++ i ∷ after)
      ≡ (if i == j then suc (count j (before ++ after)) else count j (before ++ after))
count-split i j before after =
    ground (arith, count-append j before (i ∷ after), count-append j before after)

decrement-suc :
    (n : ℕ) (b : Backend)
    → suc n < 2 ^ 63
    → b.active_conns ≡ pos (suc n)
    → (decrement_conns b).active_conns ≡ pos n
decrement-suc n b small e =
    let less : b.active_conns -ℤ pos 1 ≡ pos n = ap (λ z. z -ℤ pos 1) e ∙ suc-pos n in
    decrement_conns_lem b (subst IsInt (sym less) (omega arith)) ∙ less

module _ (bs : List Backend) (in_flight : List ℕ) (acc : Accounted bs in_flight) where
  pub Accounted-CountsNat : length in_flight < 2 ^ 63 → CountsNat bs
  Accounted-CountsNat small i b at =
      let e = acc i b at in omega (arith, ap pos_part e, ap neg_part e, count-le_length i in_flight)

  pub Accounted-Room : suc (length in_flight) < 2 ^ 63 → Room 1 bs
  Accounted-Room small i b at =
      let e = acc i b at in omega (arith, ap pos_part e, ap neg_part e, count-le_length i in_flight)

  pub reserve-Accounted :
      (i : ℕ)
      → suc (length in_flight) < 2 ^ 63
      → Accounted (modify bs i increment_conns) (i ∷ in_flight)
  reserve-Accounted i small j c at =
      let r = reserve-Reserved bs i j c (Accounted-Room small) at in
      let was = acc j r.before r.was_at in
      elim r.count [
        | inl (same, grown) ↦
            grown
            ∙ ap (λ z. z +ℤ pos 1) was
            ∙ pos-suc (count j in_flight)
            ∙ ap pos (sym (count-cons_eq i j in_flight same))
        | inr (ne, kept) ↦
            ap (λ (x : Backend). x.active_conns) kept
            ∙ was
            ∙ ap pos (sym (count-cons_ne i j in_flight ne))
      ]

  pub release-Accounted :
      (i : ℕ) (before after : List ℕ)
      → in_flight ≡ before ++ i ∷ after
      → length in_flight < 2 ^ 63
      → Accounted (modify bs i decrement_conns) (before ++ after)
  release-Accounted i before after e small j c at =
      let counted = ap (count j) e ∙ count-split i j before after in
      elim (get_elem?-modify_inv bs i j decrement_conns c at) [
        | inl (same, b, was_at, changed) ↦
            let slots : count j in_flight ≡ suc (count j (before ++ after)) = ground arith in
            ap (λ (x : Backend). x.active_conns) changed
            ∙ decrement-suc (count j (before ++ after)) b
                (omega (arith, count-le_length j in_flight)) (acc j b was_at ∙ ap pos slots)
        | inr (ne, was_at) ↦
            let slots : count j in_flight ≡ count j (before ++ after) = ground arith in
            acc j c was_at ∙ ap pos slots
      ]

  -- The counter that a finished request gives its slot back to falls.
  pub release-le :
      (i : ℕ) (before after : List ℕ) (b : Backend)
      → in_flight ≡ before ++ i ∷ after
      → length in_flight < 2 ^ 63
      → At bs i b
      → (decrement_conns b).active_conns ≤ℤ b.active_conns
  release-le i before after b e small at =
      let counted = ap (count i) e ∙ count-split i i before after in
      let slots : count i in_flight ≡ suc (count i (before ++ after)) = ground arith in
      let was = acc i b at ∙ ap pos slots in
      let is =
        decrement-suc (count i (before ++ after)) b (omega (arith, count-le_length i in_flight))
          was in
      omega (arith, ap pos_part was, ap neg_part was, ap pos_part is, ap neg_part is)

  pub health-Accounted : (i : ℕ) (e : Event) → Accounted (modify bs i (handle e)) in_flight
  health-Accounted i e j c at = elim (get_elem?-modify_inv bs i j (handle e) c at) [
    | inl (same, b, was_at, changed) ↦
        ap (λ (x : Backend). x.active_conns) changed ∙ handle-active_conns e b ∙ acc j b was_at
    | inr (ne, was_at) ↦ acc j c was_at
  ]

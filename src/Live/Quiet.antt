-- ===== src/Live/Quiet.antt =====
-- Selection with no other goroutine at work (lib/balancer.go): the function of Pool.
use go_load_balance.Prelude.{
  ℕ, suc, ◌≡◌, refl, sym, ap, subst, ◌∙◌, ◌++◌, append-nil, append_assoc, List, [], ◌∷◌, none, ℤ,
  length, length-append, arith,
}
use go_load_balance.Backend.{Backend}
use go_load_balance.Pool.{Choice, ScanState, visit, scan, least_conn_locked}
use go_load_balance.Pool.Choose.{At}
use go_load_balance.Live.{
  Moment, still, LiveScan, at_end, visited, LiveSelect, selected, take_slot_of,
}

At-append : (before bs : List Backend) (b : Backend) → At (before ++ b ∷ bs) (length before) b
At-append [] bs b = refl
At-append (c ∷ before) bs b = At-append before bs b

-- The scan of the backends from `before` on, at one moment.
scan-LiveScan :
    (max_conns : ℤ) (n : Moment) (before bs : List Backend) (s : ScanState)
    → n.backends ≡ before ++ bs
    → LiveScan max_conns (length before) n s n (scan max_conns (length before) bs s)
unfolding scan
scan-LiveScan max_conns n before [] s e = at_end (sym (ap length (e ∙ append-nil before)))
scan-LiveScan max_conns n before (b ∷ bs) s e =
    let here : At n.backends (length before) b =
      subst (λ l. At l (length before) b) (sym e) (At-append before bs b) in
    let next : length (before ++ b ∷ []) ≡ suc (length before) =
      omega (arith, length-append before (b ∷ [])) in
    visited n n b b still here still here (
      subst
        (λ i.
          LiveScan max_conns i n (visit max_conns (length before) b s) n
            (scan max_conns i bs (visit max_conns (length before) b s)))
        next
        (scan-LiveScan max_conns n (before ++ b ∷ []) bs (visit max_conns (length before) b s)
          (e ∙ sym (append_assoc before (b ∷ []) bs))))

-- `SelectBackend` with no other goroutine at work makes the choice of `least_conn_locked`.
pub least_conn_locked-LiveSelect :
    (intn : ℕ → ℕ) (max_conns : ℤ) (n : Moment)
    → (c : Choice) × (c
        ≡ least_conn_locked intn
            (record { backends = n.backends; max_conns = max_conns; affinity = none }))
      × LiveSelect intn max_conns n (take_slot_of c n) c
unfolding least_conn_locked
least_conn_locked-LiveSelect intn max_conns n =
    (_, refl, selected (scan-LiveScan max_conns n [] n.backends _ refl) still)

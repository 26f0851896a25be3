-- ===== src/Backend/Counts.antt =====
-- The connection counter of a backend.
use go_load_balance.Prelude.{◌≡◌, pos, ◌+ℤ◌, ◌-ℤ◌, to_int_of_fits, IsInt}
use go_load_balance.Backend.{Backend, increment_conns, decrement_conns}

-- Short of the largest `int` the counter counts.
pub increment_conns_lem :
    (b : Backend)
    → IsInt (b.active_conns +ℤ pos 1)
    → (increment_conns b).active_conns ≡ b.active_conns +ℤ pos 1
unfolding increment_conns
increment_conns_lem b h = to_int_of_fits _ h

pub decrement_conns_lem :
    (b : Backend)
    → IsInt (b.active_conns -ℤ pos 1)
    → (decrement_conns b).active_conns ≡ b.active_conns -ℤ pos 1
unfolding decrement_conns
decrement_conns_lem b h = to_int_of_fits _ h

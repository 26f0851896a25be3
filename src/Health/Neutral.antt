-- ===== src/Health/Neutral.antt =====
-- Health events leave the connection counter alone.
use go_load_balance.Prelude.{◌≡◌, refl, arith}
use go_load_balance.Backend.{
  Backend, mark_unhealthy, record_check_success, error_handler, modify_response,
}
use go_load_balance.HealthChecker.{failed, answered, check_backend}
use go_load_balance.Health.{Event, checked, proxy_failed, responded, handle}

pub handle-active_conns : (e : Event) (b : Backend) → (handle e b).active_conns ≡ b.active_conns
unfolding handle check_backend mark_unhealthy record_check_success error_handler modify_response
handle-active_conns (checked (failed error)) b = refl
handle-active_conns (checked (answered code)) b = ground arith
handle-active_conns (proxy_failed cancelled error) b = ground arith
handle-active_conns (responded code) b = ground arith

-- ===== src/Tests/Exchange.antt =====
-- Requests from their arrival to their end, in a cache-aware balancer.
use go_load_balance.Prelude.{
  ◌≡◌, refl, Bool, true, false, [], ◌∷◌, ℤ, some, pos, ap, length, arith, ◌+ℤ◌, ◌-ℤ◌, to_int, ◌&&◌,
  get_elem?,
}
use go_load_balance.Backend.{Backend, increment_conns, decrement_conns, modify_response}
use go_load_balance.Affinity.{Affinity}
use go_load_balance.Chain.{Bytes, affinity_chain}
use go_load_balance.Table.{lookup, insert, get_records}
use go_load_balance.Pool.{least_conn_locked, scan, visit, tie_break, enable_cache_aware}
use go_load_balance.Pool.Choose.{At}
use go_load_balance.Routing.{select_cache_aware, walk, route, upsert_locked, upsert_all, retain}
use go_load_balance.Serve.{serve_cache_aware, serve_http}
use go_load_balance.RequestLog.{ReqLogEntry, text, begin, observe, finish}
use go_load_balance.Exchange.{Request, all_of, responded, Proxying, hook, aborts, body_of, exchange}
use go_load_balance.Exchange.Whole.{IsReadAll, LoggedBody, exchange_logs_whole}
use go_load_balance.Exchange.Slots.{is_proxied, exchange_restores}
use go_load_balance.Tests.Samples.{parse_all, first}
use go_load_balance.Tests.Pool.{first-IsIntn}
use go_load_balance.Tests.Chain.{toy}
use go_load_balance.Tests.System.{
  set_up, set_up-IsSetUp, set_up-LimitFits, busy, busy-Reach, busy_in_flight,
}

-- `json.Valid` that takes no body for JSON.
abbrev invalid : Bytes → Bool
invalid bs = false

abbrev request : Request
request = record {
  method = "POST";
  path = "/v1/completions";
  has_body = true;
  chunks = (7 ∷ []) ∷ (8 ∷ []) ∷ [];
  read_all = all_of (7 ∷ 8 ∷ []);
}

-- The backend fails with a 500; the proxy has read its copy of the body.
abbrev broken : Proxying
broken = record {
  reads = (7 ∷ 8 ∷ []) ∷ [];
  upstream = responded [] 500 ((1 ∷ []) ∷ (2 ∷ []) ∷ []) true;
}

abbrev entry : ReqLogEntry
entry = record {
  time = 5;
  duration_ms = 1;
  method = "POST";
  path = "/v1/completions";
  status = 500;
  backend = "http://a";
  request = text (7 ∷ 8 ∷ []);
  request_truncated = false;
  response = text (1 ∷ 2 ∷ []);
  response_truncated = false;
}

-- The request's body is in its entry once.
entry_test : (exchange true invalid 5 1 request toy first broken set_up).entry ≡ some entry
unfolding exchange begin observe finish serve_http serve_cache_aware enable_cache_aware
    affinity_chain select_cache_aware walk route upsert_locked upsert_all retain least_conn_locked
    scan visit tie_break lookup insert get_records increment_conns to_int ◌+ℤ◌
entry_test = refl

-- The backend is out of rotation, with no connection left.
abbrev ejected : Backend
ejected = record {
  url = "http://a";
  healthy = false;
  active_conns = pos 0;
  success_streak = pos 0;
  epoch = 1;
}

ejected_test :
    get_elem? (exchange true invalid 5 1 request toy first broken set_up).pool.backends 0
    ≡ some ejected
unfolding exchange serve_http serve_cache_aware enable_cache_aware affinity_chain select_cache_aware
    walk route upsert_locked upsert_all retain least_conn_locked scan visit tie_break lookup insert
    get_records increment_conns decrement_conns hook modify_response to_int ◌+ℤ◌ ◌-ℤ◌
ejected_test = refl

-- The second request goes to the other backend, since the first one leads by more than a fifth of
-- the cap.
abbrev other : Backend
other = record {
  url = "http://b";
  healthy = true;
  active_conns = pos 0;
  success_streak = pos 0;
  epoch = 0;
}

busy_other : At busy.pool.backends 1 other
unfolding serve_http serve_cache_aware enable_cache_aware affinity_chain select_cache_aware walk
    route upsert_locked upsert_all retain least_conn_locked scan visit tie_break lookup insert
    get_records increment_conns to_int ◌+ℤ◌
busy_other = refl

busy_after :
    At
      (exchange true invalid 9 1 request toy first broken busy.pool).pool.backends
      1
      (record other { healthy = false; epoch = 1 })
unfolding exchange serve_http serve_cache_aware enable_cache_aware affinity_chain select_cache_aware
    walk route upsert_locked upsert_all retain least_conn_locked scan visit tie_break lookup insert
    get_records increment_conns decrement_conns hook modify_response to_int ◌+ℤ◌ ◌-ℤ◌
busy_after = refl

exchange_restores_example :
    (◌≡◌ {A = ℤ} (pos 0) (pos 0))
    × ((exchange true invalid 9 1 request toy first broken busy.pool).panics ≡ (
        is_proxied (serve_http toy first 9 (body_of request) busy.pool).1
        && aborts broken.upstream))
exchange_restores_example =
    exchange_restores toy true invalid 9 1 request broken parse_all set_up busy set_up-IsSetUp
      set_up-LimitFits busy-Reach first first-IsIntn (omega (arith, ap length busy_in_flight)) 1
      other (record other { healthy = false; epoch = 1 }) busy_other busy_after

request-IsReadAll : IsReadAll request
request-IsReadAll = record { over = ((λ e. cc), (λ lt. absurd (omega arith))); whole = λ raw e. cc }

abbrev set_up_affinity : Affinity
set_up_affinity = record {
  ttl = pos 100;
  max_conns = pos 2;
  table = [];
  records = [];
  warm = 0;
  cold = 0;
  overflow = 0;
}

exchange_logs_whole_example :
    (e : ReqLogEntry) × ((exchange true invalid 5 1 request toy first broken set_up).entry ≡ some e)
    × LoggedBody invalid e request.read_all
unfolding enable_cache_aware
exchange_logs_whole_example =
    exchange_logs_whole invalid 5 1 request toy first broken set_up set_up_affinity refl refl
      request-IsReadAll (refl, omega arith, refl)

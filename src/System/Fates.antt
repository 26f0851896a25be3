-- ===== src/System/Fates.antt =====
-- The health of each backend in a reachable state of the balancer (lib/backend.go,
-- lib/balancer.go, lib/cacheaware.go, lib/healthcheck.go).
use go_load_balance.Prelude.{
  ℕ, ◌^◌, ◌%◌, ◌≡◌, ◌∙◌, List, [], Option, none, some, String, Result, get_elem?,
}
use go_load_balance.Affinity.{Affinity, Entry}
use go_load_balance.Backend.{Backend, increment_conns, decrement_conns}
use go_load_balance.Chain.{Codec, affinity_chain}
use go_load_balance.Health.{passed_since_failure, serves, outages}
use go_load_balance.Health.History.{Agrees, run-Agrees, new_backend-Agrees}
use go_load_balance.Pool.{
  Pool, Choice, picked, refused, panicked, select_backend, reserve_choice, least_conn_locked,
}
use go_load_balance.Pool.Choose.{At}
use go_load_balance.Table.{Hash}
use go_load_balance.Routing.{
  Route, warm, cold, overflow, failed, fault, finish, serve_on, upsert_chain, follow, after_walk,
  select_with, route, select_cache_aware,
}
use go_load_balance.Serve.{
  Body, no_body, too_large, unreadable, complete, serve_mode, serve_http, serve_cache_aware,
}
use go_load_balance.System.{
  System, IsSetUp, Step, arrive, arrive_live, arrive_live_cache_aware, end, health, status, Reach,
  start, later,
}
use go_load_balance.System.History.{step_events, history}
use go_load_balance.System.Interleaved.{select-Between, select_cache_aware-Between}
use go_load_balance.System.SetUp.{IsSetUp-Everywhere}
use go_load_balance.System.Tracks.{
  Tracks, Tracks-refl, Tracks-trans, modify-Tracks, handle-Tracks, increment-SameHealth,
  decrement-SameHealth,
}

module _ (i : ℕ) where
  -- No event from one pool to another.
  abbrev Undisturbed : Pool → Pool → Type 0
  Undisturbed p q = Tracks i [] p.backends q.backends

  reserve-Undisturbed : (p : Pool) (c : Choice) → Undisturbed p (reserve_choice c p).0
  reserve-Undisturbed p (picked j) =
      modify-Tracks i p.backends j increment_conns increment-SameHealth
  reserve-Undisturbed p (refused e) = Tracks-refl i p.backends
  reserve-Undisturbed p panicked = Tracks-refl i p.backends

  finish-Undisturbed : (p : Pool) (j : ℕ) (x : Option Affinity) → Undisturbed p (finish p j x).0
  finish-Undisturbed p j none = Tracks-refl i p.backends
  finish-Undisturbed p j (some a) =
      modify-Tracks i p.backends j increment_conns increment-SameHealth

  module _ (chain : List Hash) (now : ℕ) (p : Pool) where
    serve_on-Undisturbed :
        (a : Affinity) (j : ℕ) (b : Option Backend) → Undisturbed p (serve_on chain now p a j b).0
    serve_on-Undisturbed a j none = Tracks-refl i p.backends
    serve_on-Undisturbed a j (some b) = finish-Undisturbed p j (upsert_chain chain j b.epoch now a)

    follow-Undisturbed : (a : Affinity) (r : Route) → Undisturbed p (follow chain now p a r).0
    unfolding follow
    follow-Undisturbed a (warm j) = serve_on-Undisturbed _ j (get_elem? p.backends j)
    follow-Undisturbed a (cold j) = serve_on-Undisturbed _ j (get_elem? p.backends j)
    follow-Undisturbed a (overflow j) = serve_on-Undisturbed _ j (get_elem? p.backends j)
    follow-Undisturbed a (failed e) = Tracks-refl i p.backends
    follow-Undisturbed a fault = Tracks-refl i p.backends

    after_walk-Undisturbed :
        (intn : ℕ → ℕ) (a : Affinity) (w : Option (List (Hash × Entry) × Option ℕ))
        → Undisturbed p (after_walk intn now chain p a w).0
    after_walk-Undisturbed intn a none = Tracks-refl i p.backends
    after_walk-Undisturbed intn a (some (table, pin)) =
        follow-Undisturbed _ (route a.max_conns p.backends (least_conn_locked intn p) pin)

    select_with-Undisturbed :
        (intn : ℕ → ℕ) (x : Option Affinity) → Undisturbed p (select_with intn now chain p x).0
    select_with-Undisturbed intn none = Tracks-refl i p.backends
    select_with-Undisturbed intn (some a) = after_walk-Undisturbed intn a _

    select_cache_aware-Undisturbed :
        (intn : ℕ → ℕ) → Undisturbed p (select_cache_aware intn now chain p).0
    unfolding select_cache_aware
    select_cache_aware-Undisturbed intn = select_with-Undisturbed intn p.affinity

  module _ (codec : Codec) (intn : ℕ → ℕ) (now : ℕ) where
    serve_cache_aware-Undisturbed :
        (body : Body) (p : Pool) → Undisturbed p (serve_cache_aware codec intn now body p).0
    unfolding serve_cache_aware
    serve_cache_aware-Undisturbed no_body p = select_cache_aware-Undisturbed [] now p intn
    serve_cache_aware-Undisturbed too_large p = Tracks-refl i p.backends
    serve_cache_aware-Undisturbed unreadable p = Tracks-refl i p.backends
    serve_cache_aware-Undisturbed (complete body) p =
        select_cache_aware-Undisturbed (affinity_chain codec body) now p intn

    serve_mode-Undisturbed :
        (body : Body) (p : Pool) (x : Option Affinity)
        → Undisturbed p (serve_mode codec intn now body p x).0
    unfolding select_backend
    serve_mode-Undisturbed body p none = reserve-Undisturbed p (least_conn_locked intn p)
    serve_mode-Undisturbed body p (some a) = serve_cache_aware-Undisturbed body p

    serve_http-Undisturbed :
        (body : Body) (p : Pool) → Undisturbed p (serve_http codec intn now body p).0
    unfolding serve_http
    serve_http-Undisturbed body p = serve_mode-Undisturbed body p p.affinity

  Step-Tracks :
      {codec : Codec} {s t : System} (step : Step codec s t)
      → Tracks i (step_events i step) s.pool.backends t.pool.backends
  unfolding step_events
  Step-Tracks {codec} {s} (arrive intn now body random small) =
      serve_http-Undisturbed codec intn now body s.pool
  Step-Tracks (arrive_live intn n c off random small select) = select-Between i select
  Step-Tracks (arrive_live_cache_aware intn now body a a' n c on random small select) =
      select_cache_aware-Between i select
  Step-Tracks {s = s} (end j before after e) =
      modify-Tracks i s.pool.backends j decrement_conns decrement-SameHealth
  Step-Tracks {s = s} (health j e) = handle-Tracks i s.pool.backends j e
  Step-Tracks {s = s} (status a e) = Tracks-refl i s.pool.backends

  Reach-Tracks :
      {codec : Codec} {p : Pool} {s : System} (r : Reach codec p s)
      → Tracks i (history i r) p.backends s.pool.backends
  unfolding history
  Reach-Tracks {p = p} start = Tracks-refl i p.backends
  Reach-Tracks {p = p} {s = t} (later {s = s} r step) =
      Tracks-trans i (step_events i step) (history i r) p.backends s.pool.backends t.pool.backends
        (Reach-Tracks r) (Step-Tracks step)

-- In every reachable state of a balancer as it is set up, whatever requests, endings and changes of
-- health led there, within a selection or between them, a backend is healthy exactly when no event
-- that befell it was a failure or two health checks passed since its last failure, and its epoch is,
-- modulo 2 ^ 64, the number of failures that hit it while it was serving.
pub Reach-health :
    (parse_url : String → Result String String) (codec : Codec) (p : Pool) (s : System)
    → IsSetUp parse_url p
    → (r : Reach codec p s) (i : ℕ) (b : Backend) → At s.pool.backends i b
    → (b.healthy ≡ serves (passed_since_failure (history i r)))
      × (b.epoch ≡ outages (history i r) % 2 ^ 64)
Reach-health parse_url codec p s set_up r i b at =
    let (first, was_at, same) = Reach-Tracks i r b at in
    let fresh =
      IsSetUp-Everywhere (Agrees none 0) parse_url (new_backend-Agrees parse_url) set_up in
    let latest = run-Agrees (history i r) first (fresh i first was_at) in
    (same.healthy ∙ latest.health, same.epoch ∙ latest.epochs)

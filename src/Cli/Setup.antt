-- ===== src/Cli/Setup.antt =====
-- What the flags that pass the checks give: a pool in one of its modes, each with what it needs.
use go_load_balance.Prelude.{
  ◌≡◌, ◌↔◌, ◌⊎◌, inl, inr, refl, subst, sym, true, false, String, Option, none, some, Result, ok,
  err, ◌>>=◌, ℤ, pos, to_int, ◌<ℤ◌, ◌≤ℤ◌, arith, ltb_ℤ, Bool-cases,
}
use go_load_balance.Pool.{Pool, new_pool, enable_cache_aware, set_max_conns}
use go_load_balance.Routing.{retention_limit}
use go_load_balance.System.{IsSetUp, LimitFits, unlimited, limited, cache_aware}
use go_load_balance.System.SetUp.{new_pool-Everywhere}
use go_load_balance.Cli.{
  Flags, FlagError, invalid_port, negative_timeout, short_interval, unknown_routing,
  negative_max_conns, unlimited_cache_aware, no_affinity_ttl, bad_backends, no_log_file,
  all_backends, is_cache_aware, check_flags, configure, or_fatal, unless_failed, start_pool,
}
use go_load_balance.Cli.Text.{eq_text}

-- What the messages of the errors say that the flags must be.
pub record Accepted (c : Flags) : Type 0 where
  pub port : (pos 1 ≤ℤ c.port) × (c.port ≤ℤ pos 65535)
  pub timeout : pos 0 ≤ℤ c.timeout
  pub interval : pos 5000000000 ≤ℤ c.health_check_interval
  pub routing : (eq_text c.routing "least-conn" ≡ true) ⊎ (is_cache_aware c ≡ true)
  pub max_conns : pos 0 ≤ℤ c.max_conns
  pub cache_aware : is_cache_aware c ≡ true → (pos 0 <ℤ c.max_conns) × (pos 0 <ℤ c.affinity_ttl)

check_flags-Accepted : (c : Flags) → check_flags c ≡ none → Accepted c
unfolding check_flags
check_flags-Accepted c e = record {
  port = ground arith;
  timeout = ground arith;
  interval = ground arith;
  routing = ground arith;
  max_conns = ground arith;
  cache_aware = λ on. ground arith;
}

Accepted-check_flags : (c : Flags) → Accepted c → check_flags c ≡ none
unfolding check_flags
Accepted-check_flags c a =
    let p = a.port in
    let t = a.timeout in
    let i = a.interval in
    let r = a.routing in let m = a.max_conns in let k = a.cache_aware in ground arith

-- What is wrong with the flags, by the message of an error. Those of the last two are not about the
-- values of flags.
abbrev pub IsWrong : Flags → FlagError → Type 0
IsWrong c invalid_port = (c.port <ℤ pos 1) ⊎ (pos 65535 <ℤ c.port)
IsWrong c negative_timeout = c.timeout <ℤ pos 0
IsWrong c short_interval = c.health_check_interval <ℤ pos 5000000000
IsWrong c unknown_routing = (eq_text c.routing "least-conn" ≡ false) × (is_cache_aware c ≡ false)
IsWrong c negative_max_conns = c.max_conns <ℤ pos 0
IsWrong c unlimited_cache_aware =
    (is_cache_aware c ≡ true) × (pos 0 ≤ℤ c.max_conns) × (c.max_conns ≤ℤ pos 0)
IsWrong c no_affinity_ttl = (is_cache_aware c ≡ true) × (c.affinity_ttl ≤ℤ pos 0)
IsWrong c (bad_backends message) = ⊥
IsWrong c (no_log_file message) = ⊥

-- A verdict on the flags that is right.
abbrev pub IsRight : Flags → Option FlagError → Type 0
IsRight c none = Accepted c
IsRight c (some e) = IsWrong c e

check_flags-IsWrong : (c : Flags) (e : FlagError) → check_flags c ≡ some e → IsWrong c e
unfolding check_flags
check_flags-IsWrong c invalid_port is = ground arith
check_flags-IsWrong c negative_timeout is = ground arith
check_flags-IsWrong c short_interval is = ground arith
check_flags-IsWrong c unknown_routing is = ground arith
check_flags-IsWrong c negative_max_conns is = ground arith
check_flags-IsWrong c unlimited_cache_aware is = ground arith
check_flags-IsWrong c no_affinity_ttl is = ground arith
check_flags-IsWrong c (bad_backends message) is = ground arith
check_flags-IsWrong c (no_log_file message) is = ground arith

check_flags-IsRight : (c : Flags) (o : Option FlagError) → check_flags c ≡ o → IsRight c o
check_flags-IsRight c none is = check_flags-Accepted c is
check_flags-IsRight c (some e) is = check_flags-IsWrong c e is

-- The checks pass exactly where: the port is from 1 to 65535, the timeout is not negative, the
-- interval of the health checks is at least 5s, the routing is one of the two, the cap is not
-- negative, and with cache-aware routing the cap and the lifetime are above 0. Where they fail, the
-- error that they report is true of the flags.
pub check_flags-accepts_iff :
    (c : Flags) → ((check_flags c ≡ none) ↔ Accepted c) × IsRight c (check_flags c)
check_flags-accepts_iff c =
    ((check_flags-Accepted c, Accepted-check_flags c), check_flags-IsRight c (check_flags c) refl)

retention_limit-nonneg :
    (m : ℤ) → pos 0 ≤ℤ m → m ≤ℤ pos 1844674407370955161 → pos 0 ≤ℤ retention_limit m
unfolding to_int
retention_limit-nonneg m nonneg small = ground arith

configure-IsSetUp :
    (parse_url : String → Result String String) (c : Flags) (p : Pool)
    → Accepted c
    → new_pool parse_url (all_backends c) ≡ ok p
    → IsSetUp parse_url (configure c p)
unfolding configure
configure-IsSetUp parse_url c p a made = elim (Bool-cases (is_cache_aware c)) [
  | inl on ↦
      cache_aware (all_backends c) c.affinity_ttl c.max_conns p made (a.cache_aware on).0
        (rw on refl)
  | inr off ↦ elim (Bool-cases (ltb_ℤ (pos 0) c.max_conns)) [
    | inl above ↦ limited (all_backends c) c.max_conns p made (rw off (rw above refl))
    | inr none_above ↦
        unlimited (all_backends c) (
          subst (λ q. new_pool parse_url (all_backends c) ≡ ok q) (rw off (rw none_above refl))
            made)
  ]
]

unless_failed_inv :
    (o : Option FlagError) (r : Result FlagError Pool) (p : Pool)
    → unless_failed o r ≡ ok p
    → (o ≡ none) × (r ≡ ok p)
unless_failed_inv none r p e = (refl, e)
unless_failed_inv (some x) r p e = cc

or_fatal_inv :
    (x : Result String Pool) (f : Pool → Pool) (q : Pool)
    → (or_fatal x >>= (λ p. ok (f p))) ≡ ok q
    → (p : Pool) × (x ≡ ok p) × (f p ≡ q)
or_fatal_inv (ok p) f q e = (p, refl, cc)
or_fatal_inv (err m) f q e = cc

configure-LimitFits :
    (c : Flags) (p : Pool)
    → Accepted c
    → c.max_conns ≤ℤ pos 1844674407370955161
    → p.affinity ≡ none
    → LimitFits (configure c p).affinity
unfolding configure enable_cache_aware set_max_conns
configure-LimitFits c p a small fresh = elim (Bool-cases (is_cache_aware c)) [
  | inl on ↦ rw on (retention_limit-nonneg c.max_conns a.max_conns small)
  | inr off ↦ elim (Bool-cases (ltb_ℤ (pos 0) c.max_conns)) [
    | inl above ↦ rw off (rw above (subst LimitFits (sym fresh) tt))
    | inr none_above ↦ rw off (rw none_above (subst LimitFits (sym fresh) tt))
  ]
]

module _ (parse_url : String → Result String String) (c : Flags) (p : Pool) where
  start_pool_inv :
      start_pool parse_url c ≡ ok p
      → (check_flags c ≡ none)
        × ((q : Pool) × (new_pool parse_url (all_backends c) ≡ ok q) × (configure c q ≡ p))
  unfolding start_pool
  start_pool_inv e =
      let (passed, built) = unless_failed_inv (check_flags c) _ p e in
      (passed, or_fatal_inv (new_pool parse_url (all_backends c)) (configure c) p built)

  -- The pool that the server is started with is set up in one of its three modes.
  pub start_pool-IsSetUp : start_pool parse_url c ≡ ok p → IsSetUp parse_url p
  start_pool-IsSetUp e =
      let (passed, (q, made, is)) = start_pool_inv e in
      subst (IsSetUp parse_url) is
        (configure-IsSetUp parse_url c q (check_flags-Accepted c passed) made)

  -- The checks of the flags do not ask for the bound on the cap.
  pub start_pool-LimitFits :
      start_pool parse_url c ≡ ok p → c.max_conns ≤ℤ pos 1844674407370955161 → LimitFits p.affinity
  start_pool-LimitFits e small =
      let (passed, (q, made, is)) = start_pool_inv e in
      let (_, _, fresh) =
        new_pool-Everywhere (λ b. Unit {0}) parse_url (λ u b e. tt) (all_backends c) q made in
      subst (λ (r : Pool). LimitFits r.affinity) is
        (configure-LimitFits c q (check_flags-Accepted c passed) small fresh)

-- ===== src/Pool.antt =====
-- lib/balancer.go: the pool and least-connections selection. A backend is its index in the pool,
-- which no operation reorders; a method runs under the pool's lock and returns the new pool.
use go_load_balance.Prelude.{
  ℕ, zero, suc, ◌+◌, Bool, true, false, ◌&&◌, List, [], ◌∷◌, ◌++◌, String, Option, none, some,
  Result, ok, err, ◌>>=◌, ℤ, pos, ◌+ℤ◌, to_int, max_int, ltb_ℤ, leb_ℤ, eqb_ℤ, if◌then◌else◌, length,
  get_elem?, modify,
}
use go_load_balance.Backend.{
  Backend, new_backend, is_healthy, get_active_conns, increment_conns, decrement_conns,
}
use go_load_balance.Affinity.{Affinity}
pub mod Scan
pub mod Minimum
pub mod Choose
pub mod Reserve
pub mod Select
pub mod Totals

pub data SelectError : Type 0 where
  no_healthy_backends at_capacity : SelectError

pub record Pool : Type 0 where
  pub backends : List Backend
  pub max_conns : ℤ
  pub affinity : Option Affinity

unfoldable pub set_max_conns : ℤ → Pool → Pool
set_max_conns n p = record p { max_conns = n }

unfoldable pub enable_cache_aware : (ttl max_conns : ℤ) → Pool → Pool
enable_cache_aware ttl max_conns p = record p {
  max_conns = max_conns;
  affinity = some (record {
    ttl = ttl;
    max_conns = max_conns;
    table = [];
    records = [];
    warm = 0;
    cold = 0;
    overflow = 0;
  });
}

-- The loop of `NewPool`: the first URL that does not parse ends it.
unfoldable pub new_backends :
    (String → Result String String) → List String → Result String (List Backend)
new_backends parse_url [] = ok []
new_backends parse_url (u ∷ urls) = do
  b ← new_backend parse_url u
  bs ← new_backends parse_url urls
  ok (b ∷ bs)

unfoldable pub new_pool : (String → Result String String) → List String → Result String Pool
unfolding new_backends
new_pool parse_url [] = err "at least one backend is required"
new_pool parse_url (u ∷ urls) = do
  bs ← new_backends parse_url (u ∷ urls)
  ok (record { backends = bs; max_conns = pos 0; affinity = none })

-- The local variables of the loop in `leastConnLocked`; `least` and `leastIdx` are one list.
pub record ScanState : Type 0 where
  pub min_conns : ℤ
  pub least : List ℕ
  pub any_healthy : Bool

unfoldable pub visit : (max_conns : ℤ) → ℕ → Backend → ScanState → ScanState
visit max_conns i b s =
    let c = get_active_conns b in
    if is_healthy b
    then (if ltb_ℤ (pos 0) max_conns && leb_ℤ max_conns c
        then record s { any_healthy = true }
        else if ltb_ℤ c s.min_conns
        then record { min_conns = c; least = i ∷ []; any_healthy = true }
        else if eqb_ℤ c s.min_conns
        then record s { least = s.least ++ i ∷ []; any_healthy = true }
        else record s { any_healthy = true })
    else s

unfoldable pub scan : (max_conns : ℤ) → ℕ → List Backend → ScanState → ScanState
scan max_conns i [] s = s
scan max_conns i (b ∷ bs) s = scan max_conns (suc i) bs (visit max_conns i b s)

-- The index of the selected backend, an error, or an index out of range.
pub data Choice : Type 0 where
  picked : ℕ → Choice
  refused : SelectError → Choice
  panicked : Choice

abbrev pub pick : Option ℕ → Choice
pick none = panicked
pick (some i) = picked i

-- `intn` is `rand.Intn` at this call.
unfoldable pub tie_break : (intn : ℕ → ℕ) → Bool → List ℕ → Choice
tie_break intn any_healthy [] = refused (if any_healthy then at_capacity else no_healthy_backends)
tie_break intn any_healthy (i ∷ is) = pick (get_elem? (i ∷ is) (intn (length (i ∷ is))))

unfoldable pub least_conn_locked : (intn : ℕ → ℕ) → Pool → Choice
least_conn_locked intn p =
    let s =
      scan p.max_conns 0 p.backends
        (record { min_conns = max_int; least = []; any_healthy = false }) in
    tie_break intn s.any_healthy s.least

-- Takes or releases a slot on the backend with this index.
abbrev pub reserve : ℕ → Pool → Pool
reserve i p = record p { backends = modify p.backends i increment_conns }

abbrev pub release : ℕ → Pool → Pool
release i p = record p { backends = modify p.backends i decrement_conns }

abbrev pub reserve_choice : Choice → Pool → Pool × Choice
reserve_choice (picked i) p = (reserve i p, picked i)
reserve_choice (refused e) p = (p, refused e)
reserve_choice panicked p = (p, panicked)

unfoldable pub select_backend : (intn : ℕ → ℕ) → Pool → Pool × Choice
select_backend intn p = reserve_choice (least_conn_locked intn p) p

abbrev pub get_backends : Pool → List Backend
get_backends p = p.backends

pub record Status : Type 0 where
  pub total_active : ℤ
  pub healthy_count : ℤ
  pub total_count : ℕ

abbrev pub status_loop : List Backend → ℤ → ℤ → ℤ × ℤ
status_loop [] active healthy = (active, healthy)
status_loop (b ∷ bs) active healthy =
    status_loop bs (to_int (active +ℤ get_active_conns b))
      (if is_healthy b then to_int (healthy +ℤ pos 1) else healthy)

unfoldable pub get_status : Pool → Status
get_status p =
    let (active, healthy) = status_loop p.backends (pos 0) (pos 0) in
    record { total_active = active; healthy_count = healthy; total_count = length p.backends }

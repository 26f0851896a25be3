-- ===== src/Routing/Conversation.antt =====
-- Two requests of one conversation: the second finds the pins that the first left (lib/cacheaware.go,
-- `selectCacheAware` after `selectCacheAware`).
use mathlib.Core.List.{reverse-append}
use go_load_balance.Prelude.{
  ℕ, ◌+◌, ◌%◌, ◌^◌, ◌≡◌, refl, sym, ap, subst, ◌∙◌, ◌++◌, true, List, [], ◌∷◌, Option, none, some,
  pos, ◌-ℤ◌, ◌≤ℤ◌, arith, reverse, get_elem?,
}
use go_load_balance.Table.{Hash, hash_eq, nat_eq, hash_beq_iff, lookup, get_records}
use go_load_balance.Backend.{Backend}
use go_load_balance.Affinity.{Affinity}
use go_load_balance.Pool.Choose.{IsIntn, At}
use go_load_balance.Pool.{Pool, Choice, picked}
use go_load_balance.Routing.Deepest.{IsDeepestPin, NoneValid}
use go_load_balance.Routing.Guard.{Admits}
use go_load_balance.Routing.Retention.{contains}
use go_load_balance.Routing.Upsert.{Older, upsert_locked-pins}
use go_load_balance.Routing.Select.{IsReady, select_cache_aware-follow}
use go_load_balance.Routing.Sticky.{select_cache_aware_follows_pin}
use go_load_balance.Routing.{
  Route, warm, cold, overflow, failed, fault, follow, serve_on, finish, upsert_locked,
  select_cache_aware, retention_limit,
}

-- Each hash of the chain is pinned to backend `i` as it is in `bs`, as last seen now.
abbrev pub PinnedTo : List Hash → (now : ℕ) → List Backend → ℕ → Affinity → Type 0
PinnedTo chain now bs i a =
    (b : Backend) × At bs i b
    × ((h : Hash)
        → contains chain h ≡ true
        → lookup h a.table ≡ some (record { backend = i; epoch = b.epoch; last_seen = now }))

-- Every record is from before `now`.
abbrev pub AllOlder : ℕ → Affinity → Type 0
AllOlder now a = (j : ℕ) → Older now (get_records j a.records)

module _ (x : Hash) (xs : List Hash) (now : ℕ) (p : Pool) (i : ℕ) (a' : Affinity) where
  -- The same settings and records, at least.
  finish-PinnedTo :
      (j : ℕ) (b : Backend) (o : Option Affinity)
      → At p.backends j b
      → (a₂ : Affinity) × (o ≡ some a₂)
        × ((h : Hash)
            → contains (x ∷ xs) h ≡ true
            → lookup h a₂.table ≡ some (record { backend = j; epoch = b.epoch; last_seen = now }))
      → (finish p j o).1 ≡ picked i
      → (finish p j o).0.affinity ≡ some a'
      → PinnedTo (x ∷ xs) now p.backends i a'
  finish-PinnedTo j b none at (a₂, e, pins) chose kept = cc
  finish-PinnedTo j b (some a₃) at (a₂, e, pins) chose kept =
      let same : j ≡ i = cc in
      let last : a₂ ≡ a' = cc in
      subst (λ k. PinnedTo (x ∷ xs) now p.backends k a') same
        (
          b,
          at,
          subst
              (λ (s : Affinity).
                (h : Hash)
                → contains (x ∷ xs) h ≡ true
                → lookup h s.table
                  ≡ some (record { backend = j; epoch = b.epoch; last_seen = now }))
              last pins,
        )

  module _ (a : Affinity) (one : pos 1 ≤ℤ retention_limit a.max_conns)
      (older : AllOlder now a) where
    serve_on-PinnedTo :
        (j : ℕ) (o : Option Backend)
        → get_elem? p.backends j ≡ o
        → (serve_on (x ∷ xs) now p a j o).1 ≡ picked i
        → (serve_on (x ∷ xs) now p a j o).0.affinity ≡ some a'
        → PinnedTo (x ∷ xs) now p.backends i a'
    serve_on-PinnedTo j none at chose kept = cc
    serve_on-PinnedTo j (some b) at chose kept =
        finish-PinnedTo j b (upsert_locked (x ∷ xs) j b.epoch now a) at
          (upsert_locked-pins (x ∷ xs) j b.epoch now a one (older j)) chose kept

  follow-PinnedTo :
      (a : Affinity) (r : Route)
      → pos 1 ≤ℤ retention_limit a.max_conns
      → AllOlder now a
      → (follow (x ∷ xs) now p a r).1 ≡ picked i
      → (follow (x ∷ xs) now p a r).0.affinity ≡ some a'
      → PinnedTo (x ∷ xs) now p.backends i a'
  unfolding follow
  follow-PinnedTo a (warm j) one older chose kept =
      serve_on-PinnedTo (record a { warm = (a.warm + 1) % 2 ^ 64 }) one older j
        (get_elem? p.backends j) refl chose kept
  follow-PinnedTo a (cold j) one older chose kept =
      serve_on-PinnedTo (record a { cold = (a.cold + 1) % 2 ^ 64 }) one older j
        (get_elem? p.backends j) refl chose kept
  follow-PinnedTo a (overflow j) one older chose kept =
      serve_on-PinnedTo (record a { overflow = (a.overflow + 1) % 2 ^ 64 }) one older j
        (get_elem? p.backends j) refl chose kept
  follow-PinnedTo a (failed e) one older chose kept = cc
  follow-PinnedTo a fault one older chose kept = cc

-- The deepest hash of a chain.
deepest_split :
    (x : Hash) (xs : List Hash)
    → (d : Hash) × (others : List Hash) × (reverse (x ∷ xs) ≡ d ∷ others)
      × (contains (x ∷ xs) d ≡ true)
deepest_split x [] = (x, [], refl, ground (arith, hash_beq_iff x x))
deepest_split x (y ∷ ys) =
    let (d, others, e, inside) = deepest_split y ys in
    (
      d,
      others ++ x ∷ [],
      reverse-append (x ∷ []) (y ∷ ys) ∙ ap (λ zs. zs ++ x ∷ []) e,
      ground (arith, inside),
    )

module _ (x : Hash) (xs : List Hash) (now : ℕ) (p : Pool) (a a' : Affinity) (intn : ℕ → ℕ)
    (i : ℕ) where
  -- A request that is served leaves its whole chain pinned to the backend that serves it.
  select_cache_aware-PinnedTo :
      IsReady p a
      → pos 1 ≤ℤ retention_limit a.max_conns
      → AllOlder now a
      → (select_cache_aware intn now (x ∷ xs) p).1 ≡ picked i
      → (select_cache_aware intn now (x ∷ xs) p).0.affinity ≡ some a'
      → PinnedTo (x ∷ xs) now p.backends i a'
  select_cache_aware-PinnedTo ready one older chose kept =
      let (table, selected, only) = select_cache_aware-follow (x ∷ xs) now p a ready intn in
      follow-PinnedTo x xs now p i a' (record a { table = table }) _ one older
        (ap (λ (r : Pool × Choice). r.1) (sym selected) ∙ chose)
        (ap (λ (r : Pool × Choice). r.0.affinity) (sym selected) ∙ kept)

  module _ (rest : List Hash) (now₂ : ℕ) (p₂ : Pool) (intn₂ : ℕ → ℕ) (b b₂ : Backend) where
    pinned-IsDeepestPin :
        PinnedTo (x ∷ xs) now p.backends i a'
        → At p.backends i b
        → At p₂.backends i b₂
        → b₂.epoch ≡ b.epoch
        → b₂.healthy ≡ true
        → pos now₂ -ℤ pos now ≤ℤ a'.ttl
        → NoneValid now₂ a'.ttl p₂.backends a'.table (reverse rest)
        → IsDeepestPin now₂ a'.ttl p₂.backends a'.table (reverse ((x ∷ xs) ++ rest)) i
    pinned-IsDeepestPin (b₁, at₁, pins) at at₂ same_epoch up recent none_deeper =
        let (d, others, e, inside) = deepest_split x xs in
        let same : b₁ ≡ b = cc in
        record {
          skipped = reverse rest;
          deepest = d;
          others = others;
          split = reverse-append (x ∷ xs) rest ∙ ap (λ zs. reverse rest ++ zs) e;
          none_deeper = none_deeper;
          valid_pin = record {
            entry = record { backend = i; epoch = b₁.epoch; last_seen = now };
            backend = b₂;
            pinned = pins d inside;
            points_to = refl;
            at = at₂;
            fresh = ground (arith, ap (λ (z : Backend). z.epoch) same);
            healthy = up;
          };
        }

    -- A conversation stays where it is: if a request with a chain was served on a backend, then the
    -- next request whose chain extends it is served there too, on a state with the same routing
    -- state, provided that: both pools are ready; the retention limit has room for a record and all
    -- records are from before the first request; no deeper hash of the longer chain has a valid pin;
    -- the second request comes within the lifetime of pins; and in between the backend did not fail
    -- (its epoch is the same), and it is now healthy, below the cap and ahead of no healthy backend
    -- by more than a fifth of it.
    pub select_cache_aware_stays :
        IsReady p a
        → IsReady p₂ a'
        → IsIntn intn₂
        → pos 1 ≤ℤ retention_limit a.max_conns
        → AllOlder now a
        → (select_cache_aware intn now (x ∷ xs) p).1 ≡ picked i
        → (select_cache_aware intn now (x ∷ xs) p).0.affinity ≡ some a'
        → At p.backends i b
        → b₂.epoch ≡ b.epoch
        → Admits p₂.max_conns p₂.backends i b₂
        → pos now₂ -ℤ pos now ≤ℤ a'.ttl
        → NoneValid now₂ a'.ttl p₂.backends a'.table (reverse rest)
        → (select_cache_aware intn₂ now₂ ((x ∷ xs) ++ rest) p₂).1 ≡ picked i
    select_cache_aware_stays ready ready₂ random one older chose kept at same_epoch ok recent
          none_deeper =
        let pinned = select_cache_aware-PinnedTo ready one older chose kept in
        let deepest =
          pinned-IsDeepestPin pinned at ok.at same_epoch ok.healthy recent none_deeper in
        (select_cache_aware_follows_pin ((x ∷ xs) ++ rest) now₂ p₂ a' intn₂ ready₂ random i b₂
          deepest ok).0

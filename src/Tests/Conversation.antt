-- ===== src/Tests/Conversation.antt =====
-- A second request of a conversation, one hash longer, after the first has ended.
use go_load_balance.Prelude.{
  zero, suc, ◌≡◌, refl, sym, subst, [], ◌∷◌, ◌++◌, some, pos, ◌-ℤ◌, to_int, arith, length, ◌≤ℤ◌,
  map, none, drop, reverse,
}
use go_load_balance.Table.{nat_eq, lookup, insert, get_records}
use go_load_balance.Backend.{increment_conns}
use go_load_balance.Affinity.{Affinity, Entry}
use go_load_balance.Pool.{Pool, Choice, picked, scan, visit, tie_break}
use go_load_balance.Routing.Invariant.{AffinityInv}
use go_load_balance.Routing.Select.{
  IsReady, Outcome, served, turned_away, select_cache_aware-Outcome,
}
use go_load_balance.Routing.Conversation.{AllOlder}
use go_load_balance.Chain.{Bytes, Codec, Request, affinity_chain}
use go_load_balance.Serve.{complete, proxied, serve_http, serve_cache_aware}
use go_load_balance.Serve.Conversation.{Continues, serve_http_stays}
use go_load_balance.Routing.Upsert.{Older}
use go_load_balance.Routing.Deepest.{NoneValid}
use go_load_balance.Routing.{select_cache_aware}
use go_load_balance.Tests.Samples.{backend, three, affinity, pool, first}
use go_load_balance.Tests.Pool.{first-IsIntn}
use go_load_balance.Tests.Routing.{chain, pool-IsReady, first-Admits, three-CountsNat, limit}

one_older : AllOlder 9 affinity
unfolding get_records lookup
one_older zero = omega arith
one_older (suc j) =
    let no_record : get_records (suc j) affinity.records ≡ [] = ground arith in
    subst (Older 9) (sym no_record) tt

-- The routing state after the first request.
abbrev pin : Entry
pin = record { backend = 0; epoch = 3; last_seen = 9 }

abbrev pub after : Affinity
after = record affinity {
  table = ((1 ∷ []), pin) ∷ ((2 ∷ []), pin) ∷ [];
  records =
      (0, record { hashes = (1 ∷ []) ∷ []; at = 5 } ∷ record { hashes = chain; at = 9 } ∷ []) ∷ [];
  warm = 1;
}

after_test : (select_cache_aware first 9 chain pool).0.affinity ≡ some after
unfolding select_cache_aware scan visit tie_break lookup insert get_records to_int ◌-ℤ◌
    increment_conns
after_test = refl

served_test : (select_cache_aware first 9 chain pool).1 ≡ picked 0
unfolding select_cache_aware scan visit tie_break lookup insert get_records to_int ◌-ℤ◌
    increment_conns
served_test = refl

Outcome-AffinityInv :
    {p : Pool} {a a' : Affinity} {r : Pool × Choice}
    → Outcome p a r
    → r.0.affinity ≡ some a'
    → AffinityInv (length p.backends) p.max_conns a'
Outcome-AffinityInv {p} (served b a₁ admits inv) e =
    let same : a₁ ≡ _ = cc in subst (AffinityInv (length p.backends) p.max_conns) same inv
Outcome-AffinityInv {p} (turned_away a₁ c inv) e =
    let same : a₁ ≡ _ = cc in subst (AffinityInv (length p.backends) p.max_conns) same inv

-- The first request has ended, so that the backends are as before.
abbrev later : Pool
later = record pool { affinity = some after }

later-IsReady : IsReady later after
later-IsReady = record {
  enabled = refl;
  capped = omega arith;
  limit = rw limit (omega arith);
  counts = three-CountsNat;
  inv =
      Outcome-AffinityInv
        (select_cache_aware-Outcome chain 9 pool affinity pool-IsReady first first-IsIntn)
        after_test;
}

none_deeper : NoneValid 50 (pos 100) three after.table ((3 ∷ []) ∷ [])
unfolding lookup
none_deeper = ((λ i v. ground (arith, v.pinned)), tt)

within : pos 50 -ℤ pos 9 ≤ℤ pos 100
unfolding ◌-ℤ◌
within = omega arith

-- A body is one message for each byte, and a sum is the last byte of its input.
abbrev last_byte : Bytes → Bytes
last_byte [] = []
last_byte (c ∷ []) = c ∷ []
last_byte (c ∷ d ∷ cs) = last_byte (d ∷ cs)

abbrev request : Bytes → Request
request body = record { user = []; messages = map (λ c. c ∷ []) body; prompt = none }

abbrev bytewise : Codec
bytewise = record {
  decode_message = λ text. none;
  decode_request = λ body. some (request body);
  sum = last_byte;
}

continues : Continues bytewise (1 ∷ 2 ∷ []) (1 ∷ 2 ∷ 3 ∷ [])
continues = record {
  req = request (1 ∷ 2 ∷ []);
  req' = request (1 ∷ 2 ∷ 3 ∷ []);
  message = 1 ∷ [];
  messages = (2 ∷ []) ∷ [];
  more = (3 ∷ []) ∷ [];
  some_body = omega arith;
  some_body' = omega arith;
  decoded = refl;
  decoded' = refl;
  no_user = refl;
  no_user' = refl;
  has = refl;
  has' = refl;
}

chain_test : affinity_chain bytewise (1 ∷ 2 ∷ []) ≡ chain
unfolding affinity_chain
chain_test = refl

longer_test : affinity_chain bytewise (1 ∷ 2 ∷ 3 ∷ []) ≡ chain ++ (3 ∷ []) ∷ []
unfolding affinity_chain
longer_test = refl

proxied_test : (serve_http bytewise first 9 (complete (1 ∷ 2 ∷ [])) pool).1 ≡ proxied 0
unfolding serve_http serve_cache_aware affinity_chain select_cache_aware scan visit tie_break lookup
    insert get_records to_int ◌-ℤ◌ increment_conns
proxied_test = refl

left_test : (serve_http bytewise first 9 (complete (1 ∷ 2 ∷ [])) pool).0.affinity ≡ some after
unfolding serve_http serve_cache_aware affinity_chain select_cache_aware scan visit tie_break lookup
    insert get_records to_int ◌-ℤ◌ increment_conns
left_test = refl

serve_http_stays_example :
    (serve_http bytewise first 50 (complete (1 ∷ 2 ∷ 3 ∷ [])) later).1 ≡ proxied 0
serve_http_stays_example =
    serve_http_stays bytewise (1 ∷ 2 ∷ []) (1 ∷ 2 ∷ 3 ∷ []) (1 ∷ []) ((2 ∷ []) ∷ []) 9 50 pool later
      affinity after first first 0 (backend 2) (backend 2) continues chain_test pool-IsReady
      later-IsReady first-IsIntn (rw limit (omega arith)) one_older proxied_test left_test refl refl
      first-Admits within
      (subst (λ l. NoneValid 50 (pos 100) three after.table (reverse (drop 2 l))) (sym longer_test)
        none_deeper)

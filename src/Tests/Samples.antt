-- ===== src/Tests/Samples.antt =====
-- Backends and pools to run the code on.
use go_load_balance.Prelude.{ℕ, true, false, List, [], ◌∷◌, String, some, pos, Result, ok}
use go_load_balance.Backend.{Backend}
use go_load_balance.Affinity.{Affinity}
use go_load_balance.Pool.{Pool}

abbrev pub parse_all : String → Result String String
parse_all u = ok u

abbrev pub backend : ℕ → Backend
backend n = record {
  url = "http://a";
  healthy = true;
  active_conns = pos n;
  success_streak = pos 0;
  epoch = 3;
}

abbrev pub down : Backend
down = record (backend 0) { healthy = false; epoch = 4 }

-- Two healthy backends with 2 and 1 connections, and one that is down.
abbrev pub three : List Backend
three = backend 2 ∷ backend 1 ∷ down ∷ []

abbrev pub affinity : Affinity
affinity = record {
  ttl = pos 100;
  max_conns = pos 10;
  table = ((1 ∷ []), record { backend = 0; epoch = 3; last_seen = 5 }) ∷ [];
  records = (0, record { hashes = (1 ∷ []) ∷ []; at = 5 } ∷ []) ∷ [];
  warm = 0;
  cold = 1;
  overflow = 0;
}

abbrev pub pool : Pool
pool = record { backends = three; max_conns = pos 10; affinity = some affinity }

-- `rand.Intn` that returns 0.
abbrev pub first : ℕ → ℕ
first n = 0

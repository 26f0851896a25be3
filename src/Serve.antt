-- ===== src/Serve.antt =====
-- The two handlers of a request, up to the proxy and after it (lib/balancer.go, `ServeHTTP` and
-- `writeSelectError`; lib/cacheaware.go, `serveCacheAware`). What the request log sees is in Exchange.
pub mod Conversation
use go_load_balance.Prelude.{ℕ, [], String, Option, none, some}
use Prim.Native.String.{◌++◌ as str_append}
use go_load_balance.Affinity.{Affinity}
use go_load_balance.Pool.{
  Pool, SelectError, no_healthy_backends, at_capacity, Choice, picked, refused, panicked,
  select_backend,
}
use go_load_balance.Chain.{Bytes, Codec, affinity_chain}
use go_load_balance.Routing.{select_cache_aware}

-- What reading the request body, bounded by `affinityMaxBody`, ends in.
pub data Body : Type 0 where
  no_body too_large unreadable : Body
  complete : Bytes → Body

-- An answer that the handler writes itself.
pub record Answer : Type 0 where
  pub status : ℕ
  pub content_type : String
  pub retry_after : Option ℕ
  pub text : String

-- `http.Error`, which adds a newline to the text.
abbrev pub http_error : ℕ → String → Answer
http_error code message = record {
  status = code;
  content_type = "text/plain; charset=utf-8";
  retry_after = none;
  text = str_append message "\n";
}

abbrev pub rate_limit_text : String
rate_limit_text =
    "{\"error\":{\"message\":\"Rate limit reached: all backends at max concurrent requests, please retry later.\",\"type\":\"rate_limit_error\",\"code\":\"rate_limit_exceeded\"}}"

unfoldable pub write_select_error : SelectError → Answer
write_select_error at_capacity = record {
  status = 429;
  content_type = "application/json";
  retry_after = some 1;
  text = rate_limit_text;
}
write_select_error no_healthy_backends =
    http_error 503 "Service Unavailable: no healthy backends available"

-- The request goes to a backend, whose slot it holds until it ends; or it is answered; or the
-- handler panics.
pub data Reply : Type 0 where
  proxied : ℕ → Reply
  answered : Answer → Reply
  aborted : Reply

abbrev pub reply : Choice → Reply
reply (picked i) = proxied i
reply (refused e) = answered (write_select_error e)
reply panicked = aborted

abbrev pub reply_to : Pool × Choice → Pool × Reply
reply_to r = (r.0, reply r.1)

unfoldable pub serve_cache_aware : Codec → (intn : ℕ → ℕ) (now : ℕ) → Body → Pool → Pool × Reply
serve_cache_aware codec intn now no_body p = reply_to (select_cache_aware intn now [] p)
serve_cache_aware codec intn now too_large p =
    (p, answered (http_error 413 "request body too large"))
serve_cache_aware codec intn now unreadable p =
    (p, answered (http_error 400 "failed to read request body"))
serve_cache_aware codec intn now (complete body) p =
    reply_to (select_cache_aware intn now (affinity_chain codec body) p)

abbrev pub serve_mode :
    Codec → (intn : ℕ → ℕ) (now : ℕ) → Body → Pool → Option Affinity → Pool × Reply
serve_mode codec intn now body p none = reply_to (select_backend intn p)
serve_mode codec intn now body p (some a) = serve_cache_aware codec intn now body p

unfoldable pub serve_http : Codec → (intn : ℕ → ℕ) (now : ℕ) → Body → Pool → Pool × Reply
unfolding serve_cache_aware
serve_http codec intn now body p = serve_mode codec intn now body p p.affinity

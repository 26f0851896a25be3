-- ===== src/Serve/Conversation.antt =====
-- Two requests of one conversation through the handler, from the bytes of their bodies.
use go_load_balance.Prelude.{
  ℕ, ◌<◌, ◌≡◌, refl, sym, ap, subst, ◌∙◌, ◌++◌, List, [], ◌∷◌, some, pos, ◌-ℤ◌, ◌≤ℤ◌, reverse,
  length, drop, arith,
}
use go_load_balance.Table.{Hash}
use go_load_balance.Backend.{Backend}
use go_load_balance.Affinity.{Affinity}
use go_load_balance.Chain.{Bytes, Codec, Request, affinity_chain}
use go_load_balance.Chain.Prefixes.{affinity_chain-IsPrefix}
use go_load_balance.Pool.{Pool, Choice, picked, refused, panicked}
use go_load_balance.Pool.Choose.{IsIntn, At}
use go_load_balance.Routing.Conversation.{AllOlder, select_cache_aware_stays}
use go_load_balance.Routing.Deepest.{NoneValid}
use go_load_balance.Routing.Guard.{Admits}
use go_load_balance.Routing.Select.{IsReady}
use go_load_balance.Routing.{retention_limit, select_cache_aware}
use go_load_balance.Serve.{complete, Reply, proxied, reply, reply_to, serve_mode, serve_http}

-- The second body continues the first: both decode, neither names a `user`, and the messages of the
-- first, at least one, are the first messages of the second.
pub record Continues (codec : Codec) (body body' : Bytes) : Type 0 where
  pub req : Request
  pub req' : Request
  pub message : Bytes
  pub messages : List Bytes
  pub more : List Bytes
  pub some_body : 0 < length body
  pub some_body' : 0 < length body'
  pub decoded : codec.decode_request body ≡ some req
  pub decoded' : codec.decode_request body' ≡ some req'
  pub no_user : req.user ≡ []
  pub no_user' : req'.user ≡ []
  pub has : req.messages ≡ message ∷ messages
  pub has' : req'.messages ≡ message ∷ messages ++ more

-- In cache-aware mode a body that can be read is routed by its chain.
serve_http-routed :
    (codec : Codec) (intn : ℕ → ℕ) (now : ℕ) (body : Bytes) (p : Pool) (a : Affinity)
    → p.affinity ≡ some a
    → serve_http codec intn now (complete body) p
      ≡ reply_to (select_cache_aware intn now (affinity_chain codec body) p)
unfolding serve_http
serve_http-routed codec intn now body p a on = ap (serve_mode codec intn now (complete body) p) on

reply_inv : (c : Choice) (i : ℕ) → reply c ≡ proxied i → c ≡ picked i
reply_inv (picked j) i e = ground arith
reply_inv (refused x) i e = cc
reply_inv panicked i e = cc

drop-append : {A : Type 0} (xs ys : List A) → drop (length xs) (xs ++ ys) ≡ ys
drop-append [] ys = refl
drop-append (x ∷ xs) ys = drop-append xs ys

module _ (codec : Codec) (body body' : Bytes) (x : Hash) (xs : List Hash) (now now₂ : ℕ)
    (p p₂ : Pool) (a a' : Affinity) (intn intn₂ : ℕ → ℕ) (i : ℕ) (b b₂ : Backend) where
  -- In cache-aware mode, if a request whose body gives a chain was proxied to a backend, then a
  -- request whose body continues it (both decode, neither names a `user`, and the messages of the
  -- second are those of the first and more) is proxied there too, provided that: both pools are ready,
  -- and the second has the routing state as the first request left it; the retention limit has room
  -- for a record, and all earlier records are from before the first request; none of the hashes that
  -- the second chain adds has a valid pin; the second request comes within the lifetime of pins; the
  -- epoch of the backend is as it was at the first request; and the backend is now healthy, below the
  -- cap and ahead of no healthy backend by more than a fifth of it.
  pub serve_http_stays :
      Continues codec body body'
      → affinity_chain codec body ≡ x ∷ xs
      → IsReady p a
      → IsReady p₂ a'
      → IsIntn intn₂
      → pos 1 ≤ℤ retention_limit a.max_conns
      → AllOlder now a
      → (serve_http codec intn now (complete body) p).1 ≡ proxied i
      → (serve_http codec intn now (complete body) p).0.affinity ≡ some a'
      → At p.backends i b
      → b₂.epoch ≡ b.epoch
      → Admits p₂.max_conns p₂.backends i b₂
      → pos now₂ -ℤ pos now ≤ℤ a'.ttl
      → NoneValid now₂ a'.ttl p₂.backends a'.table
          (reverse (drop (length (x ∷ xs)) (affinity_chain codec body')))
      → (serve_http codec intn₂ now₂ (complete body') p₂).1 ≡ proxied i
  serve_http_stays c chained ready ready₂ random one older chose kept at same_epoch ok recent
        none_deeper =
      let (rest, grown₀) =
        affinity_chain-IsPrefix codec body body' c.req c.req' c.message c.messages c.more
          c.some_body c.some_body' c.decoded c.decoded' c.no_user c.no_user' c.has c.has' in
      let grown : affinity_chain codec body' ≡ (x ∷ xs) ++ rest =
        grown₀ ∙ ap (λ l. l ++ rest) chained in
      let routed =
        serve_http-routed codec intn now body p a ready.enabled
        ∙ ap (λ l. reply_to (select_cache_aware intn now l p)) chained in
      let routed₂ =
        serve_http-routed codec intn₂ now₂ body' p₂ a' ready₂.enabled
        ∙ ap (λ l. reply_to (select_cache_aware intn₂ now₂ l p₂)) grown in
      let deeper =
        subst (λ l. NoneValid now₂ a'.ttl p₂.backends a'.table (reverse l))
          (ap (drop (length (x ∷ xs))) grown ∙ drop-append (x ∷ xs) rest) none_deeper in
      let stays =
        select_cache_aware_stays x xs now p a a' intn i rest now₂ p₂ intn₂ b b₂ ready ready₂ random
          one older
          (reply_inv (select_cache_aware intn now (x ∷ xs) p).1 i
            (sym (ap (λ (r : Pool × Reply). r.1) routed) ∙ chose))
          (sym (ap (λ (r : Pool × Reply). r.0.affinity) routed) ∙ kept) at same_epoch ok recent
          deeper in
      ap (λ (r : Pool × Reply). r.1) routed₂ ∙ ap reply stays

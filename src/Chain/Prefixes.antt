-- ===== src/Chain/Prefixes.antt =====
-- Chains of requests that share a prefix.
use go_load_balance.Prelude.{
  ℕ, zero, suc, ◌≤◌, ◌<◌, ◌≡◌, refl, sym, ap, ap₂, ◌∙◌, List, [], ◌∷◌, ◌++◌, Option, none, some,
  ltb, leb, length, take, arith, append-nil, append_assoc, Bool-cases, inl, inr, length-take,
}
use go_load_balance.Table.{Hash}
use go_load_balance.Chain.Blocks.{split_units-append}
use go_load_balance.Chain.{
  Bytes, Codec, Request, affinity_max_units, split_units, canonical_message, chain_loop,
  chain_units, message_units, content_chain, user_chain, decoded_chain, affinity_chain,
  prompt_units, raw,
}

abbrev pub IsPrefix {ℓ} : {A : Type ℓ} → List A → List A → Type ℓ
IsPrefix {A} xs ys = (rest : List A) × (ys ≡ xs ++ rest)

-- A list that is no longer than what is taken is taken whole.
take_whole : (us : List Bytes) (n : ℕ) → length us ≤ n → take n us ≡ us
take_whole [] zero fits = refl
take_whole [] (suc n) fits = refl
take_whole (u ∷ us) zero fits = absurd (omega arith)
take_whole (u ∷ us) (suc n) fits = rw (take_whole us n (omega arith))

take-IsPrefix {ℓ} : {A : Type ℓ} (n : ℕ) (xs ys : List A) → IsPrefix (take n xs) (take n (xs ++ ys))
take-IsPrefix zero xs ys = ([], refl)
take-IsPrefix (suc n) [] ys = (take (suc n) ys, refl)
take-IsPrefix (suc n) (x ∷ xs) ys = let (rest, e) = take-IsPrefix n xs ys in (rest, ap (◌∷◌ x) e)

module _ (codec : Codec) where
  chain_loop-IsPrefix :
      (before : Option Hash) (us vs : List Bytes)
      → IsPrefix (chain_loop codec before us) (chain_loop codec before (us ++ vs))
  unfolding chain_loop
  chain_loop-IsPrefix before [] vs = (chain_loop codec before vs, refl)
  chain_loop-IsPrefix before (u ∷ us) vs =
      let h = codec.sum (raw before ++ u) in
      let (rest, e) = chain_loop-IsPrefix (some h) us vs in (rest, ap (◌∷◌ h) e)

  length-chain_loop :
      (before : Option Hash) (us : List Bytes) → length (chain_loop codec before us) ≡ length us
  unfolding chain_loop
  length-chain_loop before [] = refl
  length-chain_loop before (u ∷ us) =
      ap suc (length-chain_loop (some (codec.sum (raw before ++ u))) us)

  pub chain_units-take :
      (us : List Bytes) → chain_units codec us ≡ chain_loop codec none (take affinity_max_units us)
  unfolding chain_units chain_loop
  chain_units-take [] = refl
  chain_units-take (u ∷ us) = elim (Bool-cases (ltb affinity_max_units (length (u ∷ us)))) [
    | inl long ↦ rw long
    | inr short ↦
        rw short
          (ap (chain_loop codec none) (sym (take_whole (u ∷ us) affinity_max_units (ground arith))))
  ]

  chain_units-IsPrefix :
      (us vs : List Bytes) → IsPrefix us vs → IsPrefix (chain_units codec us) (chain_units codec vs)
  chain_units-IsPrefix us vs (ext, e) =
      let (more, taken) = take-IsPrefix affinity_max_units us ext in
      let (rest, looped) = chain_loop-IsPrefix none (take affinity_max_units us) more in
      (
        rest,
        chain_units-take vs
            ∙ ap (λ w. chain_loop codec none (take affinity_max_units w)) e
            ∙ ap (chain_loop codec none) taken
            ∙ looped
            ∙ ap (λ c. c ++ rest) (sym (chain_units-take us)),
      )

  message_units-extends :
      (us : List Bytes) (ms : List Bytes) → IsPrefix us (message_units codec us ms)
  unfolding message_units
  message_units-extends us [] = ([], sym (append-nil us))
  message_units-extends us (m ∷ ms) =
      let more = split_units us (canonical_message codec m) in
      let grown = split_units-append us (canonical_message codec m) in
      elim (Bool-cases (leb affinity_max_units (length more))) [
        | inl enough ↦ (split_units [] (canonical_message codec m), rw enough grown)
        | inr few ↦
            let (rest, e) = message_units-extends more ms in
            (
              split_units [] (canonical_message codec m) ++ rest,
              rw few (e ∙ ap (λ w. w ++ rest) grown ∙ append_assoc us _ rest),
            )
      ]

  message_units-IsPrefix :
      (us ms more : List Bytes)
      → IsPrefix (message_units codec us ms) (message_units codec us (ms ++ more))
  unfolding message_units
  message_units-IsPrefix us [] more = message_units-extends us more
  message_units-IsPrefix us (m ∷ ms) more =
      let next = split_units us (canonical_message codec m) in
      elim (Bool-cases (leb affinity_max_units (length next))) [
        | inl enough ↦ ([], rw enough (sym (append-nil next)))
        | inr few ↦ rw few (message_units-IsPrefix next ms more)
      ]

  affinity_chain-messages :
      (body : Bytes) (req : Request) (m : Bytes) (ms : List Bytes)
      → 0 < length body
      → codec.decode_request body ≡ some req
      → req.user ≡ []
      → req.messages ≡ m ∷ ms
      → affinity_chain codec body ≡ chain_units codec (message_units codec [] (m ∷ ms))
  unfolding affinity_chain user_chain content_chain
  affinity_chain-messages [] req m ms nb d u e = absurd (omega arith)
  affinity_chain-messages (c ∷ body) req m ms nb d u e =
      ap (decoded_chain codec) d ∙ ap₂ (λ us texts. user_chain codec us texts req.prompt) u e

  length-chain_units-le : (us : List Bytes) → length (chain_units codec us) ≤ affinity_max_units
  length-chain_units-le us = omega (
    arith,
    ap length (chain_units-take us),
    length-chain_loop none (take affinity_max_units us),
    length-take affinity_max_units us,
  )

  length-user_chain-le :
      (user : Bytes) (messages : List Bytes) (prompt : Option Bytes)
      → length (user_chain codec user messages prompt) ≤ affinity_max_units
  unfolding user_chain content_chain
  length-user_chain-le [] [] prompt = length-chain_units-le (prompt_units prompt)
  length-user_chain-le [] (m ∷ messages) prompt =
      length-chain_units-le (message_units codec [] (m ∷ messages))
  length-user_chain-le (c ∷ user) messages prompt =
      length-chain_units-le (split_units [] (c ∷ user))

  length-decoded_chain-le :
      (o : Option Request) → length (decoded_chain codec o) ≤ affinity_max_units
  unfolding decoded_chain
  length-decoded_chain-le none = omega arith
  length-decoded_chain-le (some req) = length-user_chain-le req.user req.messages req.prompt

  -- A conversation that grows keeps its keys: if two bodies decode, both with no `user`, and the
  -- messages of the first, at least one, are the first messages of the second, then the chain of
  -- the first is the beginning of the chain of the second.
  pub affinity_chain-IsPrefix :
      (body body' : Bytes) (req req' : Request) (m : Bytes) (ms more : List Bytes)
      → 0 < length body
      → 0 < length body'
      → codec.decode_request body ≡ some req
      → codec.decode_request body' ≡ some req'
      → req.user ≡ []
      → req'.user ≡ []
      → req.messages ≡ m ∷ ms
      → req'.messages ≡ m ∷ ms ++ more
      → IsPrefix (affinity_chain codec body) (affinity_chain codec body')
  affinity_chain-IsPrefix body body' req req' m ms more nb nb' d d' u u' e e' =
      let (rest, grown) = chain_units-IsPrefix _ _ (message_units-IsPrefix [] (m ∷ ms) more) in
      (
        rest,
        affinity_chain-messages body' req' m (ms ++ more) nb' d' u' e'
            ∙ grown
            ∙ ap (λ c. c ++ rest) (sym (affinity_chain-messages body req m ms nb d u e)),
      )

  -- The chain is frozen at 500 hashes, whatever the body.
  length-affinity_chain-le :
      (body : Bytes) → length (affinity_chain codec body) ≤ affinity_max_units
  unfolding affinity_chain
  length-affinity_chain-le [] = omega arith
  length-affinity_chain-le (c ∷ body) = length-decoded_chain-le (codec.decode_request (c ∷ body))

-- ===== src/Tests/Chain.antt =====
-- Chains over a toy codec: a body is one message for each byte, and a sum is the length of its
-- input, padded to 16 bytes.
use go_load_balance.Prelude.{
  ℕ, ◌≡◌, ◌⊎◌, refl, List, [], ◌∷◌, ◌++◌, map, none, some, length, get_elem?, take, arith,
}
use go_load_balance.Table.{Hash}
use go_load_balance.Chain.Blocks.{IsSplit, split_units-IsSplit}
use go_load_balance.Chain.Prefixes.{IsPrefix, affinity_chain-IsPrefix}
use go_load_balance.Chain.Collisions.{
  SumsTo16, Collision, chain_units-injective, chain_units_unframed,
}
use go_load_balance.Chain.{
  Bytes, Codec, Request, affinity_block_chars, affinity_max_units, split_units, split_loop,
  chain_units, affinity_chain,
}

abbrev pad : ℕ → Hash
pad n = n ∷ 0 ∷ 0 ∷ 0 ∷ 0 ∷ 0 ∷ 0 ∷ 0 ∷ 0 ∷ 0 ∷ 0 ∷ 0 ∷ 0 ∷ 0 ∷ 0 ∷ 0 ∷ []

abbrev request : Bytes → Request
request body = record { user = []; messages = map (λ c. c ∷ []) body; prompt = none }

abbrev pub toy : Codec
toy = record {
  decode_message = λ text. none;
  decode_request = λ body. some (request body);
  sum = λ bytes. pad (length bytes);
}

toy-SumsTo16 : SumsTo16 toy
toy-SumsTo16 bytes = refl

-- A text of nine bytes, in blocks of four.
split_loop_test :
    split_loop 4 9 [] (1 ∷ 2 ∷ 3 ∷ 4 ∷ 5 ∷ 6 ∷ 7 ∷ 8 ∷ 9 ∷ [])
    ≡ (1 ∷ 2 ∷ 3 ∷ 4 ∷ []) ∷ (5 ∷ 6 ∷ 7 ∷ 8 ∷ []) ∷ (9 ∷ []) ∷ []
unfolding split_loop
split_loop_test = refl

affinity_chain_test : affinity_chain toy (7 ∷ 8 ∷ []) ≡ pad 1 ∷ pad 17 ∷ []
unfolding affinity_chain
affinity_chain_test = refl

split_units-IsSplit_example :
    (cut : List Bytes) × (split_units [] (1 ∷ 2 ∷ []) ≡ [] ++ cut)
    × IsSplit affinity_block_chars (1 ∷ 2 ∷ []) cut
split_units-IsSplit_example = split_units-IsSplit [] (1 ∷ 2 ∷ [])

affinity_chain-IsPrefix_example :
    IsPrefix (affinity_chain toy (7 ∷ 8 ∷ [])) (affinity_chain toy (7 ∷ 8 ∷ 9 ∷ []))
affinity_chain-IsPrefix_example =
    affinity_chain-IsPrefix toy (7 ∷ 8 ∷ []) (7 ∷ 8 ∷ 9 ∷ []) (request (7 ∷ 8 ∷ []))
      (request (7 ∷ 8 ∷ 9 ∷ [])) (7 ∷ []) ((8 ∷ []) ∷ []) ((9 ∷ []) ∷ []) (omega arith)
      (omega arith) refl refl refl refl refl refl

abbrev two_units : List Bytes
two_units = (7 ∷ []) ∷ (8 ∷ []) ∷ []

abbrev three_units : List Bytes
three_units = (7 ∷ []) ∷ (8 ∷ []) ∷ (9 ∷ []) ∷ []

chain_units-injective_example :
    (take 2 (take affinity_max_units two_units) ≡ take 2 (take affinity_max_units three_units))
    ⊎ Collision toy
unfolding chain_units
chain_units-injective_example =
    chain_units-injective toy toy-SumsTo16 two_units three_units 1 (pad 17) refl refl

chain_units_unframed_example :
    get_elem? (chain_units toy two_units) 1 ≡ get_elem? (chain_units toy ((pad 1 ++ 8 ∷ []) ∷ [])) 0
chain_units_unframed_example = chain_units_unframed toy (7 ∷ []) (8 ∷ [])

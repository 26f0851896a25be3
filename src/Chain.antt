-- ===== src/Chain.antt =====
-- The prefix keys of a request (lib/cacheaware.go, from `canonicalMessage` to `affinityChain`).
-- Bytes are numbers. The JSON decoder and FNV-128a are the fields of a `Codec`.
use go_load_balance.Prelude.{
  ℕ, zero, suc, ◌+◌, Bool, true, false, not, ◌&&◌, List, [], ◌∷◌, ◌++◌, Option, none, some, ltb,
  leb, ◌==◌, if◌then◌else◌, length, take, drop,
}
use go_load_balance.Table.{Hash, ◌=?◌, hash_eq}
pub mod Blocks
pub mod Prefixes
pub mod Collisions

abbrev pub affinity_block_chars : ℕ
affinity_block_chars = 8192

abbrev pub affinity_max_units : ℕ
affinity_max_units = 500

abbrev pub Bytes : Type 0
Bytes = List ℕ

-- The fields that `canonicalMessage` decodes; a raw field that is absent is `none`.
pub record Message : Type 0 where
  pub role : Bytes
  pub content : Option Bytes
  pub reasoning : Option Bytes
  pub reasoning_content : Option Bytes
  pub tool_calls : Option Bytes
  pub tool_call_id : Bytes

-- The fields that `affinityChain` decodes.
pub record Request : Type 0 where
  pub user : Bytes
  pub messages : List Bytes
  pub prompt : Option Bytes

-- `json.Unmarshal` into the two structs (`none` is an error), and the sum of FNV-128a over all
-- that was written to it.
pub record Codec : Type 0 where
  pub decode_message : Bytes → Option Message
  pub decode_request : Bytes → Option Request
  pub sum : Bytes → Hash

abbrev pub raw : Option Bytes → Bytes
raw none = []
raw (some bytes) = bytes

abbrev pub or_else : Option Bytes → Option Bytes → Option Bytes
or_else none other = other
or_else (some bytes) other = some bytes

unfoldable pub canonical_fields : Message → Bytes
canonical_fields msg =
    msg.role
    ++ 0x1f ∷ raw (or_else msg.reasoning msg.reasoning_content)
    ++ 0x1f ∷ raw msg.content
    ++ 0x1f ∷ raw msg.tool_calls
    ++ 0x1f ∷ msg.tool_call_id

unfoldable pub canonical_message : Codec → Bytes → Bytes
unfolding canonical_fields
canonical_message codec text = elim (codec.decode_message text) [
  | none ↦ text
  | some msg ↦ canonical_fields msg
]

-- The loop of `splitUnits`; each round takes a block of the text, so its length is enough fuel.
unfoldable pub split_loop : (block fuel : ℕ) → List Bytes → Bytes → List Bytes
split_loop block zero units text = units ++ text ∷ []
split_loop block (suc fuel) units text =
    let rest = split_loop block fuel (units ++ take block text ∷ []) (drop block text) in
    if ltb block (length text) then rest else units ++ text ∷ []

unfoldable pub split_units : List Bytes → Bytes → List Bytes
unfolding split_loop
split_units units text = split_loop affinity_block_chars (length text) units text

-- The loop of `chainUnits`, from the hash before.
unfoldable pub chain_loop : Codec → Option Hash → List Bytes → List Hash
chain_loop codec before [] = []
chain_loop codec before (u ∷ units) =
    let h = codec.sum (raw before ++ u) in h ∷ chain_loop codec (some h) units

unfoldable pub chain_units : Codec → List Bytes → List Hash
unfolding chain_loop
chain_units codec [] = []
chain_units codec (u ∷ units) = chain_loop codec none (
    if ltb affinity_max_units (length (u ∷ units))
    then take affinity_max_units (u ∷ units)
    else u ∷ units)

-- The loop over the messages, which stops once there are enough units.
unfoldable pub message_units : Codec → List Bytes → List Bytes → List Bytes
unfolding split_units canonical_message
message_units codec units [] = units
message_units codec units (m ∷ messages) =
    let more = split_units units (canonical_message codec m) in
    let rest = message_units codec more messages in
    if leb affinity_max_units (length more) then more else rest

abbrev pub null_text : Bytes
null_text = b'n' ∷ b'u' ∷ b'l' ∷ b'l' ∷ []

abbrev pub prompt_units : Option Bytes → List Bytes
prompt_units none = []
prompt_units (some []) = []
prompt_units (some (c ∷ cs)) = if not ((c ∷ cs) =? null_text) then split_units [] (c ∷ cs) else []

unfoldable pub content_chain : Codec → List Bytes → Option Bytes → List Hash
unfolding chain_units split_units message_units
content_chain codec [] prompt = chain_units codec (prompt_units prompt)
content_chain codec (m ∷ messages) prompt =
    chain_units codec (message_units codec [] (m ∷ messages))

unfoldable pub user_chain : Codec → Bytes → List Bytes → Option Bytes → List Hash
unfolding content_chain
user_chain codec [] messages prompt = content_chain codec messages prompt
user_chain codec (c ∷ cs) messages prompt = chain_units codec (split_units [] (c ∷ cs))

unfoldable pub decoded_chain : Codec → Option Request → List Hash
unfolding user_chain
decoded_chain codec none = []
decoded_chain codec (some req) = user_chain codec req.user req.messages req.prompt

-- No chain if the body is empty or does not decode.
unfoldable pub affinity_chain : Codec → Bytes → List Hash
unfolding decoded_chain
affinity_chain codec [] = []
affinity_chain codec (c ∷ body) = decoded_chain codec (codec.decode_request (c ∷ body))

-- ===== src/MockBackend.antt =====
-- cmd/mock-backend/main.go: a backend for tests, which behaves in one of five modes and simulates a
-- prefix cache. JSON decoding is a parameter, and so are float64, the clock and the sleeps: a reply
-- says that the handler slept.
use go_load_balance.Prelude.{
  ℕ, zero, suc, ◌+◌, ◌/◌, ◌^◌, Bool, true, false, ◌&&◌, ◌||◌, not, List, [], ◌∷◌, ◌++◌, String,
  Option, none, some, ◌>>=◌, ℤ, pos, negsuc, ◌+ℤ◌, to_int, ltb, ltb_ℤ, ◌==◌, if◌then◌else◌, length,
  drop, get_elem?,
}
use go_load_balance.Chain.{Bytes, raw, or_else}
use go_load_balance.Cli.Text.{eq_text}
pub mod Matching
pub mod Startup

-- float64, as far as the code uses it.
pub record Floats : Type 1 where
  pub float : Type 0
  pub below : float → float → Bool
  pub zero_float : float
  pub one_float : float
  pub ratio_of : ℤ → ℤ → float  -- the quotient of two int64
  pub scale_int : ℤ → float → ℤ  -- an int times a float, as an int

module _ (fl : Floats) where
  pub record Config : Type 0 where
    pub port : ℤ
    pub mode : String
    pub delay : ℤ
    pub failure_rate : fl.float
    pub response_size : ℤ
    pub health_endpoint : String

pub data FlagError : Type 0 where
  invalid_port invalid_failure_rate : FlagError

-- The fields that `canonicalText` decodes; a raw field that is absent is `none`.
pub record MockMessage : Type 0 where
  pub role : Bytes
  pub content : Option Bytes
  pub reasoning : Option Bytes
  pub reasoning_content : Option Bytes
  pub tool_calls : Option Bytes

pub record MockRequest : Type 0 where
  pub messages : List MockMessage
  pub prompt : Option Bytes

abbrev pub mock_fields : MockMessage → Bytes
mock_fields m =
    m.role
    ++ 0x1f ∷ raw (or_else m.reasoning m.reasoning_content)
    ++ 0x1f ∷ raw m.content
    ++ 0x1f ∷ raw m.tool_calls
    ++ 0x1e ∷ []

abbrev pub all_fields : List MockMessage → Bytes
all_fields [] = []
all_fields (m ∷ ms) = mock_fields m ++ all_fields ms

abbrev pub prompt_text : (body : Bytes) → Bytes → Bytes
prompt_text body [] = body
prompt_text body (b ∷ bs) = b ∷ bs

abbrev pub request_text : (body : Bytes) → MockRequest → List MockMessage → Bytes
request_text body req [] = prompt_text body (raw req.prompt)
request_text body req (m ∷ ms) = all_fields (m ∷ ms)

abbrev pub decoded_text : (body : Bytes) → Option MockRequest → Bytes
decoded_text body none = body
decoded_text body (some req) = request_text body req req.messages

unfoldable pub canonical_text : (decode : Bytes → Option MockRequest) → Bytes → Bytes
canonical_text decode body = decoded_text body (decode body)

unfoldable pub common_prefix_len : Bytes → Bytes → ℕ
common_prefix_len [] ys = 0
common_prefix_len (x ∷ xs) [] = 0
common_prefix_len (x ∷ xs) (y ∷ ys) = if x == y then suc (common_prefix_len xs ys) else 0

pub record PrefixTracker : Type 0 where
  pub texts : List Bytes
  pub requests : ℤ
  pub matched_chars : ℤ
  pub total_chars : ℤ

-- The loop over the stored texts.
unfoldable pub longest_match : List Bytes → (text : Bytes) (matched : ℕ) → ℕ
unfolding common_prefix_len
longest_match [] text matched = matched
longest_match (t ∷ ts) text matched =
    let n = common_prefix_len t text in longest_match ts text (if ltb matched n then n else matched)

abbrev pub keep_recent : List Bytes → List Bytes
keep_recent texts = if ltb 1024 (length texts) then drop 1 texts else texts

-- The tracker after the request, the characters that matched, and all characters.
unfoldable pub observe :
    (decode : Bytes → Option MockRequest) → Bytes → PrefixTracker → PrefixTracker × ℕ × ℕ
unfolding canonical_text longest_match
observe decode body pt =
    let text = canonical_text decode body in
    let matched = longest_match pt.texts text 0 in
    (
      record {
        texts = keep_recent (pt.texts ++ text ∷ []);
        requests = to_int (pt.requests +ℤ pos 1);
        matched_chars = to_int (pt.matched_chars +ℤ pos matched);
        total_chars = to_int (pt.total_chars +ℤ pos (length text));
      },
      matched,
      length text,
    )

abbrev pub code_range : ℕ → ℕ → Bytes
code_range first zero = []
code_range first (suc n) = first ∷ code_range (suc first) n

-- The lower case, the upper case, the digits and the space.
abbrev pub chars : Bytes
chars = code_range 97 26 ++ code_range 65 26 ++ code_range 48 10 ++ 32 ∷ []

abbrev pub put_char : Option ℕ → Option Bytes → Option Bytes
put_char none rest = none
put_char (some c) none = none
put_char (some c) (some rest) = some (c ∷ rest)

-- `intn k` is `rand.Intn` in the round that leaves `k` more; `none` is an index out of range.
unfoldable pub fill : (intn : ℕ → ℕ → ℕ) → ℕ → Option Bytes
fill intn zero = some []
fill intn (suc n) = put_char (get_elem? chars (intn n (length chars))) (fill intn n)

-- `make` panics on a negative size.
unfoldable pub generate_text : (intn : ℕ → ℕ → ℕ) → (size : ℤ) → Option Bytes
unfolding fill
generate_text intn (pos n) = fill intn n
generate_text intn (negsuc n) = none

-- What a handler does: it answers, or sleeps for an hour and returns without an answer.
pub data HealthReply : Type 0 where
  unavailable models timed_out : HealthReply

pub record Completion : Type 0 where
  pub text : Bytes
  pub prompt_tokens : ℕ
  pub completion_tokens : ℕ
  pub total_tokens : ℕ
  pub backend_port : ℤ
  pub prefix_matched_chars : ℕ
  pub prefix_total_chars : ℕ

pub data CompletionReply : Type 0 where
  internal_error asleep aborted : CompletionReply
  completed : Completion → CompletionReply

pub data DefaultReply : Type 0 where
  error_500 no_reply : DefaultReply
  greeting : (port : ℤ) (path method : String) → DefaultReply

abbrev pub complete_with : (port : ℤ) (matched total : ℕ) → Option Bytes → CompletionReply
complete_with port matched total none = aborted
complete_with port matched total (some text) = completed (record {
  text = text;
  prompt_tokens = 10;
  completion_tokens = length text / 4;
  total_tokens = 10 + length text / 4;
  backend_port = port;
  prefix_matched_chars = matched;
  prefix_total_chars = total;
})

-- What a mode comes to for one request.
pub data Behaviour : Type 0 where
  fail sleep go_on : Behaviour

abbrev pub health_reply : Behaviour → HealthReply
health_reply fail = unavailable
health_reply sleep = timed_out
health_reply go_on = models

abbrev pub completion_reply : Behaviour → CompletionReply → CompletionReply
completion_reply fail r = internal_error
completion_reply sleep r = asleep
completion_reply go_on r = r

abbrev pub default_reply : Behaviour → DefaultReply → DefaultReply
default_reply fail r = error_500
default_reply sleep r = no_reply
default_reply go_on r = r

module _ (fl : Floats) where
  -- The first check that fails.
  unfoldable pub check_config : Config fl → Option FlagError
  check_config c =
      if ltb_ℤ c.port (pos 1) || ltb_ℤ (pos 65535) c.port
      then some invalid_port
      else if fl.below c.failure_rate fl.zero_float || fl.below fl.one_float c.failure_rate
      then some invalid_failure_rate
      else none

  abbrev pub behaviour : (draw : fl.float) → Config fl → Behaviour
  behaviour draw c =
      if eq_text c.mode "failing"
      then fail
      else if eq_text c.mode "flaky"
      then (if fl.below draw c.failure_rate then fail else go_on)
      else if eq_text c.mode "timeout"
      then sleep
      else go_on

  unfoldable pub handle_health : (draw : fl.float) → Config fl → HealthReply
  handle_health draw c = health_reply (behaviour draw c)

  -- `factor` is `randomFactor()`. The tracker sees the request whatever the mode.
  unfoldable pub handle_completions :
      (decode : Bytes → Option MockRequest) (intn : ℕ → ℕ → ℕ) (factor draw : fl.float)
      → Config fl
      → Bytes
      → PrefixTracker
      → PrefixTracker × CompletionReply
  unfolding observe generate_text
  handle_completions decode intn factor draw c body pt =
      let (pt', matched, total) = observe decode body pt in
      (
        pt',
        completion_reply (behaviour draw c) (
            complete_with c.port matched total
              (generate_text intn (fl.scale_int c.response_size factor))),
      )

  unfoldable pub handle_default :
      (draw : fl.float) (path method : String) → Config fl → DefaultReply
  handle_default draw path method c = default_reply (behaviour draw c) (greeting c.port path method)

  pub record PrefixStats : Type 0 where
    pub requests : ℤ
    pub matched_chars : ℤ
    pub total_chars : ℤ
    pub ratio : fl.float

  unfoldable pub handle_prefix_stats : PrefixTracker → PrefixStats
  handle_prefix_stats pt = record {
    requests = pt.requests;
    matched_chars = pt.matched_chars;
    total_chars = pt.total_chars;
    ratio =
        if ltb_ℤ (pos 0) pt.total_chars
        then fl.ratio_of pt.matched_chars pt.total_chars
        else fl.zero_float;
  }

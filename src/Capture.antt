-- ===== src/Capture.antt =====
-- lib/reqlog.go, `capBuffer`: what the request log keeps of a stream. The mutex makes a call one step.
use go_load_balance.Prelude.{
  ℕ, ◌+◌, ◌-◌, ◌^◌, Bool, true, List, ◌++◌, [], ◌∷◌, ltb, ◌==◌, if◌then◌else◌, length, take,
}
use go_load_balance.Chain.{Bytes}
pub mod Prefix

abbrev pub req_log_max_capture : ℕ
req_log_max_capture = 2 ^ 30

-- A limit of 0 stands for `req_log_max_capture`.
pub record CapBuffer : Type 0 where
  pub buf : Bytes
  pub truncated : Bool
  pub limit : ℕ

abbrev pub limit_of : CapBuffer → ℕ
limit_of c = if c.limit == 0 then req_log_max_capture else c.limit

-- Returns the number of bytes that it reports as written, which is all of them.
unfoldable pub write : Bytes → CapBuffer → CapBuffer × ℕ
write p c =
    let limit = limit_of c in
    (
      if ltb limit (length c.buf + length p)
          then (if ltb (length c.buf) limit
              then record c { truncated = true; buf = c.buf ++ take (limit - length c.buf) p }
              else record c { truncated = true })
          else record c { buf = c.buf ++ p },
      length p,
    )

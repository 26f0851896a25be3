-- ===== src/Capture/Prefix.antt =====
-- A `capBuffer` holds the beginning of what was written to it (lib/reqlog.go).
use go_load_balance.Prelude.{
  ℕ, zero, suc, ◌+◌, ◌-◌, ◌<◌, ◌≤◌, ◌≡◌, refl, sym, ap, subst, ◌∙◌, false, List, ◌++◌, [], ◌∷◌, ltb,
  ◌==◌, if◌then◌else◌, length, take, arith, length-append, length-take, Bool-cases, inl, inr,
  append-nil, append_assoc, min,
}
use go_load_balance.Chain.{Bytes}
use go_load_balance.Capture.{CapBuffer, req_log_max_capture, limit_of, write}

pub take_all : (n : ℕ) (xs : Bytes) → length xs ≤ n → take n xs ≡ xs
take_all zero [] h = refl
take_all (suc n) [] h = refl
take_all zero (x ∷ xs) h = absurd (omega arith)
take_all (suc n) (x ∷ xs) h = ap (λ ys. x ∷ ys) (take_all n xs (omega arith))

take-append_short :
    (n : ℕ) (xs ys : Bytes) → length xs ≤ n → take n (xs ++ ys) ≡ xs ++ take (n - length xs) ys
take-append_short n [] ys h = ap (λ m. take m ys) (omega arith)
take-append_short zero (x ∷ xs) ys h = absurd (omega arith)
take-append_short (suc n) (x ∷ xs) ys h =
    ap (λ zs. x ∷ zs)
      (take-append_short n xs ys (omega arith) ∙ ap (λ m. xs ++ take m ys) (omega arith))

take-append_long : (n : ℕ) (xs ys : Bytes) → n ≤ length xs → take n (xs ++ ys) ≡ take n xs
take-append_long zero xs ys h = refl
take-append_long (suc n) [] ys h = absurd (omega arith)
take-append_long (suc n) (x ∷ xs) ys h = ap (λ zs. x ∷ zs) (take-append_long n xs ys (omega arith))

nil_of_length : (xs : Bytes) → length xs ≡ 0 → xs ≡ []
nil_of_length [] h = refl
nil_of_length (x ∷ xs) h = absurd (omega arith)

-- The buffer holds the first bytes of the stream up to the limit, and knows whether there are more.
pub record Captured (stream : Bytes) (c : CapBuffer) : Type 0 where
  pub kept : c.buf ≡ take (limit_of c) stream
  pub flag : c.truncated ≡ ltb (limit_of c) (length stream)

module _ (stream p : Bytes) (c : CapBuffer) (cap : Captured stream c) where
  Captured-length : length c.buf ≡ min (limit_of c) (length stream)
  Captured-length = ap length cap.kept ∙ length-take (limit_of c) stream

  -- What fits: the stream was kept whole.
  Captured-whole : length c.buf < limit_of c → c.buf ≡ stream
  Captured-whole room = cap.kept ∙ take_all (limit_of c) stream (omega (arith, Captured-length))

  -- What fits is either empty or comes after a stream that was kept whole.
  buf_fits : length c.buf + length p ≤ limit_of c → c.buf ++ p ≡ take (limit_of c) (stream ++ p)
  buf_fits fits = elim (Bool-cases (ltb (length c.buf) (limit_of c))) [
    | inl room ↦
        let whole = Captured-whole (ground arith) in
        ap (λ xs. xs ++ p) whole
        ∙ sym (
            take_all (limit_of c) (stream ++ p)
              (omega (arith, fits, ap length whole, length-append stream p)))
    | inr full ↦
        let empty = nil_of_length p (ground arith) in
        rw empty (append-nil c.buf ∙ cap.kept ∙ ap (take (limit_of c)) (sym (append-nil stream)))
  ]

  -- What does not fit comes after a stream that was kept whole.
  buf_room :
      length c.buf < limit_of c
      → c.buf ++ take (limit_of c - length c.buf) p ≡ take (limit_of c) (stream ++ p)
  buf_room room =
      let whole = Captured-whole room in
      ap (λ xs. xs ++ take (limit_of c - length xs) p) whole
      ∙ sym (take-append_short (limit_of c) stream p (omega (arith, room, ap length whole)))

  -- Nothing is added to a full buffer.
  buf_full : limit_of c ≤ length c.buf → c.buf ≡ take (limit_of c) (stream ++ p)
  buf_full full =
      cap.kept ∙ sym (take-append_long (limit_of c) stream p (omega (arith, full, Captured-length)))

  write-buf : (write p c).0.buf ≡ take (limit_of c) (stream ++ p)
  unfolding write
  write-buf = elim (Bool-cases (ltb (limit_of c) (length c.buf + length p))) [
    | inl over ↦ elim (Bool-cases (ltb (length c.buf) (limit_of c))) [
      | inl room ↦ let kept = buf_room (ground arith) in rw over (rw room kept)
      | inr full ↦ let kept = buf_full (ground arith) in rw over (rw full kept)
    ]
    | inr fits ↦ let kept = buf_fits (ground arith) in rw fits kept
  ]

  write-truncated : (write p c).0.truncated ≡ ltb (limit_of c) (length (stream ++ p))
  unfolding write
  write-truncated = ground (arith, cap.flag, Captured-length, length-append stream p)

  write-limit_of : limit_of (write p c).0 ≡ limit_of c
  unfolding write
  write-limit_of = ground arith

write-Captured :
    (stream p : Bytes) (c : CapBuffer) → Captured stream c → Captured (stream ++ p) (write p c).0
write-Captured stream p c cap = record {
  kept =
      write-buf stream p c cap
      ∙ ap (λ n. take n (stream ++ p)) (sym (write-limit_of stream p c cap));
  flag =
      write-truncated stream p c cap
      ∙ ap (λ n. ltb n (length (stream ++ p))) (sym (write-limit_of stream p c cap));
}

-- The buffer after the chunks of a stream.
abbrev pub write_all : List Bytes → CapBuffer → CapBuffer
write_all [] c = c
write_all (p ∷ ps) c = write_all ps (write p c).0

abbrev pub joined : List Bytes → Bytes
joined [] = []
joined (p ∷ ps) = p ++ joined ps

write_all-Captured_from :
    (ps : List Bytes) (stream : Bytes) (c : CapBuffer)
    → Captured stream c
    → Captured (stream ++ joined ps) (write_all ps c)
write_all-Captured_from [] stream c cap = subst (λ s. Captured s c) (sym (append-nil stream)) cap
write_all-Captured_from (p ∷ ps) stream c cap =
    subst (λ s. Captured s (write_all ps (write p c).0)) (append_assoc stream p (joined ps))
      (write_all-Captured_from ps (stream ++ p) (write p c).0 (write-Captured stream p c cap))

abbrev pub empty_buffer : ℕ → CapBuffer
empty_buffer limit = record { buf = []; truncated = false; limit = limit }

write-limit : (p : Bytes) (c : CapBuffer) → (write p c).0.limit ≡ c.limit
unfolding write
write-limit p c = ground arith

write_all-limit : (ps : List Bytes) (c : CapBuffer) → (write_all ps c).limit ≡ c.limit
write_all-limit [] c = refl
write_all-limit (p ∷ ps) c = write_all-limit ps (write p c).0 ∙ write-limit p c

empty_buffer-Captured : (limit : ℕ) → Captured [] (empty_buffer limit)
empty_buffer-Captured limit = record {
  kept = sym (take_all (limit_of (empty_buffer limit)) [] (omega arith));
  flag = ground arith;
}

-- However a stream is cut into chunks, the capture of an empty buffer holds the first bytes of the
-- stream up to the limit, and it is flagged as truncated exactly if the stream is longer. A limit
-- of 0 stands for 2 ^ 30 bytes.
pub write_all-kept :
    (ps : List Bytes) (limit : ℕ)
    → ((write_all ps (empty_buffer limit)).buf ≡ take (limit_of (empty_buffer limit)) (joined ps))
      × ((write_all ps (empty_buffer limit)).truncated
          ≡ ltb (limit_of (empty_buffer limit)) (length (joined ps)))
write_all-kept ps limit =
    let c = empty_buffer limit in
    let cap = write_all-Captured_from ps [] c (empty_buffer-Captured limit) in
    let same = write_all-limit ps c in
    (
      cap.kept ∙ ap (λ n. take (if n == 0 then req_log_max_capture else n) (joined ps)) same,
      cap.flag
          ∙ ap (λ n. ltb (if n == 0 then req_log_max_capture else n) (length (joined ps))) same,
    )

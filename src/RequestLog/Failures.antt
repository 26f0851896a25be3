-- ===== src/RequestLog/Failures.antt =====
-- Writing entries to a file that may fail (lib/reqlog.go, `write`).
use go_load_balance.Prelude.{
  ℕ, ◌≡◌, refl, sym, ap, ap₂, take, if◌then◌else◌, ◌∙◌, true, false, List, [], ◌∷◌, ◌++◌, String,
  Result, ok, append-nil, append_assoc,
}
use go_load_balance.Chain.{Bytes}
use go_load_balance.RequestLog.{
  ReqLogEntry, RequestLog, Wrote, complete, broken, write_bytes, write_encoded, LogError,
  write_failed, write_entry,
}

-- One entry after the other, each with what its write did.
abbrev pub write_entries :
    (encode : ReqLogEntry → Result String Bytes)
    → List (Wrote × ReqLogEntry)
    → RequestLog
    → RequestLog × List LogError
write_entries encode [] l = (l, [])
write_entries encode ((wrote, e) ∷ es) l =
    let (l', errors) = write_entry encode wrote e l in
    let (l'', more) = write_entries encode es l' in (l'', errors ++ more)

-- Entries that the file takes whole.
abbrev pub all_complete : List ReqLogEntry → List (Wrote × ReqLogEntry)
all_complete [] = []
all_complete (e ∷ es) = (complete, e) ∷ all_complete es

-- Entries that the file refuses, for whatever reasons.
abbrev pub AllBroken : List (Wrote × ReqLogEntry) → Type 0
AllBroken [] = Unit {0}
AllBroken ((complete, e) ∷ es) = ⊥
AllBroken ((broken n error, e) ∷ es) = AllBroken es

module _ (encode : ReqLogEntry → Result String Bytes) (line : ReqLogEntry → Bytes)
    (encodes : (e : ReqLogEntry) → encode e ≡ ok (line e)) where
  abbrev pub all_lines : List ReqLogEntry → Bytes
  all_lines [] = []
  all_lines (e ∷ es) = line e ++ all_lines es

  write_entry-bytes :
      (wrote : Wrote) (e : ReqLogEntry) (l : RequestLog)
      → write_entry encode wrote e l ≡ write_bytes wrote (line e) l
  unfolding write_entry
  write_entry-bytes wrote e l = ap (λ r. write_encoded wrote r l) (encodes e)

  -- While the file takes what is written, it gains the line of each entry, in order, and nothing is
  -- printed.
  pub write_entries_complete :
      (es : List ReqLogEntry) (l : RequestLog)
      → ((write_entries encode (all_complete es) l).0.file ≡ l.file ++ all_lines es)
        × ((write_entries encode (all_complete es) l).1 ≡ [])
  write_entries_complete [] l = (sym (append-nil l.file), refl)
  write_entries_complete (e ∷ es) l =
      let (file, silent) =
        write_entries_complete es (record l { file = l.file ++ line e; failed = false }) in
      (
        ap (λ r. (write_entries encode (all_complete es) r.0).0.file)
              (write_entry-bytes complete e l)
            ∙ file
            ∙ append_assoc l.file (line e) (all_lines es),
        ap (λ r. r.1 ++ (write_entries encode (all_complete es) r.0).1)
              (write_entry-bytes complete e l)
            ∙ silent,
      )

  write_entries_silent :
      (es : List (Wrote × ReqLogEntry)) (l : RequestLog)
      → l.failed ≡ true
      → AllBroken es
      → ((write_entries encode es l).1 ≡ []) × ((write_entries encode es l).0.failed ≡ true)
  write_entries_silent [] l failed all = (refl, failed)
  write_entries_silent ((complete, e) ∷ es) l failed all = elim all [ ]
  write_entries_silent ((broken n error, e) ∷ es) l failed all =
      let (silent, still) =
        write_entries_silent es (record l { file = l.file ++ take n (line e); failed = true }) refl
          all in
      rw (write_entry-bytes (broken n error) e l) (rw failed (silent, still))

  -- A run of failed writes is reported once, with the error of the first of them, however long it
  -- is; the next entry that the file takes ends it, so that the next failure is reported again.
  pub write_entries_reports_once :
      (n : ℕ) (error : String) (e : ReqLogEntry) (es : List (Wrote × ReqLogEntry)) (l : RequestLog)
      → l.failed ≡ false
      → AllBroken es
      → ((write_entries encode ((broken n error, e) ∷ es) l).1 ≡ write_failed error ∷ [])
        × ((write_entries encode ((broken n error, e) ∷ es) l).0.failed ≡ true)
        × ((d : ReqLogEntry) (l' : RequestLog)
            → ((write_entry encode complete d l').0.failed ≡ false)
              × ((write_entry encode complete d l').1 ≡ []))
  write_entries_reports_once n error e es l working all =
      let (silent, still) =
        write_entries_silent es (record l { file = l.file ++ take n (line e); failed = true }) refl
          all in
      (
        ap (λ r. r.1 ++ (write_entries encode es r.0).1) (write_entry-bytes (broken n error) e l)
            ∙ ap₂ ◌++◌ (ap (λ b. if b then [] else write_failed error ∷ []) working) silent,
        ap (λ r. (write_entries encode es r.0).0.failed) (write_entry-bytes (broken n error) e l)
            ∙ still,
        λ d l'. rw (write_entry-bytes complete d l') (refl, refl),
      )

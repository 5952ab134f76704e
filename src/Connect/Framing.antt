-- ===== src/Connect/Framing.antt =====
-- How `read_connect_request` of src/proxy_runtime/rama/connect.rs depends on its stream.
use mathlib.Core.List.{append_assoc, append-nil}
use baffle.Io.Slices.{take-append, drop-append}
use baffle.Prelude.{
  ℕ, zero, suc, ◌+◌, ◌-◌, ◌<◌, ◌≤◌, ◌≡◌, refl, sym, inl, inr, false, Option, none, some, ◌++◌, [],
  ◌∷◌, Result, ok, err, Bool-cases, Option-cases, arith, ◌==◌, ◌>>=◌, List, Result-cases,
}
use baffle.Prelude.Text.{Bytes, length, length-append, is_ascii}
use baffle.Io.{IoError, Reader, Serves, min, take, drop}
use baffle.Connect.Head.{
  early_eof, position, header_end, ParsedConnect, parse_lines, parse_head, split_lines,
  request_authority, split_ascii_whitespace, read_headers, no_headers,
}
use baffle.Connect.Position.{header_end-append, header_end-length, header_end-none}
use baffle.Connect.Receive.{receive, split_received, read_connect_request, finish}

-- What a whole text decides: where its head ends, that it is too large, or that it has no end.
unfoldable pub head_of : Bytes → Result IoError ℕ
head_of text = elim (header_end text) [ none ↦ err early_eof | some decided ↦ decided ]

remaining_lem : (n : ℕ) → n < 16384 → (16384 + 4096 - n == 0) ≡ false
remaining_lem n h = ground arith

module _ (reader : Reader) (serves : Serves reader) where
  open reader use {State}
  open serves use {unread, serve}

  -- What the loop gives is what the text decides, and no byte is lost.
  Receives : Bytes → Option (Result IoError (Bytes × ℕ × State)) → Type 0
  Receives text none = ⊥
  Receives text (some (err e)) = head_of text ≡ err e
  Receives text (some (ok (received, end, s))) =
      (head_of text ≡ ok end) × (text ≡ received ++ unread s) × (end ≤ length received)

  -- One round in which the stream gives a chunk.
  after_read : ℕ → Bytes → Bytes → State → Option (Result IoError (Bytes × ℕ × State))
  after_read rounds received [] s' = some (err early_eof)
  after_read rounds received (c ∷ chunk) s' = elim (header_end (received ++ (c ∷ chunk))) [
    | none ↦ receive reader rounds (received ++ (c ∷ chunk)) s'
    | some (err e) ↦ some (err e)
    | some (ok end) ↦ some (ok (received ++ (c ∷ chunk), end, s'))
  ]

  receive_step :
      (rounds : ℕ) (received : Bytes) (s : State) (chunk : Bytes) (s' : State)
      → length received < 16384
      → Reader.read reader s (min (16384 + 4096 - length received) 4096) ≡ ok (chunk, s')
      → receive reader (suc rounds) received s ≡ after_read rounds received chunk s'
  unfolding receive after_read
  receive_step rounds received s [] s' short done =
      rw (receive, remaining_lem (length received) short, done) refl
  receive_step rounds received s (c ∷ chunk) s' short done =
      rw (receive, remaining_lem (length received) short, done) refl

  head_of_lem :
      (xs ys : Bytes) (r : Result IoError ℕ) → header_end xs ≡ some r → head_of (xs ++ ys) ≡ r
  unfolding head_of
  head_of_lem xs ys r h = rw (head_of, header_end-append xs ys r h) refl

  decided_lem :
      (rounds : ℕ) (all : Bytes) (s' : State)
      → (header_end all ≡ none → Receives (all ++ unread s') (receive reader rounds all s'))
      → Receives (all ++ unread s') (elim (header_end all) [
        | none ↦ receive reader rounds all s'
        | some (err e) ↦ some (err e)
        | some (ok end) ↦ some (ok (all, end, s'))
      ])
  unfolding Receives
  decided_lem rounds all s' later = elim (Option-cases (header_end all)) [
    | inl undecided ↦ rw undecided (later undecided)
    | inr (err e, failed) ↦ rw failed (head_of_lem all (unread s') (err e) failed)
    | inr (ok end, found) ↦
        rw found (head_of_lem all (unread s') (ok end) found, refl, header_end-length all end found)
  ]

  after_read-Receives :
      (rounds : ℕ) (received : Bytes) (s : State) (chunk : Bytes) (s' : State)
      → header_end received ≡ none
      → unread s ≡ chunk ++ unread s'
      → (chunk ≡ [] → unread s ≡ [])
      → (0 < length chunk
          → header_end (received ++ chunk) ≡ none
          → Receives
              ((received ++ chunk) ++ unread s')
              (receive reader rounds (received ++ chunk) s'))
      → Receives (received ++ unread s) (after_read rounds received chunk s')
  unfolding Receives after_read head_of
  after_read-Receives rounds received s [] s' h gives ended later =
      rw (ended refl, append-nil received) (rw (head_of, h) refl)
  after_read-Receives rounds received s (c ∷ chunk) s' h gives ended later =
      rw (gives, sym (append_assoc received (c ∷ chunk) (unread s')))
        (decided_lem rounds (received ++ (c ∷ chunk)) s' (later (omega arith)))

  receive-Receives :
      (rounds : ℕ) (received : Bytes) (s : State)
      → header_end received ≡ none
      → 16384 < rounds + length received
      → Receives (received ++ unread s) (receive reader rounds received s)
  receive-Receives zero received s h fuel = absurd (omega (arith, header_end-none received h))
  receive-Receives (suc rounds) received s h fuel =
      let short : length received < 16384 = header_end-none received h in
      let room : ℕ = min (16384 + 4096 - length received) 4096 in
      let (chunk, s', done, gives, fits, ended) = serve s room (ground arith) in
      rw (receive_step rounds received s chunk s' short done) (
        after_read-Receives rounds received s chunk s' h gives ended λ fresh undecided.
          receive-Receives rounds (received ++ chunk) s' undecided
            (omega (arith, fuel, fresh, length-append {0} received chunk)))

-- The request that a whole text holds, with all that follows its head.
unfoldable pub connect_of : Bytes → Result IoError ParsedConnect
connect_of text = head_of text >>= λ end. parse_head (take end text) (drop end text)

abbrev extend : Bytes → ParsedConnect → ParsedConnect
extend rest parsed = record parsed { read_ahead = parsed.read_ahead ++ rest }

abbrev extended : Bytes → Result IoError ParsedConnect → Result IoError ParsedConnect
extended rest (err e) = err e
extended rest (ok parsed) = ok (extend rest parsed)

parse_lines-extend :
    (lines : List Bytes) (ahead rest : Bytes)
    → parse_lines lines (ahead ++ rest) ≡ extended rest (parse_lines lines ahead)
unfolding parse_lines
parse_lines-extend [] ahead rest = refl
parse_lines-extend (line ∷ lines) ahead rest =
    elim (Result-cases (request_authority (split_ascii_whitespace line))) [
      | inr (e, failed) ↦ rw failed refl
      | inl (authority, done) ↦ elim (Result-cases (read_headers no_headers lines)) [
        | inr (e, failed) ↦ rw (done, failed) refl
        | inl (headers, read) ↦ rw (done, read) refl
      ]
    ]

parse_head-extend :
    (head ahead rest : Bytes)
    → parse_head head (ahead ++ rest) ≡ extended rest (parse_head head ahead)
unfolding parse_head
parse_head-extend head ahead rest = elim (Bool-cases (is_ascii head)) [
  | inr foreign ↦ rw foreign refl
  | inl ascii ↦ rw ascii (parse_lines-extend (split_lines (take (length head - 4) head)) ahead rest)
]

module _ (reader : Reader) (serves : Serves reader) where
  open reader use {State}
  open serves use {unread, serve}

  -- A result, with all that its stream still gives.
  abbrev pub with_unread : Result IoError (ParsedConnect × State) → Result IoError ParsedConnect
  with_unread (err e) = err e
  with_unread (ok (parsed, s)) = ok (extend (unread s) parsed)

  opened_lem :
      (s : State) (r : Result IoError ParsedConnect)
      → with_unread (elim r [ err e ↦ err e | ok parsed ↦ ok (parsed, s) ]) ≡ extended (unread s) r
  opened_lem s (err e) = refl
  opened_lem s (ok parsed) = refl

  split_received_lem :
      (text : Bytes) (outcome : Result IoError (Bytes × ℕ × State))
      → Receives reader serves text (some outcome)
      → with_unread (split_received reader outcome) ≡ connect_of text
  unfolding split_received connect_of Receives
  split_received_lem text (err e) h = rw h refl
  split_received_lem text (ok (received, end, s)) (found, whole, within) =
      let same : parse_head (take end text) (drop end text)
          ≡ extended (unread s) (parse_head (take end received) (drop end received)) =
        rw
          (
            whole,
            take-append end received (unread s) within,
            drop-append end received (unread s) within,
          )
          (parse_head-extend (take end received) (drop end received) (unread s)) in
      rw (found, same) (opened_lem s (parse_head (take end received) (drop end received)))

  finished_lem :
      (text : Bytes) (received : Option (Result IoError (Bytes × ℕ × State)))
      → Receives reader serves text received
      → (outcome : Result IoError (ParsedConnect × State)) × (finish reader received ≡ some outcome)
        × (with_unread outcome ≡ connect_of text)
  unfolding Receives
  finished_lem text none h = absurd h
  finished_lem text (some received) h =
      (split_received reader received, refl, split_received_lem text received h)

  -- Reading a CONNECT request ends, and what it gives, together with what it leaves in the stream,
  -- depends on the bytes of the stream alone and not on how its reads divide them: it is the request
  -- that the whole text holds, and no byte is lost.
  pub read_connect_request_lem :
      (s : State)
      → (outcome : Result IoError (ParsedConnect × State)) × (read_connect_request reader s
          ≡ some outcome)
        × (with_unread outcome ≡ connect_of (unread s))
  unfolding read_connect_request header_end position
  read_connect_request_lem s =
      finished_lem (unread s) (receive reader 16385 [] s)
        (receive-Receives reader serves 16385 [] s refl (omega arith))

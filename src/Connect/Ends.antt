-- ===== src/Connect/Ends.antt =====
-- That `read_connect_request` ends on every stream, one that fails included, and how much it holds.
use baffle.Prelude.{
  ℕ, zero, suc, ◌+◌, ◌-◌, ◌≤◌, ◌<◌, ◌≡◌, inl, inr, refl, sym, ap, true, false, not, Option, none,
  some, List, [], ◌∷◌, ◌++◌, Result, ok, err, Option-cases, Result-cases, bind-eq-ok, fail_if-eq-ok,
  ok-injective, arith, ◌==◌,
}
use baffle.Connect.Receive.{receive, split_received, read_connect_request, finish}
use baffle.Connect.Position.{header_end-length, header_end-none}
use baffle.Io.Slices.{length-drop}
use baffle.Io.{Reader, IsBounded, IoError, min, drop, take}
use baffle.Connect.Head.{
  parse_head, header_end, parse_lines, ParsedConnect, position, request_authority,
  split_ascii_whitespace, split_lines, read_headers, no_headers, early_eof,
}
use baffle.Prelude.Text.{Bytes, length, is_empty, is_ascii, length-append}

header_end-bound : (xs : Bytes) (end : ℕ) → header_end xs ≡ some (ok end) → end ≤ 16384
unfolding header_end
header_end-bound xs end h = elim (Option-cases (position xs)) [
  | inl missing ↦ absurd (ground arith)
  | inr (n, found) ↦ ground arith
]

parse_lines-read_ahead :
    (lines : List Bytes) (ahead : Bytes) (parsed : ParsedConnect)
    → parse_lines lines ahead ≡ ok parsed
    → parsed.read_ahead ≡ ahead
unfolding parse_lines
parse_lines-read_ahead [] ahead parsed e = absurd (ground arith)
parse_lines-read_ahead (line ∷ lines) ahead parsed e =
    let (authority, ea, e1) = bind-eq-ok (request_authority (split_ascii_whitespace line)) _ e in
    let (headers, eh, e2) = bind-eq-ok (read_headers no_headers lines) _ e1 in
    sym (ap ParsedConnect.read_ahead (ok-injective e2))

parse_head-read_ahead :
    (head ahead : Bytes) (parsed : ParsedConnect)
    → parse_head head ahead ≡ ok parsed
    → parsed.read_ahead ≡ ahead
unfolding parse_head
parse_head-read_ahead head ahead parsed e =
    let (ascii, e1) = fail_if-eq-ok (not (is_ascii head)) _ _ e in
    parse_lines-read_ahead (split_lines (take (length head - 4) head)) ahead parsed e1

module _ (reader : Reader) (fits : IsBounded reader) where
  open reader use {State, read}

  Ended : Option (Result IoError (Bytes × ℕ × State)) → Type 0
  Ended none = ⊥
  Ended (some (err e)) = Unit {0}
  Ended (some (ok (received, end, s))) = (end ≤ length received) × (length received < 20480)

  room_of : (n : ℕ) → n < 16384 → n + min (16384 + 4096 - n) 4096 < 20480
  room_of n h = ground arith

  remaining : (n : ℕ) → n < 16384 → (16384 + 4096 - n == 0) ≡ false
  remaining n h = ground arith

  decided-Ended :
      (rounds : ℕ) (all : Bytes) (s : State)
      → length all < 20480
      → (header_end all ≡ none → Ended (receive reader rounds all s))
      → Ended (elim (header_end all) [
        | none ↦ receive reader rounds all s
        | some (err e) ↦ some (err e)
        | some (ok end) ↦ some (ok (all, end, s))
      ])
  unfolding Ended
  decided-Ended rounds all s short later = elim (Option-cases (header_end all)) [
    | inl undecided ↦ rw undecided (later undecided)
    | inr (err e, failed) ↦ rw failed tt
    | inr (ok end, found) ↦ rw found (header_end-length all end found, short)
  ]

  read-Ended :
      (rounds : ℕ) (received chunk : Bytes) (s : State)
      → length (received ++ chunk) < 20480
      → (0 < length chunk
          → header_end (received ++ chunk) ≡ none
          → Ended (receive reader rounds (received ++ chunk) s))
      → Ended (elim (is_empty chunk) [
        | true ↦ some (err early_eof)
        | false ↦ elim (header_end (received ++ chunk)) [
          | none ↦ receive reader rounds (received ++ chunk) s
          | some (err e) ↦ some (err e)
          | some (ok end) ↦ some (ok (received ++ chunk, end, s))
        ]
      ])
  unfolding Ended
  read-Ended rounds received [] s short later = tt
  read-Ended rounds received (c ∷ chunk) s short later =
      decided-Ended rounds (received ++ (c ∷ chunk)) s short (later (omega arith))

  receive-Ended :
      (rounds : ℕ) (received : Bytes) (s : State)
      → header_end received ≡ none
      → 16384 < rounds + length received
      → Ended (receive reader rounds received s)
  unfolding receive Ended
  receive-Ended zero received s h fuel = absurd (omega (arith, header_end-none received h))
  receive-Ended (suc rounds) received s h fuel =
      let short : length received < 16384 = header_end-none received h in
      let room : ℕ = min (16384 + 4096 - length received) 4096 in
      elim (Result-cases (read s room)) [
        | inr (e, failed) ↦ rw (receive, remaining (length received) short, failed) tt
        | inl ((chunk, s'), done) ↦
            let small : length (received ++ chunk) < 20480 = omega (
              arith,
              room_of (length received) short,
              fits s room chunk s' done,
              length-append {0} received chunk,
            ) in
            rw (receive, remaining (length received) short, done)
              (read-Ended rounds received chunk s' small λ fresh undecided.
                receive-Ended rounds (received ++ chunk) s' undecided
                  (omega (arith, fuel, fresh, length-append {0} received chunk)))
      ]

  -- What was read beyond the head is bounded.
  unfoldable pub Holds : Result IoError (ParsedConnect × State) → Type 0
  Holds (err e) = Unit {0}
  Holds (ok (parsed, s)) = length parsed.read_ahead < 20480

  opened-Holds :
      (head ahead : Bytes) (s : State) (r : Result IoError ParsedConnect)
      → length ahead < 20480
      → parse_head head ahead ≡ r
      → Holds (elim r [ err e ↦ err e | ok parsed ↦ ok (parsed, s) ])
  unfolding Holds
  opened-Holds head ahead s (err e) small h = tt
  opened-Holds head ahead s (ok parsed) small h =
      rw (parse_head-read_ahead head ahead parsed h) small

  finish-Holds :
      (received : Option (Result IoError (Bytes × ℕ × State)))
      → Ended received
      → (outcome : Result IoError (ParsedConnect × State)) × (finish reader received ≡ some outcome)
        × Holds outcome
  unfolding Ended split_received Holds
  finish-Holds none h = absurd h
  finish-Holds (some (err e)) h = (err e, refl, tt)
  finish-Holds (some (ok (received, end, s))) (within, small) =
      let ahead : Bytes = drop end received in
      let fewer : length ahead < 20480 = omega (arith, small, length-drop end received within) in
      (
        split_received reader (ok (received, end, s)),
        refl,
        opened-Holds (take end received) ahead s (parse_head (take end received) ahead) fewer refl,
      )

  -- On every stream whose reads keep to their buffers, one that fails or never ends included,
  -- reading a CONNECT request ends, and at most 20479 bytes are held that were read beyond the head.
  pub read_connect_request-Holds :
      (s : State)
      → (outcome : Result IoError (ParsedConnect × State)) × (read_connect_request reader s
          ≡ some outcome)
        × Holds outcome
  unfolding read_connect_request header_end position
  read_connect_request-Holds s =
      finish-Holds (receive reader 16385 [] s) (receive-Ended 16385 [] s refl (omega arith))

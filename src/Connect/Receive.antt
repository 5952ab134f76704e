-- ===== src/Connect/Receive.antt =====
-- `read_connect_request`, the loop that reads a CONNECT head from a stream.
use baffle.Prelude.{
  ℕ, zero, suc, ◌+◌, ◌-◌, true, false, Option, none, some, ◌++◌, ◌==◌, [], Result, ok, err,
}
use baffle.Prelude.Text.{Bytes, is_empty, length}
use baffle.Io.{IoError, Reader, take, drop, min}
use baffle.Connect.Head.{ParsedConnect, too_large, early_eof, header_end, parse_head}

module _ (reader : Reader) where
  open reader use {State, read}

  -- The bytes received up to the read that completes the head, where the head ends, and the stream
  -- then. Nothing, if the rounds run out.
  unfoldable pub receive : ℕ → Bytes → State → Option (Result IoError (Bytes × ℕ × State))
  receive zero received s = none
  receive (suc rounds) received s =
      let remaining = 16384 + 4096 - length received in
      elim (remaining == 0) [
        | true ↦ some (err too_large)
        | false ↦ elim (read s (min remaining 4096)) [
          | err e ↦ some (err e)
          | ok (chunk, s') ↦ elim (is_empty chunk) [
            | true ↦ some (err early_eof)
            | false ↦ elim (header_end (received ++ chunk)) [
              | none ↦ receive rounds (received ++ chunk) s'
              | some (err e) ↦ some (err e)
              | some (ok end) ↦ some (ok (received ++ chunk, end, s'))
            ]
          ]
        ]
      ]

  unfoldable pub split_received :
      Result IoError (Bytes × ℕ × State) → Result IoError (ParsedConnect × State)
  split_received (err e) = err e
  split_received (ok (received, end, s)) =
      elim (parse_head (take end received) (drop end received)) [
        | err e ↦ err e
        | ok parsed ↦ ok (parsed, s)
      ]

  abbrev pub finish :
      Option (Result IoError (Bytes × ℕ × State)) → Option (Result IoError (ParsedConnect × State))
  finish none = none
  finish (some outcome) = some (split_received outcome)

  -- Each round receives a byte at least, and the round that holds 16384 bytes is the last.
  unfoldable pub read_connect_request : State → Option (Result IoError (ParsedConnect × State))
  read_connect_request s = finish (receive 16385 [] s)

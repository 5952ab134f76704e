-- ===== src/Connect/Tunnel.antt =====
-- `copy_until_eof`, one direction of a tunnel.
use baffle.Prelude.{ℕ, zero, suc, ◌+◌, true, false, Option, none, some, Result, ok, err}
use baffle.Prelude.Text.{is_empty, length}
use baffle.Io.{IoError, Reader, Writer, min}

module _ (reader : Reader) (writer : Writer) where
  -- The count of copied bytes saturates at 2^64 - 1. Nothing, if the rounds run out.
  unfoldable pub copy_until_eof :
      ℕ
      → ℕ
      → Reader.State reader
      → Writer.State writer
      → Option (Result IoError (ℕ × Writer.State writer))
  copy_until_eof zero copied r w = none
  copy_until_eof (suc rounds) copied r w = elim (Reader.read reader r 8192) [
    | err e ↦ some (err e)
    | ok (chunk, r') ↦ elim (is_empty chunk) [
      | true ↦ elim (Writer.shutdown writer w) [
        | err e ↦ some (err e)
        | ok w' ↦ some (ok (copied, w'))
      ]
      | false ↦ elim (Writer.write_all writer w chunk) [
        | err e ↦ some (err e)
        | ok w' ↦ copy_until_eof rounds (min (copied + length chunk) 18446744073709551615) r' w'
      ]
    ]
  ]

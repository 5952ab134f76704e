-- ===== src/Connect/Buffered.antt =====
-- `BufferedConnectIo`: a stream with the bytes that were read ahead of it put back in front.
use baffle.Prelude.{ℕ, ◌+◌, true, false, ltb, Result, ok, err}
use baffle.Prelude.Text.{Bytes, length}
use baffle.Io.{IoError, Reader, take, drop, min}

module _ (reader : Reader) where
  open reader use {State, read}

  pub record BufferedConnectIo : Type 0 where
    pub inner : State
    pub read_ahead : Bytes
    pub read_ahead_offset : ℕ

  unfoldable pub new : State → Bytes → BufferedConnectIo
  new inner read_ahead = record { inner = inner; read_ahead = read_ahead; read_ahead_offset = 0 }

  abbrev with_inner :
      BufferedConnectIo
      → Result IoError (Bytes × State)
      → Result IoError (Bytes × BufferedConnectIo)
  with_inner this (err e) = err e
  with_inner this (ok (chunk, s)) = ok (chunk, record this { inner = s })

  unfoldable pub poll_read : BufferedConnectIo → ℕ → Result IoError (Bytes × BufferedConnectIo)
  poll_read this room = elim (ltb this.read_ahead_offset (length this.read_ahead)) [
    | true ↦
        let remaining = drop this.read_ahead_offset this.read_ahead in
        let read = min (length remaining) room in
        ok (take read remaining, record this { read_ahead_offset = this.read_ahead_offset + read })
    | false ↦ with_inner this (read this.inner room)
  ]

  -- The stream that it is to its readers.
  abbrev pub buffered : Reader
  buffered = record { State = BufferedConnectIo; read = poll_read }

-- ===== src/Io.antt =====
-- Byte streams, as tokio's `AsyncRead` and `AsyncWrite` give them to src/proxy_runtime/rama/
-- connect.rs and src/control/server.rs. A stream is a parameter: its state and the result of one
-- call.
pub mod Slices
use baffle.Prelude.{zero, ℕ, suc, ◌≡◌, ◌++◌, leb, if◌then◌else◌, Result, ok, [], ◌∷◌, ◌<◌, ◌≤◌}
use baffle.Prelude.Text.{Bytes, length}

pub data ErrorKind : Type 0 where
  invalid_data unexpected_eof permission_denied not_found : ErrorKind
  os : ℕ → ErrorKind

pub record IoError : Type 0 where
  pub kind : ErrorKind
  pub message : Bytes

-- `read` with a buffer of so many bytes gives what it put there, `[]` at the end of the stream.
pub record Reader : Type 1 where
  pub State : Type 0
  pub read : State → ℕ → Result IoError (Bytes × State)

pub record Writer : Type 1 where
  pub State : Type 0
  pub write_all : State → Bytes → Result IoError State
  pub shutdown : State → Result IoError State

-- `slice[..n]` and `slice[n..]`, for an `n` that is not beyond the end.
unfoldable pub take : ℕ → Bytes → Bytes
take zero text = []
take (suc n) [] = []
take (suc n) (c ∷ text) = c ∷ take n text

unfoldable pub drop : ℕ → Bytes → Bytes
drop zero text = text
drop (suc n) [] = []
drop (suc n) (c ∷ text) = drop n text

abbrev pub min : ℕ → ℕ → ℕ
min a b = if leb a b then a else b

-- A read puts no more into a buffer than it holds.
abbrev pub IsBounded : Reader → Type 0
IsBounded reader =
    (s : Reader.State reader) (room : ℕ) (chunk : Bytes) (s' : Reader.State reader)
    → Reader.read reader s room ≡ ok (chunk, s')
    → length chunk ≤ room

-- The documented behaviour of a stream that does not fail: the reads give the bytes still unread in
-- order, never more than the buffer holds, and none only at the end.
pub record Serves (reader : Reader) : Type 0 where
  pub unread : Reader.State reader → Bytes
  pub serve :
      (s : Reader.State reader) (room : ℕ)
      → 0 < room
      → (chunk : Bytes) × (s' : Reader.State reader) × (Reader.read reader s room ≡ ok (chunk, s'))
        × (unread s ≡ chunk ++ unread s')
        × (length chunk ≤ room)
        × (chunk ≡ [] → unread s ≡ [])

-- The documented behaviour of a stream that takes every write.
pub record Accepts (writer : Writer) : Type 0 where
  pub received : Writer.State writer → Bytes
  pub accept :
      (s : Writer.State writer) (text : Bytes)
      → (s' : Writer.State writer) × (Writer.write_all writer s text ≡ ok s')
        × (received s' ≡ received s ++ text)
  pub close :
      (s : Writer.State writer)
      → (s' : Writer.State writer) × (Writer.shutdown writer s ≡ ok s') × (received s' ≡ received s)

-- ===== src/Control/Frame.antt =====
-- src/control/server.rs: the frames of control messages, a length of four bytes, big-endian, and a
-- body.
use baffle.Prelude.{
  ◌≡◌, refl, ◌≤◌, ◌<◌, arith, [], true, ◌++◌, ℕ, ◌+◌, ◌≤◌, ◌<◌, ◌≡◌, refl, true, false, Option,
  none, some, [], ◌∷◌, ◌++◌, Result, ok, err, ◌>>=◌, ◌>>◌, fail_if, arith, ltb, ◌==◌, if◌then◌else◌,
  ◌||◌,
}
use Prim.Native.Nat.{◌*◌, ◌/◌, ◌%◌}
use baffle.Prelude.Text.{Bytes, length, is_empty}
use baffle.Io.{IoError}
use baffle.Connect.Network.{Timed, elapsed, within}

abbrev pub max_request_bytes : ℕ
max_request_bytes = 262144

-- The errors of a request, by their codes.
pub data RequestError : Type 0 where
  unauthorized invalid_request unsupported_version frame_too_large : RequestError
  truncated_frame read_timeout busy session_limit session_not_found : RequestError
  secret_unavailable internal shutting_down operation_not_allowed : RequestError
  ephemeral_required : RequestError

-- A stream with a timeout for each read: `read` into a buffer of so many bytes, and `read_exact`.
pub record TimedReader : Type 1 where
  pub State : Type 0
  pub read : State → ℕ → Timed (Result IoError (Bytes × State))
  pub read_exact : State → ℕ → Timed (Result IoError (Bytes × State))

-- The documented behaviour of a stream that is not late and does not fail before its end.
pub record Prompt (reader : TimedReader) : Type 0 where
  pub unread : TimedReader.State reader → Bytes
  pub read_one :
      (s : TimedReader.State reader) (c : ℕ) (rest : Bytes)
      → unread s ≡ c ∷ rest
      → (s' : TimedReader.State reader) × (TimedReader.read reader s 1 ≡ within (ok (c ∷ [], s')))
        × (unread s' ≡ rest)
  pub read_whole :
      (s : TimedReader.State reader) (text rest : Bytes)
      → unread s ≡ text ++ rest
      → (s' : TimedReader.State reader) × (TimedReader.read_exact reader s (length text)
          ≡ within (ok (text, s')))
        × (unread s' ≡ rest)

-- `u32::from_be_bytes` and `u32::to_be_bytes`.
unfoldable pub from_be_bytes : Bytes → ℕ
from_be_bytes (a ∷ b ∷ c ∷ d ∷ []) = a * 16777216 + b * 65536 + c * 256 + d
from_be_bytes _ = 0

unfoldable pub to_be_bytes : ℕ → Bytes
to_be_bytes n = n / 16777216 % 256 ∷ n / 65536 % 256 ∷ n / 256 % 256 ∷ n % 256 ∷ []

module _ (reader : TimedReader) where
  open reader use {State, read, read_exact}

  unfoldable pub read_exact_timed : State → ℕ → Result RequestError (Bytes × State)
  read_exact_timed s room = elim (read_exact s room) [
    | elapsed ↦ err read_timeout
    | within (err e) ↦ err truncated_frame
    | within (ok filled) ↦ ok filled
  ]

  unfoldable pub read_body : Bytes → State → Result RequestError (Option Bytes × State)
  read_body first s = do
    (others, s) ← read_exact_timed s 3
    let frame_length = from_be_bytes (first ++ others)
    fail_if (ltb max_request_bytes frame_length) frame_too_large
    fail_if (frame_length == 0) invalid_request
    (body, s) ← read_exact_timed s frame_length
    ok (some body, s)

  -- No frame, if the client closes before its first byte.
  unfoldable pub read_request_frame : State → Result RequestError (Option Bytes × State)
  read_request_frame s = elim (read s 1) [
    | elapsed ↦ err read_timeout
    | within (err e) ↦ err truncated_frame
    | within (ok (first, s)) ↦ elim (is_empty first) [
      | true ↦ ok (none, s)
      | false ↦ read_body first s
    ]
  ]

-- The bytes that `write_value` writes for a serialized message, unless its length is no `u32`.
unfoldable pub frame_of : Bytes → Option Bytes
frame_of body =
    if ltb (length body) 4294967296 then some (to_be_bytes (length body) ++ body) else none

-- The client's side (crates/baffle-client/src/lib.rs): the frame that it sends for a serialized
-- request, unless the request is empty or too long.
unfoldable pub request_frame : Bytes → Option Bytes
request_frame body =
    if is_empty body || ltb max_request_bytes (length body) then none else frame_of body

from_be_bytes-to_be_bytes : (n : ℕ) → n < 4294967296 → from_be_bytes (to_be_bytes n) ≡ n
unfolding from_be_bytes to_be_bytes
from_be_bytes-to_be_bytes n h = omega arith

nonempty_lem : (body : Bytes) → is_empty body ≡ false → 0 < length body
nonempty_lem [] h = absurd (ground arith)
nonempty_lem (c ∷ body) h = omega arith

module _ (reader : TimedReader) (prompt : Prompt reader) where
  open reader use {State}
  open prompt use {unread, read_one, read_whole}

  read_exact_timed_lem :
      (s : State) (n : ℕ) (text : Bytes) (s' : State)
      → TimedReader.read_exact reader s n ≡ within (ok (text, s'))
      → read_exact_timed reader s n ≡ ok (text, s')
  unfolding read_exact_timed
  read_exact_timed_lem s n text s' e = rw (read_exact_timed, e) refl

  read_body_lem :
      (first others : Bytes) (n : ℕ) (body : Bytes) (s1 s2 s3 : State)
      → read_exact_timed reader s1 3 ≡ ok (others, s2)
      → from_be_bytes (first ++ others) ≡ n
      → 0 < n
      → n ≤ max_request_bytes
      → read_exact_timed reader s2 n ≡ ok (body, s3)
      → read_body reader first s1 ≡ ok (some body, s3)
  unfolding read_body
  read_body_lem first others n body s1 s2 s3 e2 size positive small e3 =
      let fits : ltb max_request_bytes n ≡ false = ground arith in
      let full : (n == 0) ≡ false = ground arith in rw (read_body, e2, size, fits, full, e3) refl

  -- A request that is not empty and has at most 256 KiB is framed by the client, and from a stream
  -- that holds the frame the server reads it back, exactly, with the stream after it.
  pub read_request_frame-request_frame :
      (s : State) (body rest : Bytes)
      → is_empty body ≡ false
      → length body ≤ max_request_bytes
      → (frame : Bytes) × (request_frame body ≡ some frame)
        × (unread s ≡ frame ++ rest
            → (s' : State) × (read_request_frame reader s ≡ ok (some body, s'))
              × (unread s' ≡ rest))
  unfolding read_request_frame read_body read_exact_timed request_frame frame_of to_be_bytes
  read_request_frame-request_frame s body rest some_byte small =
      let n : ℕ = length body in
      let fits : ltb n 4294967296 ≡ true = ground arith in
      let framed : request_frame body ≡ some (to_be_bytes n ++ body) =
        let short : ltb max_request_bytes n ≡ false = ground arith in
        rw (request_frame, some_byte, short, frame_of, fits) refl in
      (
        to_be_bytes n ++ body,
        framed,
        λ holds.
            let (s1, e1, u1) = read_one s (n / 16777216 % 256) _ holds in
            let (s2, e2, u2) =
              read_whole s1 (n / 65536 % 256 ∷ n / 256 % 256 ∷ n % 256 ∷ []) (body ++ rest) u1 in
            let (s3, e3, u3) = read_whole s2 body rest u2 in
            let whole =
              read_body_lem (n / 16777216 % 256 ∷ [])
                (n / 65536 % 256 ∷ n / 256 % 256 ∷ n % 256 ∷ []) n body s1 s2 s3
                (read_exact_timed_lem s1 3 _ s2 e2)
                (from_be_bytes-to_be_bytes n (omega (arith, small))) (nonempty_lem body some_byte)
                small (read_exact_timed_lem s2 n body s3 e3) in
            (s3, rw (read_request_frame, e1) whole, u3),
      )

-- ===== src/Connect/Head.antt =====
-- The text of a CONNECT head (`read_connect_request` of src/proxy_runtime/rama/connect.rs).
use baffle.Prelude.{
  ℕ, suc, ◌+◌, ◌-◌, Bool, true, false, not, ◌&&◌, ◌||◌, Option, none, some, List, [], ◌∷◌, leb,
  ◌==◌, if◌then◌else◌, Result, ok, err, ◌>>=◌, ◌>>◌, fail_if, ok_or,
}
use baffle.Prelude.Text.{
  Bytes, bytes, eq, length, starts_with, is_ascii, split_once, extend_first, eq_ignore_ascii_case,
}
use baffle.Io.{IoError, invalid_data, unexpected_eof, take}
use baffle.Http.{trim_start, trim_end}

pub record ParsedConnect : Type 0 where
  pub authority : Bytes
  pub host : Option Bytes
  pub has_body : Bool
  pub read_ahead : Bytes

abbrev pub crlf : Bytes
crlf = 13 ∷ 10 ∷ []

abbrev pub terminator : Bytes
terminator = 13 ∷ 10 ∷ 13 ∷ 10 ∷ []

abbrev pub invalid : Bytes → IoError
invalid message = record { kind = invalid_data; message = message }

abbrev pub too_large : IoError
too_large = invalid (bytes "CONNECT headers too large")

abbrev pub early_eof : IoError
early_eof = record {
  kind = unexpected_eof;
  message = bytes "early EOF while reading CONNECT headers";
}

abbrev next : Option ℕ → Option ℕ
next none = none
next (some n) = some (suc n)

-- `bytes.windows(4).position(|window| window == b"\r\n\r\n")`.
unfoldable pub position : Bytes → Option ℕ
position [] = none
position (c ∷ text) =
    let later = position text in if starts_with (c ∷ text) terminator then some 0 else next later

-- What the bytes received so far decide: where the head ends, or that it is too large.
unfoldable pub header_end : Bytes → Option (Result IoError ℕ)
header_end text = elim (position text) [
  | some found ↦ if leb (found + 4) 16384 then some (ok (found + 4)) else some (err too_large)
  | none ↦ if leb 16384 (length text) then some (err too_large) else none
]

-- `text.split("\r\n")`.
unfoldable pub split_lines : Bytes → List Bytes
split_lines [] = [] ∷ []
split_lines (c ∷ []) = (c ∷ []) ∷ []
split_lines (c ∷ d ∷ text) =
    let after = split_lines text in
    let along = split_lines (d ∷ text) in
    if c == 13 && d == 10 then [] ∷ after else extend_first c along

abbrev pub is_ascii_whitespace : ℕ → Bool
is_ascii_whitespace b = b == 32 || (b == 9 || b == 10 || b == 12 || b == 13)

-- A word in front of the rest, unless it is empty.
abbrev pub push_word : Bytes → List Bytes → List Bytes
push_word [] words = words
push_word (c ∷ word) words = (c ∷ word) ∷ words

-- The word that a text starts with, and the words after it.
unfoldable pub words : Bytes → Bytes × List Bytes
words [] = ([], [])
words (c ∷ text) =
    let (word, later) = words text in
    if is_ascii_whitespace c then ([], push_word word later) else (c ∷ word, later)

-- `text.split_ascii_whitespace()`.
unfoldable pub split_ascii_whitespace : Bytes → List Bytes
split_ascii_whitespace text = let (word, later) = words text in push_word word later

abbrev pub trim : Bytes → Bytes
trim text = trim_end (trim_start text)

unfoldable pub request_authority : List Bytes → Result IoError Bytes
request_authority (method ∷ authority ∷ version ∷ []) =
    if eq method (bytes "CONNECT") && eq version (bytes "HTTP/1.1")
    then ok authority
    else err (invalid (bytes "only HTTP/1.1 CONNECT is supported"))
request_authority _ = err (invalid (bytes "only HTTP/1.1 CONNECT is supported"))

-- The headers that the loop over the lines reads, as far as it came.
pub record Headers : Type 0 where
  pub host : Option Bytes
  pub has_body : Bool

abbrev pub no_headers : Headers
no_headers = record { host = none; has_body = false }

unfoldable pub read_host : Headers → Bytes → Result IoError Headers
read_host headers value = elim headers.host [
  | some given ↦ err (invalid (bytes "duplicate Host header"))
  | none ↦ ok (record headers { host = some (trim value) })
]

unfoldable pub read_header : Headers → Bytes → Bytes → Result IoError Headers
read_header headers name value =
    if eq_ignore_ascii_case name (bytes "host")
    then read_host headers value
    else if eq_ignore_ascii_case name (bytes "transfer-encoding")
    then ok (record headers { has_body = true })
    else if eq_ignore_ascii_case name (bytes "content-length")
    then (if eq (trim value) (bytes "0")
        then ok headers
        else ok (record headers { has_body = true }))
    else if eq_ignore_ascii_case name (bytes "expect")
    then ok (record headers { has_body = true })
    else ok headers

unfoldable pub read_headers : Headers → List Bytes → Result IoError Headers
read_headers headers [] = ok headers
read_headers headers (line ∷ lines) = do
  (name, value) ← ok_or (split_once b':' line) (invalid (bytes "invalid header"))
  headers ← read_header headers name value
  read_headers headers lines

unfoldable pub parse_lines : List Bytes → Bytes → Result IoError ParsedConnect
parse_lines [] read_ahead = err (invalid (bytes "missing request line"))
parse_lines (request_line ∷ lines) read_ahead = do
  authority ← request_authority (split_ascii_whitespace request_line)
  headers ← read_headers no_headers lines
  ok (record {
    authority = authority;
    host = headers.host;
    has_body = headers.has_body;
    read_ahead = read_ahead;
  })

-- The head, up to its end, and the bytes that were read beyond it.
unfoldable pub parse_head : Bytes → Bytes → Result IoError ParsedConnect
parse_head head read_ahead = do
  fail_if (not (is_ascii head)) (invalid (bytes "CONNECT headers are not ASCII"))
  parse_lines (split_lines (take (length head - 4) head)) read_ahead

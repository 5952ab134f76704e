-- ===== src/Connect/RoundTrip.antt =====
-- Printing a CONNECT request and reading it again (src/proxy_runtime/rama/connect.rs).
use mathlib.Core.List.{append_assoc}
use baffle.Io.Slices.{take-length, drop-length}
use baffle.Prelude.{
  ◌≡◌, refl, ap, ◌∙◌, true, false, List, [], ◌∷◌, ◌++◌, arith, ltb, ◌≤◌, ◌-◌, ok, ◌>>=◌,
}
use baffle.Prelude.Text.{
  Bytes, bytes, eq, length, length-append, is_empty, all, is_ascii, all-append,
}
use baffle.Connect.Head.{
  terminator, words, split_ascii_whitespace, header_end, parse_head, parse_lines, request_authority,
  read_headers, no_headers, push_word,
}
use baffle.Connect.Framing.{connect_of, head_of}
use baffle.Connect.Printed.{
  is_line_byte, is_word_byte, IsLine, IsWord, AreLines, request_line, print_head, position-join,
  split_lines-join, words-append, words-single, join_lines,
}

-- The whole head.

push_word_lem :
    (word : Bytes) (words : List Bytes)
    → is_empty word ≡ false
    → push_word word words ≡ word ∷ words
push_word_lem [] words h = absurd (ground arith)
push_word_lem (c ∷ word) words h = refl

request_line-words :
    (authority : Bytes)
    → IsWord authority
    → split_ascii_whitespace (request_line authority)
      ≡ bytes "CONNECT" ∷ authority ∷ bytes "HTTP/1.1" ∷ []
unfolding split_ascii_whitespace
request_line-words authority h =
    rw
      (
        words-append (bytes "CONNECT") (authority ++ (32 ∷ bytes "HTTP/1.1")) (unfold all in refl),
        split_ascii_whitespace,
        words-append authority (bytes "HTTP/1.1") h.1,
        words-single (bytes "HTTP/1.1") (unfold all in refl),
      )
      (ap (λ words. bytes "CONNECT" ∷ words) (push_word_lem authority (bytes "HTTP/1.1" ∷ []) h.0))

line_ascii : (line : Bytes) → all is_line_byte line ≡ true → is_ascii line ≡ true
unfolding all
line_ascii [] h = refl
line_ascii (c ∷ line) h = ground (arith, line_ascii line)

word_line : (word : Bytes) → all is_word_byte word ≡ true → all is_line_byte word ≡ true
unfolding all
word_line [] h = refl
word_line (c ∷ word) h = ground (arith, word_line word)

request_line-IsLine : (authority : Bytes) → IsWord authority → IsLine (request_line authority)
unfolding all
request_line-IsLine authority h = (
  refl,
  rw (all-append is_line_byte authority (32 ∷ bytes "HTTP/1.1"), word_line authority h.1) refl,
)

crlf_ascii : (text : Bytes) → is_ascii (13 ∷ 10 ∷ text) ≡ is_ascii text
unfolding all
crlf_ascii text = refl

join_ascii :
    (line : Bytes) (lines : List Bytes)
    → AreLines (line ∷ lines)
    → is_ascii (join_lines line lines) ≡ true
unfolding join_lines
join_ascii line [] h = line_ascii line h.0.1
join_ascii line (next ∷ lines) h =
    rw (all-append (λ b. ltb b 128) line (13 ∷ 10 ∷ join_lines next lines), line_ascii line h.0.1)
      (crlf_ascii (join_lines next lines) ∙ join_ascii next lines h.1)

-- The head of a printed request ends where it was printed to end.
head_of-print :
    (line : Bytes) (lines : List Bytes) (payload : Bytes)
    → AreLines (line ∷ lines)
    → length (join_lines line lines ++ terminator) ≤ 16384
    → head_of ((join_lines line lines ++ terminator) ++ payload)
      ≡ ok (length (join_lines line lines ++ terminator))
unfolding head_of header_end
head_of-print line lines payload h small =
    let size = length-append {0} (join_lines line lines) terminator in
    rw (append_assoc (join_lines line lines) terminator payload)
      (rw (head_of, header_end, position-join line lines payload h) (ground arith))

parse_head-print :
    (line : Bytes) (lines : List Bytes) (payload : Bytes)
    → AreLines (line ∷ lines)
    → parse_head (join_lines line lines ++ terminator) payload ≡ parse_lines (line ∷ lines) payload
unfolding parse_head
parse_head-print line lines payload h =
    let body : Bytes = join_lines line lines in
    let ascii : is_ascii (body ++ terminator) ≡ true =
      rw (all-append (λ b. ltb b 128) body terminator, join_ascii line lines h)
        (unfold all in refl) in
    let size : length (body ++ terminator) - 4 ≡ length body =
      omega (arith, length-append {0} body terminator) in
    rw (parse_head, ascii, size, take-length body terminator, split_lines-join line lines h) refl

-- A printed CONNECT request of at most 16384 bytes, with any authority that is a word and any lines
-- of ASCII text, is read with that authority, with what its lines say of the host and the body, and
-- with exactly the payload printed after it.
pub connect_of-print_head :
    (authority : Bytes) (lines : List Bytes) (payload : Bytes)
    → IsWord authority
    → AreLines lines
    → length (print_head authority lines) ≤ 16384
    → connect_of (print_head authority lines ++ payload) ≡ (
        read_headers no_headers lines >>= λ headers. ok (record {
          authority = authority;
          host = headers.host;
          has_body = headers.has_body;
          read_ahead = payload;
        }))
unfolding connect_of parse_lines request_authority read_headers eq
connect_of-print_head authority lines payload word are small =
    let line : Bytes = request_line authority in
    let h : AreLines (line ∷ lines) = (request_line-IsLine authority word, are) in
    rw
      (
        connect_of,
        head_of-print line lines payload h small,
        take-length (print_head authority lines) payload,
        drop-length (print_head authority lines) payload,
        parse_head-print line lines payload h,
        parse_lines,
        request_line-words authority word,
      )
      refl

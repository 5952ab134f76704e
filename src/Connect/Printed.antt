-- ===== src/Connect/Printed.antt =====
-- The text of a CONNECT request, and where its lines and its words (src/proxy_runtime/rama/connect.rs)
-- are found again.
use mathlib.Core.List.{append_assoc}
use baffle.Connect.Position.{position-later}
use baffle.Prelude.{
  ℕ, suc, ◌+◌, ◌≡◌, refl, ap, ◌∙◌, true, false, not, some, List, [], ◌∷◌, ◌++◌, arith, Bool, ltb,
  ◌==◌, ◌&&◌,
}
use baffle.Prelude.Text.{Bytes, bytes, length, length-append, is_empty, all, starts_with}
use baffle.Connect.Head.{
  terminator, position, split_lines, is_ascii_whitespace, words, split_ascii_whitespace,
}

abbrev pub is_line_byte : ℕ → Bool
is_line_byte b = ltb b 128 && not (b == 13)

abbrev pub is_word_byte : ℕ → Bool
is_word_byte b = ltb b 128 && not (is_ascii_whitespace b)

-- ASCII text without a carriage return, and a word of the request line.
abbrev pub IsLine : Bytes → Type 0
IsLine line = (is_empty line ≡ false) × (all is_line_byte line ≡ true)

abbrev pub IsWord : Bytes → Type 0
IsWord word = (is_empty word ≡ false) × (all is_word_byte word ≡ true)

abbrev pub AreLines : List Bytes → Type 0
AreLines [] = Unit {0}
AreLines (line ∷ lines) = IsLine line × AreLines lines

unfoldable pub join_lines : Bytes → List Bytes → Bytes
join_lines line [] = line
join_lines line (next ∷ lines) = line ++ (13 ∷ 10 ∷ join_lines next lines)

abbrev pub request_line : Bytes → Bytes
request_line authority = bytes "CONNECT" ++ (32 ∷ (authority ++ (32 ∷ bytes "HTTP/1.1")))

-- A head with the lines after the request line.
abbrev pub print_head : Bytes → List Bytes → Bytes
print_head authority lines = join_lines (request_line authority) lines ++ terminator

-- Lines.

position-skip :
    (line text : Bytes) (n : ℕ)
    → all is_line_byte line ≡ true
    → position text ≡ some n
    → position (line ++ text) ≡ some (length line + n)
unfolding position starts_with all
position-skip [] text n h e = e ∙ ap some (omega arith)
position-skip (c ∷ line) text n h e = ground (arith, position-skip line text n)

-- A text that starts with a byte other than a carriage return.
abbrev is_plain : Bytes → Bool
is_plain [] = false
is_plain (c ∷ text) = not (c == 13)

position-break :
    (text : Bytes) (n : ℕ)
    → is_plain text ≡ true
    → position text ≡ some n
    → position (13 ∷ 10 ∷ text) ≡ some (suc (suc n))
position-break [] n h e = absurd (ground arith)
position-break (c ∷ text) n h e =
    let second : starts_with (10 ∷ c ∷ text) terminator ≡ false = unfold starts_with in refl in
    let first : starts_with (13 ∷ 10 ∷ c ∷ text) terminator ≡ false =
      unfold starts_with in ground arith in
    position-later 13 (10 ∷ c ∷ text) (suc n) first (position-later 10 (c ∷ text) n second e)

is_plain-append : (line text : Bytes) → IsLine line → is_plain (line ++ text) ≡ true
unfolding all
is_plain-append [] text h = absurd (ground arith)
is_plain-append (c ∷ line) text h = ground arith

is_plain-join :
    (line : Bytes) (lines : List Bytes) (text : Bytes)
    → IsLine line
    → is_plain (join_lines line lines ++ text) ≡ true
unfolding join_lines
is_plain-join line [] text h = is_plain-append line text h
is_plain-join line (next ∷ lines) text h =
    rw (append_assoc line (13 ∷ 10 ∷ join_lines next lines) text)
      (is_plain-append line (13 ∷ 10 ∷ (join_lines next lines ++ text)) h)

pub position-join :
    (line : Bytes) (lines : List Bytes) (payload : Bytes)
    → AreLines (line ∷ lines)
    → position (join_lines line lines ++ (terminator ++ payload))
      ≡ some (length (join_lines line lines))
unfolding join_lines
position-join line [] payload h =
    let start : position (terminator ++ payload) ≡ some 0 = unfold position starts_with in refl in
    position-skip line (terminator ++ payload) 0 h.0.1 start ∙ ap some (omega arith)
position-join line (next ∷ lines) payload h =
    let rest : Bytes = join_lines next lines ++ (terminator ++ payload) in
    let broken =
      position-break rest (length (join_lines next lines))
        (is_plain-join next lines (terminator ++ payload) h.1.0)
        (position-join next lines payload h.1) in
    rw (append_assoc line (13 ∷ 10 ∷ join_lines next lines) (terminator ++ payload)) (
      position-skip line (13 ∷ 10 ∷ rest) (suc (suc (length (join_lines next lines)))) h.0.1 broken
      ∙ ap some (omega (arith, length-append {0} line (13 ∷ 10 ∷ join_lines next lines))))

split_lines-single : (line : Bytes) → all is_line_byte line ≡ true → split_lines line ≡ line ∷ []
unfolding split_lines all
split_lines-single [] h = refl
split_lines-single (c ∷ []) h = refl
split_lines-single (c ∷ d ∷ line) h = ground (arith, split_lines-single (d ∷ line))

split_lines-break :
    (line text : Bytes)
    → all is_line_byte line ≡ true
    → split_lines (line ++ (13 ∷ 10 ∷ text)) ≡ line ∷ split_lines text
unfolding split_lines all
split_lines-break [] text h = refl
split_lines-break (c ∷ []) text h = ground arith
split_lines-break (c ∷ d ∷ line) text h = ground (arith, split_lines-break (d ∷ line) text)

pub split_lines-join :
    (line : Bytes) (lines : List Bytes)
    → AreLines (line ∷ lines)
    → split_lines (join_lines line lines) ≡ line ∷ lines
unfolding join_lines
split_lines-join line [] h = split_lines-single line h.0.1
split_lines-join line (next ∷ lines) h =
    split_lines-break line (join_lines next lines) h.0.1
    ∙ ap (◌∷◌ line) (split_lines-join next lines h.1)

-- Words.

pub words-append :
    (word text : Bytes)
    → all is_word_byte word ≡ true
    → words (word ++ (32 ∷ text)) ≡ (word, split_ascii_whitespace text)
unfolding words all split_ascii_whitespace
words-append [] text h = refl
words-append (c ∷ word) text h = rw (words-append word text (ground arith)) (ground arith)

pub words-single : (word : Bytes) → all is_word_byte word ≡ true → words word ≡ (word, [])
unfolding words all
words-single [] h = refl
words-single (c ∷ word) h = rw (words-single word (ground arith)) (ground arith)

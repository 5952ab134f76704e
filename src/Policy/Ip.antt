-- ===== src/Policy/Ip.antt =====
-- The texts that Rust's `str::parse::<IpAddr>` accepts, which `normalize_dns_name` refuses.
use baffle.Prelude.{
  ℕ, ◌+◌, ◌-◌, ◌*◌, ◌≡◌, refl, Bool, true, false, not, ◌&&◌, ◌||◌, Option, none, some, List, [],
  ◌∷◌, leb, ltb, ◌==◌, if◌then◌else◌,
}
use baffle.Prelude.Text.{
  Bytes, bytes, length, eq, any, all, is_empty, split, starts_with, is_ascii_digit,
}
use baffle.Policy.Path.{hex_value}

decimal : ℕ → Bytes → ℕ
decimal n [] = n
decimal n (d ∷ rest) = decimal (n * 10 + (d - b'0')) rest

-- An octet: up to three digits, at most 255, with no leading zero.
is_octet : Bytes → Bool
unfolding decimal
is_octet text =
    not (is_empty text)
    && leb (length text) 3
    && all is_ascii_digit text
    && not (ltb 1 (length text) && starts_with text (bytes "0"))
    && leb (decimal 0 text) 255

is_ipv4 : Bytes → Bool
unfolding is_octet
is_ipv4 text = length (split b'.' text) == 4 && all is_octet (split b'.' text)

is_hex_digit : ℕ → Bool
is_hex_digit b = elim (hex_value b) [ none ↦ false | some v ↦ true ]

is_group : Bytes → Bool
unfolding is_hex_digit
is_group text = not (is_empty text) && leb (length text) 4 && all is_hex_digit text

-- The 16-bit groups that a list of words gives; the last word may be an IPv4 address, of two.
groups : List Bytes → Option ℕ
groups [] = some 0
groups (word ∷ []) = if is_group word then some 1 else if is_ipv4 word then some 2 else none
groups (word ∷ next ∷ rest) =
    let more = groups (next ∷ rest) in
    if is_group word then elim more [ none ↦ none | some n ↦ some (n + 1) ] else none

-- As `groups`, of a text that may be empty.
text_groups : Bytes → Option ℕ
unfolding groups is_group is_ipv4
text_groups [] = some 0
text_groups (c ∷ text) = groups (split b':' (c ∷ text))

-- The text in front of the first `::` and the text behind it.
split_gap : Bytes → Option (Bytes × Bytes)
split_gap [] = none
split_gap (a ∷ []) = none
split_gap (a ∷ b ∷ rest) =
    let found = split_gap (b ∷ rest) in
    if a == b':' && b == b':'
    then some ([], rest)
    else elim found [ none ↦ none | some (l, r) ↦ some (a ∷ l, r) ]

abbrev gap_fits : Option ℕ → Option ℕ → Bool
gap_fits (some h) (some t) = leb (h + t) 7
gap_fits _ _ = false

-- An IPv4 address may stand at the end of the whole text only.
no_ipv4_end : Bytes → Bool
no_ipv4_end head = not (any (λ c. c == b'.') head)

is_ipv6 : Bytes → Bool
unfolding split_gap text_groups no_ipv4_end
is_ipv6 text = elim (split_gap text) [
  | none ↦ elim (text_groups text) [ none ↦ false | some n ↦ n == 8 ]
  | some (head, tail) ↦ no_ipv4_end head && gap_fits (text_groups head) (text_groups tail)
]

unfoldable pub is_ip_addr : Bytes → Bool
unfolding is_ipv4 is_ipv6
is_ip_addr text = is_ipv4 text || is_ipv6 text

ip_addresses :
    (is_ip_addr (bytes "127.0.0.1") ≡ true)
    × (is_ip_addr (bytes "127.1") ≡ false)
    × (is_ip_addr (bytes "01.2.3.4") ≡ false)
    × (is_ip_addr (bytes "::1") ≡ true)
    × (is_ip_addr (bytes "1:2:3:4:5:6:7::") ≡ true)
    × (is_ip_addr (bytes "1:2:3:4:5:6:7:8::") ≡ false)
    × (is_ip_addr (bytes "::ffff:1.2.3.4") ≡ true)
    × (is_ip_addr (bytes "1:::2") ≡ false)
unfolding is_ip_addr hex_value split eq any all starts_with
ip_addresses = (refl, refl, refl, refl, refl, refl, refl, refl)

-- ===== src/Connect/Relay.antt =====
-- What the two ends of a tunnel of src/proxy_runtime/rama/connect.rs receive.
use baffle.Prelude.{
  ℕ, zero, suc, ◌+◌, ◌≤◌, ◌<◌, ◌≡◌, inl, inr, refl, sym, ap, ◌∙◌, true, false, some, [], ◌∷◌, ◌++◌,
  ok, Bool-cases, arith, ltb,
}
use mathlib.Core.List.{append_assoc, append-nil}
use baffle.Prelude.Text.{Bytes, length, length-append}
use baffle.Io.{Reader, Writer, Serves, Accepts, take, drop, min}
use baffle.Io.Slices.{take-drop, drop-drop, length-take, length-drop}
use baffle.Connect.Buffered.{BufferedConnectIo, buffered, poll_read}
use baffle.Connect.Tunnel.{copy_until_eof}

drop-nil : (n : ℕ) (xs : Bytes) → length xs ≤ n → drop n xs ≡ []
unfolding drop
drop-nil zero [] h = refl
drop-nil zero (x ∷ xs) h = absurd (omega arith)
drop-nil (suc n) [] h = refl
drop-nil (suc n) (x ∷ xs) h = drop-nil n xs (omega arith)

nonempty : (xs : Bytes) → 0 < length xs → xs ≡ [] → ⊥
nonempty [] h e = omega arith
nonempty (x ∷ xs) h e = ground arith

capped_lem : (n : ℕ) → n ≤ 18446744073709551615 → n ≡ min (n + 0) 18446744073709551615
capped_lem n h = ground arith

recapped_lem :
    (n a b c : ℕ)
    → c ≡ a + b
    → min (min (n + a) 18446744073709551615 + b) 18446744073709551615
      ≡ min (n + c) 18446744073709551615
recapped_lem n a b c h = ground arith

module _ (reader : Reader) (serves : Serves reader) where
  open reader use {State, read}
  open serves use {unread, serve}

  -- What a stream with bytes in front still gives.
  abbrev pub buffered_unread : BufferedConnectIo reader → Bytes
  buffered_unread this = drop this.read_ahead_offset this.read_ahead ++ unread this.inner

  abbrev Serving : BufferedConnectIo reader → ℕ → Type 0
  Serving this room =
      (chunk : Bytes) × (this' : BufferedConnectIo reader) × (poll_read reader this room
        ≡ ok (chunk, this'))
      × (buffered_unread this ≡ chunk ++ buffered_unread this')
      × (length chunk ≤ room)
      × (chunk ≡ [] → buffered_unread this ≡ [])

  ahead_lem :
      (o n : ℕ) (xs rest : Bytes)
      → drop o xs ++ rest ≡ take n (drop o xs) ++ (drop (o + n) xs ++ rest)
  ahead_lem o n xs rest =
      rw
        (
          sym (drop-drop n o xs),
          sym (append_assoc (take n (drop o xs)) (drop n (drop o xs)) rest),
          take-drop n (drop o xs),
        )
        refl

  -- A read while bytes are left in front.
  serve_ahead :
      (this : BufferedConnectIo reader) (room : ℕ)
      → 0 < room
      → ltb this.read_ahead_offset (length this.read_ahead) ≡ true
      → Serving this room
  unfolding poll_read
  serve_ahead this room positive ahead =
      let rest : Bytes = drop this.read_ahead_offset this.read_ahead in
      let n : ℕ = min (length rest) room in
      let some_left : 0 < length rest =
        ground (arith, length-drop this.read_ahead_offset this.read_ahead) in
      let exact : length (take n rest) ≡ n = length-take n rest (ground arith) in
      let within : n ≤ room = ground arith in
      let fresh : 0 < n = ground arith in
      (
        take n rest,
        record this { read_ahead_offset = this.read_ahead_offset + n },
        rw (poll_read, ahead) refl,
        ahead_lem this.read_ahead_offset n this.read_ahead (unread this.inner),
        omega (arith, exact, within),
        λ empty. absurd (nonempty (take n rest) (omega (arith, exact, fresh)) empty),
      )

  -- A read after them.
  serve_behind :
      (this : BufferedConnectIo reader) (room : ℕ)
      → 0 < room
      → ltb this.read_ahead_offset (length this.read_ahead) ≡ false
      → Serving this room
  unfolding poll_read
  serve_behind this room positive behind =
      let (chunk, s', done, gives, fits, ended) = serve this.inner room positive in
      let over : drop this.read_ahead_offset this.read_ahead ≡ [] =
        drop-nil this.read_ahead_offset this.read_ahead (ground arith) in
      (
        chunk,
        record this { inner = s' },
        rw (poll_read, behind, done) refl,
        rw (over) gives,
        fits,
        λ empty. rw (over) (ended empty),
      )

  pub buffered_serve : (this : BufferedConnectIo reader) (room : ℕ) → 0 < room → Serving this room
  buffered_serve this room positive =
      elim (Bool-cases (ltb this.read_ahead_offset (length this.read_ahead))) [
        | inl ahead ↦ serve_ahead this room positive ahead
        | inr behind ↦ serve_behind this room positive behind
      ]

  -- The bytes read ahead, put back in front of a stream, give a stream again.
  abbrev pub buffered-Serves : Serves (buffered reader)
  buffered-Serves = record { unread = buffered_unread; serve = buffered_serve }

  module _ (writer : Writer) (accepts : Accepts writer) where
    open accepts use {received, accept, close}

    gives_length :
        (r : State) (chunk : Bytes) (r' : State)
        → unread r ≡ chunk ++ unread r'
        → length (unread r) ≡ length chunk + length (unread r')
    gives_length r chunk r' gives = ap length gives ∙ length-append {0} chunk (unread r')

    abbrev Copies : ℕ → ℕ → State → Writer.State writer → Type 0
    Copies rounds copied r w =
        (w' : Writer.State writer) × (copy_until_eof reader writer rounds copied r w
          ≡ some (ok (min (copied + length (unread r)) 18446744073709551615, w')))
        × (received w' ≡ received w ++ unread r)

    -- A round at the end, and a round that copies a chunk.
    copy_step :
        (rounds copied : ℕ) (r : State) (w : Writer.State writer) (chunk : Bytes) (r' : State)
        → read r 8192 ≡ ok (chunk, r')
        → unread r ≡ chunk ++ unread r'
        → (chunk ≡ [] → unread r ≡ [])
        → copied ≤ 18446744073709551615
        → (0 < length chunk
            → Copies rounds
                (min (copied + length chunk) 18446744073709551615)
                r'
                ((accept w chunk).0))
        → Copies (suc rounds) copied r w
    unfolding copy_until_eof
    copy_step rounds copied r w [] r' done gives ended small later =
        let (w', closed, same) = close w in
        let none_left : unread r ≡ [] = ended refl in
        (
          w',
          rw (none_left, copy_until_eof, done, closed)
              (ap (λ n. some (ok (n, w'))) (capped_lem copied small)),
          rw (none_left, append-nil (received w)) same,
        )
    copy_step rounds copied r w (c ∷ chunk) r' done gives ended small later =
        let (w', taken, more) = accept w (c ∷ chunk) in
        let (last, copies, all) = later (omega arith) in
        let text : unread r ≡ (c ∷ chunk) ++ unread r' = gives in
        (
          last,
          rw (text, copy_until_eof, done, taken, copies)
              (ap (λ n. some (ok (n, last)))
                (recapped_lem copied (suc (length chunk)) (length (unread r'))
                  (length ((c ∷ chunk) ++ unread r'))
                  (omega (arith, length-append {0} chunk (unread r'))))),
          rw (all, more, text) (append_assoc (received w) (c ∷ chunk) (unread r')),
        )

    -- Copying until the end of a stream ends, and the writer receives exactly the bytes that the
    -- stream still had, after those it had received; their number is counted up to 2^64 - 1.
    pub copy_until_eof_lem :
        (rounds copied : ℕ) (r : State) (w : Writer.State writer)
        → length (unread r) < rounds
        → copied ≤ 18446744073709551615
        → (w' : Writer.State writer) × (copy_until_eof reader writer rounds copied r w
            ≡ some (ok (min (copied + length (unread r)) 18446744073709551615, w')))
          × (received w' ≡ received w ++ unread r)
    copy_until_eof_lem zero copied r w fuel small = absurd (omega arith)
    copy_until_eof_lem (suc rounds) copied r w fuel small =
        let (chunk, r', done, gives, fits, ended) = serve r 8192 (omega arith) in
        copy_step rounds copied r w chunk r' done gives ended small λ fresh.
          copy_until_eof_lem rounds (min (copied + length chunk) 18446744073709551615) r'
            (accept w chunk).0 (omega (arith, fuel, fresh, gives_length r chunk r' gives))
            (ground arith)

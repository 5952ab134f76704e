-- ===== src/Control/Leases.antt =====
-- What a control connection of src/control/server.rs may do, and that it ends the sessions it holds.
use mathlib.Core.List.{append-nil}
use baffle.Prelude.{
  sym, ◌∙◌, ◌++◌, ap, ◌≡◌, inl, inr, refl, true, Option, none, some, List, [], ◌∷◌, ok, Bool-cases,
  Result-cases, Bool, false, err,
}
use baffle.Prelude.Text.{Bytes}
use baffle.Control.Frame.{
  RequestError, invalid_request, TimedReader, unauthorized, read_request_frame,
}
use baffle.Control.Effects.{leased, removed, leased-append, removed-append}
use baffle.Control.Connection.{
  release, Served, finish, refuse, handle_request, is_peer, handle_connection, Effect, removes,
  ControlState, Answer, answer_request,
}
use baffle.Control.Answers.{to_list, Good, AllAllowed, Allowed, answer_request-Good}

module _ (state : ControlState) where
  open state use {stream, peer_uid, parse_request, is_utf8}

  AllAllowed-append :
      (xs ys : List Effect)
      → AllAllowed state xs
      → AllAllowed state ys
      → AllAllowed state (xs ++ ys)
  AllAllowed-append [] ys h k = k
  AllAllowed-append (x ∷ xs) ys h k = (h.0, AllAllowed-append xs ys h.1 k)

  -- What a connection did is allowed, and it removed exactly the sessions that it leased.
  Ended : Served state → Type 0
  Ended served = AllAllowed state served.effects × (removed served.effects ≡ leased served.effects)

  refuse-Ended : (error : RequestError) → Ended (refuse state error)
  unfolding Ended leased removed
  refuse-Ended error = (tt, refl)

  release_lem :
      (effects : List Effect) (lease_id : Option Bytes) (reason : Bytes)
      → AllAllowed state effects
      → leased effects ≡ to_list lease_id
      → removed effects ≡ []
      → AllAllowed state (effects ++ release lease_id reason)
        × (removed (effects ++ release lease_id reason)
            ≡ leased (effects ++ release lease_id reason))
  unfolding Allowed leased removed
  release_lem effects none reason allowed holds kept =
      (AllAllowed-append effects [] allowed tt, rw append-nil (kept ∙ sym holds))
  release_lem effects (some id) reason allowed holds kept =
      let tail : List Effect = removes id reason ∷ [] in
      (
        AllAllowed-append effects tail allowed (tt, tt),
        removed-append effects tail
            ∙ ap (λ ids. ids ++ id ∷ []) kept
            ∙ sym (leased-append effects tail ∙ append-nil (leased effects) ∙ holds),
      )

  finish-Ended : (answered : Answer state) → Good state answered → Ended (finish state answered)
  unfolding finish Ended Good
  finish-Ended answered (allowed, holds, kept) =
      release_lem answered.effects answered.lease_id _ allowed holds kept

  handle_request-Ended : (body : Bytes) → Ended (handle_request state body)
  unfolding handle_request
  handle_request-Ended body = elim (Bool-cases (is_utf8 body)) [
    | inr binary ↦ rw (handle_request, binary) (refuse-Ended invalid_request)
    | inl text ↦ elim (Result-cases (parse_request body)) [
      | inr (e, failed) ↦ rw (handle_request, text, failed) (refuse-Ended _)
      | inl (request, parsed) ↦
          rw (handle_request, text, parsed)
            (finish-Ended (answer_request state request) (answer_request-Good state request))
    ]
  ]

  -- A connection whose peer was checked.
  peer_lem :
      (trusted : Bool) (s : TimedReader.State stream)
      → Ended (elim trusted [
        | false ↦ refuse state unauthorized
        | true ↦ elim (read_request_frame stream s) [
          | err e ↦ refuse state e
          | ok (none, s') ↦ record { effects = []; response = none }
          | ok (some body, s') ↦ handle_request state body
        ]
      ])
  unfolding Ended leased removed
  peer_lem false s = refuse-Ended unauthorized
  peer_lem true s = elim (Result-cases (read_request_frame stream s)) [
    | inr (e, failed) ↦ rw failed (refuse-Ended e)
    | inl ((none, s'), closed) ↦ rw closed (tt, refl)
    | inl ((some body, s'), read) ↦ rw read (handle_request-Ended body)
  ]

  -- A connection of a peer other than the trusted operator is refused and does nothing. Whatever a
  -- connection does, it creates no session but with a slot, from where the daemon's mode allows it,
  -- and with the secrets that it may have; and it removes exactly the sessions that it created to
  -- live as long as itself, whether the response was written or not.
  pub handle_connection-leased :
      (s : TimedReader.State stream)
      → AllAllowed state (handle_connection state s).effects
        × (removed (handle_connection state s).effects ≡ leased (handle_connection state s).effects)
        × (is_peer state peer_uid ≡ false → handle_connection state s ≡ refuse state unauthorized)
  unfolding Ended handle_connection
  handle_connection-leased s =
      let (allowed, same) = peer_lem (is_peer state peer_uid) s in
      (allowed, same, λ stranger. rw (handle_connection, stranger) refl)

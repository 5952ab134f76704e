-- ===== src/Control/Effects.antt =====
-- The sessions that the effects of a control connection (src/control/server.rs) create and remove.
use baffle.Prelude.{◌≡◌, inl, inr, refl, ap, List, [], ◌∷◌, ◌++◌, Bool-cases, if◌then◌else◌}
use baffle.Prelude.Text.{Bytes}
use baffle.Control.Connection.{Effect, creates, stops, reloads, reloads_all, lists, removes}

-- The sessions that live as long as the connection that created them, and those that were removed.
unfoldable pub leased : List Effect → List Bytes
leased [] = []
leased (creates session source ∷ effects) =
    let later = leased effects in if session.persistent then later else session.id ∷ later
leased (stops id ∷ effects) = leased effects
leased (reloads id ∷ effects) = leased effects
leased (reloads_all ∷ effects) = leased effects
leased (lists ∷ effects) = leased effects
leased (removes id reason ∷ effects) = leased effects

unfoldable pub removed : List Effect → List Bytes
removed [] = []
removed (removes id reason ∷ effects) = id ∷ removed effects
removed (creates session source ∷ effects) = removed effects
removed (stops id ∷ effects) = removed effects
removed (reloads id ∷ effects) = removed effects
removed (reloads_all ∷ effects) = removed effects
removed (lists ∷ effects) = removed effects

pub leased-append : (xs ys : List Effect) → leased (xs ++ ys) ≡ leased xs ++ leased ys
unfolding leased
leased-append [] ys = refl
leased-append (creates session source ∷ xs) ys = elim (Bool-cases session.persistent) [
  | inl kept ↦ rw kept (leased-append xs ys)
  | inr held ↦ rw held (ap (◌∷◌ session.id) (leased-append xs ys))
]
leased-append (stops id ∷ xs) ys = leased-append xs ys
leased-append (reloads id ∷ xs) ys = leased-append xs ys
leased-append (reloads_all ∷ xs) ys = leased-append xs ys
leased-append (lists ∷ xs) ys = leased-append xs ys
leased-append (removes id reason ∷ xs) ys = leased-append xs ys

pub removed-append : (xs ys : List Effect) → removed (xs ++ ys) ≡ removed xs ++ removed ys
unfolding removed
removed-append [] ys = refl
removed-append (removes id reason ∷ xs) ys = ap (◌∷◌ id) (removed-append xs ys)
removed-append (creates session source ∷ xs) ys = removed-append xs ys
removed-append (stops id ∷ xs) ys = removed-append xs ys
removed-append (reloads id ∷ xs) ys = removed-append xs ys
removed-append (reloads_all ∷ xs) ys = removed-append xs ys
removed-append (lists ∷ xs) ys = removed-append xs ys

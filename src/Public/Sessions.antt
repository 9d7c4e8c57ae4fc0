-- ===== src/Public/Sessions.antt =====
-- The map of the sessions that hold text: its size, and what it holds.
use portcode.Common.{
  ◌+◌, ◌≤◌, ◌≡◌, refl, List, [], ◌∷◌, inl, inr, arith, if◌then◌else◌, is_some, unwrap_or,
  Bool-cases, Text, length, All, same,
}
use portcode.Public.Stream.{
  PendingText, PhoneEventProjector, default_pending, get_pending, set_pending, remove_pending,
}
use portcode.Public.Held.{IsHeld}

-- A projector holds text for at most 32 sessions, each within its bound.
pub record IsBounded (p : PhoneEventProjector) : Type 0 where
  pub sessions : length p.pending ≤ 32
  pub texts : All (λ (e : Text × PendingText). IsHeld e.1) p.pending

pub get_pending-IsHeld :
    (k : Text) (m : List (Text × PendingText))
    → All (λ (e : Text × PendingText). IsHeld e.1) m
    → IsHeld (unwrap_or (get_pending k m) default_pending)
unfolding get_pending
get_pending-IsHeld k [] h = inr (omega arith)
get_pending-IsHeld k ((j, p) ∷ m) (v, h) = elim (Bool-cases (same j k)) [
  | inl e ↦ rw e v
  | inr e ↦ rw e (get_pending-IsHeld k m h)
]

pub set_pending-IsHeld :
    (k : Text) (p : PendingText) (m : List (Text × PendingText))
    → IsHeld p
    → All (λ (e : Text × PendingText). IsHeld e.1) m
    → All (λ (e : Text × PendingText). IsHeld e.1) (set_pending k p m)
unfolding set_pending
set_pending-IsHeld k p [] v h = (v, tt)
set_pending-IsHeld k p ((j, q) ∷ m) v (u, h) = elim (Bool-cases (same j k)) [
  | inl e ↦ rw e (v, h)
  | inr e ↦ rw e (u, set_pending-IsHeld k p m v h)
]

pub length-set_pending :
    (k : Text) (p : PendingText) (m : List (Text × PendingText))
    → length (set_pending k p m) ≡ (if is_some (get_pending k m) then length m else length m + 1)
unfolding set_pending get_pending
length-set_pending k p [] = refl
length-set_pending k p ((j, q) ∷ m) = ground (arith, length-set_pending k p m)

pub remove_pending-IsHeld :
    (k : Text) (m : List (Text × PendingText))
    → All (λ (e : Text × PendingText). IsHeld e.1) m
    → All (λ (e : Text × PendingText). IsHeld e.1) (remove_pending k m)
      × (length (remove_pending k m) ≤ length m)
unfolding remove_pending
remove_pending-IsHeld k [] h = (tt, omega arith)
remove_pending-IsHeld k ((j, q) ∷ m) (u, h) =
    let (rest, less) = remove_pending-IsHeld k m h in
    elim (Bool-cases (same j k)) [
      | inl e ↦ rw e (h, omega arith)
      | inr e ↦ rw e ((u, rest), omega arith)
    ]

-- ===== src/Codex/Queue.antt =====
-- codex_engine.rs: `DeferredQueue`, the events that wait for the route of their thread. `Event` is what
-- the queue carries, `Incoming`.
use portcode.Common.{
  ℕ, zero, suc, ◌-◌, ◌*◌, Bool, true, false, not, ◌||◌, List, [], ◌∷◌, ◌++◌, Option, none, some,
  option_map, ltb, leb, if◌then◌else◌, length, saturating_add,
}

abbrev pub max_deferred_events_per_thread : ℕ
max_deferred_events_per_thread = 512

abbrev pub max_deferred_bytes_per_thread : ℕ
max_deferred_bytes_per_thread = 512 * 1024

-- `VecDeque::remove` and `iter().position(..)`
module _ {A : Type 0} where
  unfoldable pub remove_at : ℕ → List A → Option (A × List A)
  remove_at i [] = none
  remove_at zero (x ∷ xs) = some (x, xs)
  remove_at (suc i) (x ∷ xs) = elim (remove_at i xs) [
    | none ↦ none
    | some (y, ys) ↦ some (y, x ∷ ys)
  ]

  unfoldable pub position : (A → Bool) → List A → Option ℕ
  position p [] = none
  position p (x ∷ xs) = let rest = position p xs in if p x then some 0 else option_map suc rest

pub record DeferredEvent (Event : Type 0) : Type 0 where
  pub incoming : Event
  pub encoded_bytes : ℕ
  pub terminal : Bool

pub record DeferredQueue (Event : Type 0) : Type 0 where
  pub events : List (DeferredEvent Event)
  pub encoded_bytes : ℕ

-- What one round of the loop does.
pub data Round : Type 0 where
  push : Round
  refuse : Round
  evict : (index : ℕ) → Round

abbrev pub replacement : Bool → Option ℕ → Round
replacement terminal (some index) = evict index
replacement true none = evict 0
replacement false none = refuse

module _ {Event : Type 0} where
  abbrev pub empty_queue : DeferredQueue Event
  empty_queue = record { events = []; encoded_bytes = 0 }

  abbrev pub len : DeferredQueue Event → ℕ
  len q = length q.events

  abbrev after_remove :
      DeferredQueue Event
      → Option (DeferredEvent Event × List (DeferredEvent Event))
      → Option (DeferredEvent Event) × DeferredQueue Event
  after_remove q none = (none, q)
  after_remove q (some (event, events)) = (
    some event,
    record { events = events; encoded_bytes = q.encoded_bytes - event.encoded_bytes },
  )

  unfoldable pub remove :
      ℕ → DeferredQueue Event → Option (DeferredEvent Event) × DeferredQueue Event
  remove index q = after_remove q (remove_at index q.events)

  unfoldable pub push_back : DeferredEvent Event → DeferredQueue Event → DeferredQueue Event
  push_back event q = record {
    events = q.events ++ (event ∷ []);
    encoded_bytes = saturating_add q.encoded_bytes event.encoded_bytes;
  }

  -- The loop's condition.
  unfoldable pub is_saturated : DeferredEvent Event → DeferredQueue Event → Bool
  is_saturated event q =
      leb max_deferred_events_per_thread (len q)
      || ltb max_deferred_bytes_per_thread (saturating_add q.encoded_bytes event.encoded_bytes)

  unfoldable pub round : DeferredEvent Event → DeferredQueue Event → Round
  round event q =
      if is_saturated event q
      then replacement event.terminal (position (λ queued. not queued.terminal) q.events)
      else push

  -- The loop on fuel; none when the fuel is spent.
  unfoldable pub enqueue_loop :
      ℕ → DeferredEvent Event → DeferredQueue Event → Option (Bool × DeferredQueue Event)
  enqueue_loop zero event q = none
  enqueue_loop (suc fuel) event q = elim (round event q) [
    | push ↦ some (true, push_back event q)
    | refuse ↦ some (false, q)
    | evict index ↦ enqueue_loop fuel event (remove index q).1
  ]

  unfoldable pub enqueue :
      DeferredEvent Event → DeferredQueue Event → Option (Bool × DeferredQueue Event)
  enqueue event q =
      if ltb max_deferred_bytes_per_thread event.encoded_bytes
      then some (false, q)
      else enqueue_loop (suc (len q)) event q

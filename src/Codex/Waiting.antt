-- ===== src/Codex/Waiting.antt =====
-- codex_engine.rs: the deferred queues of all threads, and the storing of an event whose thread has no
-- route yet. The `HashMap` is a list of its entries in the order in which it would iterate; as its keys
-- are unique, the entry that a search finds is the one that is changed or removed.
use portcode.Common.{
  ℕ, zero, suc, ◌+◌, ◌*◌, Bool, true, false, not, ◌&&◌, ◌||◌, List, [], ◌∷◌, Option, none, some,
  option_map, unwrap_or, is_some, ltb, leb, if◌then◌else◌, length, all, saturating_add, Text, same,
  map_get,
}
use portcode.Codex.Queue.{
  DeferredEvent, DeferredQueue, empty_queue, len, position, remove, is_saturated, enqueue,
}

abbrev pub max_deferred_threads : ℕ
max_deferred_threads = 128

abbrev pub max_deferred_bytes_total : ℕ
max_deferred_bytes_total = 8 * 1024 * 1024

abbrev pub DeferredMap : Type 0 → Type 0
DeferredMap Event = List (Text × DeferredQueue Event)

module _ {Event : Type 0} where
  unfoldable pub deferred_total_bytes : DeferredMap Event → ℕ
  deferred_total_bytes [] = 0
  deferred_total_bytes ((thread_id, queue) ∷ m) =
      saturating_add queue.encoded_bytes (deferred_total_bytes m)

  abbrev pub terminal_count : List (DeferredEvent Event) → ℕ
  terminal_count [] = 0
  terminal_count (e ∷ es) = if e.terminal then suc (terminal_count es) else terminal_count es

  abbrev pub only_diagnostics : DeferredQueue Event → Bool
  only_diagnostics queue = all (λ (e : DeferredEvent Event). not e.terminal) queue.events

  -- `find(..)` and the removal of what it finds
  unfoldable pub remove_diagnostic_thread : DeferredMap Event → Option (DeferredMap Event)
  remove_diagnostic_thread [] = none
  remove_diagnostic_thread ((thread_id, queue) ∷ m) =
      let rest = remove_diagnostic_thread m in
      if only_diagnostics queue then some m else option_map (◌∷◌ (thread_id, queue)) rest

  -- `min_by_key(..)`, the first of the least counts, and its removal: the least count, and the map
  -- without its entry.
  unfoldable pub remove_least : DeferredMap Event → Option (ℕ × DeferredMap Event)
  remove_least [] = none
  remove_least ((thread_id, queue) ∷ m) = elim (remove_least m) [
    | none ↦ some (terminal_count queue.events, m)
    | some (least, fewer) ↦
        if leb (terminal_count queue.events) least
        then some (terminal_count queue.events, m)
        else some (least, (thread_id, queue) ∷ fewer)
  ]

  abbrev pub evicted : Option (DeferredMap Event) → DeferredMap Event → Bool × DeferredMap Event
  evicted none m = (false, m)
  evicted (some fewer) m = (true, fewer)

  unfoldable pub evict_deferred_thread_for_terminal : DeferredMap Event → Bool × DeferredMap Event
  evict_deferred_thread_for_terminal m =
      if is_some (remove_diagnostic_thread m)
      then evicted (remove_diagnostic_thread m) m
      else evicted (option_map (λ r. r.1) (remove_least m)) m

  abbrev pub without : Text → DeferredQueue Event → DeferredMap Event → DeferredMap Event
  without thread_id queue m = elim queue.events [ [] ↦ m | _ ∷ _ ↦ (thread_id, queue) ∷ m ]

  unfoldable pub evict_deferred_diagnostic : DeferredMap Event → Option (DeferredMap Event)
  evict_deferred_diagnostic [] = none
  evict_deferred_diagnostic ((thread_id, queue) ∷ m) =
      elim (position (λ (e : DeferredEvent Event). not e.terminal) queue.events) [
        | some index ↦ some (without thread_id (remove index queue).1 m)
        | none ↦ option_map (◌∷◌ (thread_id, queue)) (evict_deferred_diagnostic m)
      ]

  abbrev pub without_first : DeferredMap Event → Option (DeferredMap Event)
  without_first [] = none
  without_first (e ∷ m) = some m

  -- A round of the loop below: a diagnostic goes, or else a thread.
  abbrev pub trim_round : DeferredMap Event → Option (DeferredMap Event)
  trim_round m = elim (evict_deferred_diagnostic m) [
    | some fewer ↦ some fewer
    | none ↦ without_first m
  ]

  -- The loop that brings the total within its bound, on fuel; none when the fuel is spent.
  unfoldable pub trim_total : ℕ → Bool → DeferredMap Event → Option (Bool × DeferredMap Event)
  trim_total zero overflowed m = none
  trim_total (suc fuel) overflowed m =
      elim (ltb max_deferred_bytes_total (deferred_total_bytes m)) [
        | false ↦ some (overflowed, m)
        | true ↦ elim (trim_round m) [
          | none ↦ some (overflowed, m)
          | some fewer ↦ trim_total fuel true fewer
        ]
      ]

  -- `entry(thread_id)`
  unfoldable pub put_queue : Text → DeferredQueue Event → DeferredMap Event → DeferredMap Event
  put_queue thread_id queue [] = (thread_id, queue) ∷ []
  put_queue thread_id queue ((t, q) ∷ m) =
      let rest = put_queue thread_id queue m in
      if same t thread_id then (t, queue) ∷ m else (t, q) ∷ rest

  abbrev pub event_count : DeferredMap Event → ℕ
  event_count [] = 0
  event_count ((thread_id, queue) ∷ m) = len queue + event_count m

  abbrev pub trimmed : Bool → DeferredMap Event → Option (Bool × DeferredMap Event)
  trimmed overflowed m = trim_total (suc (event_count m + length m)) overflowed m

  -- The thread's queue takes the event.
  unfoldable pub store :
      Text → DeferredEvent Event → Bool × DeferredMap Event → Option (Bool × DeferredMap Event)
  store thread_id event (overflowed, m) =
      if ltb (length m) max_deferred_threads || is_some (map_get thread_id m)
      then (let queue = unwrap_or (map_get thread_id m) empty_queue in
          elim (enqueue event queue) [
            | none ↦ none
            | some (inserted, after) ↦
                trimmed (overflowed || (is_saturated event queue || not inserted))
                  (put_queue thread_id after m)
          ])
      else some (overflowed, m)

  -- Whether the bounds cost any event (or refused this one), and the queues behind it.
  unfoldable pub defer :
      Text → DeferredEvent Event → DeferredMap Event → Option (Bool × DeferredMap Event)
  defer thread_id event m =
      if not (is_some (map_get thread_id m)) && leb max_deferred_threads (length m)
      then (if event.terminal
          then store thread_id event (evict_deferred_thread_for_terminal m)
          else store thread_id event (true, m))
      else store thread_id event (false, m)

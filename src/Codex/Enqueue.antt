-- ===== src/Codex/Enqueue.antt =====
-- The deferred queue's loop ends, and makes room in the order that `Admits` states.
use portcode.Common.{
  ℕ, zero, suc, ◌+◌, ◌≤◌, ◌<◌, ◌≡◌, ◌≢◌, ◌∙◌, ltb, refl, ap, subst, Bool, true, false, List, [],
  ◌∷◌, ◌++◌, Option, none, some, inl, inr, arith, length, Bool-cases, length-append,
}
use portcode.Codex.{
  max_deferred_bytes_per_thread, remove_at, DeferredEvent, DeferredQueue, len, remove, push_back,
  is_saturated, Round, replacement, round, enqueue_loop, enqueue,
}
use portcode.Codex.Room.{
  total, IsBounded, Evicts, diagnostic, oldest, Admits, appended, refused, evicting, Position,
  position_lem, saturated_iff, push_back-IsBounded, remove-IsBounded, total-append,
}

module _ {Event : Type 0} where
  -- How an event's enqueueing ends.
  pub record Enqueued (result : Option (Bool × DeferredQueue Event)) (event : DeferredEvent Event)
      (q : DeferredQueue Event) : Type 0 where
    pub inserted : Bool
    pub after : DeferredQueue Event
    pub ends : result ≡ some (inserted, after)
    pub bounded : IsBounded after
    pub admits : Admits event q.events inserted after.events

  -- A round that evicts, and then the rest of the loop.
  evicted_lem :
      (fuel index : ℕ) (event e : DeferredEvent Event) (q : DeferredQueue Event)
      (fewer : List (DeferredEvent Event))
      → IsBounded q
      → is_saturated event q ≡ true
      → event.encoded_bytes ≤ max_deferred_bytes_per_thread
      → round event q ≡ Round.evict index
      → remove_at index q.events ≡ some (e, fewer)
      → total q.events ≡ e.encoded_bytes + total fewer
      → length q.events ≡ suc (length fewer)
      → Evicts event.terminal q.events fewer
      → (IsBounded (remove index q).1
          → len (remove index q).1 < fuel
          → Enqueued (enqueue_loop fuel event (remove index q).1) event (remove index q).1)
      → len q < suc fuel
      → Enqueued (enqueue_loop (suc fuel) event q) event q
  unfolding enqueue_loop
  evicted_lem fuel index event e q fewer w s h r a t l v ih enough =
      let (same_events, b) = remove-IsBounded index q e fewer w a t l in
      let rest = ih b (rw same_events (omega arith)) in
      record {
        inserted = rest.inserted;
        after = rest.after;
        ends = rw (enqueue_loop, r) rest.ends;
        bounded = rest.bounded;
        admits =
            evicting q.events fewer rest.after.events rest.inserted
              (λ room. let no = (saturated_iff event q w h).1 room in cc) v
              (subst (λ es. Admits event es rest.inserted rest.after.events) same_events
                rest.admits);
      }

  not_empty :
      (event : DeferredEvent Event) (q : DeferredQueue Event)
      → IsBounded q
      → event.encoded_bytes ≤ max_deferred_bytes_per_thread
      → is_saturated event q ≡ true
      → q.events ≢ []
  not_empty event q w h s none_left =
      let l = ap length none_left in
      let t = ap total none_left in
      let room = (saturated_iff event q w h).1 (omega (arith, l), omega (arith, t)) in cc

  LoopEnds : ℕ → DeferredEvent Event → Type 0
  LoopEnds fuel event =
      (q : DeferredQueue Event)
      → IsBounded q
      → len q < fuel
      → Enqueued (enqueue_loop fuel event q) event q

  saturated_lem :
      (fuel : ℕ) (event : DeferredEvent Event) (q : DeferredQueue Event) (found : Option ℕ)
      (terminal : Bool) (es : List (DeferredEvent Event))
      → IsBounded q
      → is_saturated event q ≡ true
      → event.encoded_bytes ≤ max_deferred_bytes_per_thread
      → q.events ≡ es
      → event.terminal ≡ terminal
      → round event q ≡ replacement terminal found
      → Position found es
      → LoopEnds fuel event
      → len q < suc fuel
      → Enqueued (enqueue_loop (suc fuel) event q) event q
  unfolding enqueue_loop LoopEnds remove_at
  saturated_lem fuel event q (some index) terminal es w s h e t r p ih enough =
      let splits : q.events ≡ p.before ++ p.found ∷ p.behind = e ∙ p.splits in
      let total_splits = ap total splits in
      let length_splits = ap length splits in
      evicted_lem fuel index event p.found q (p.before ++ p.behind) w s h r (rw e p.removes)
        (omega (
          arith,
          total_splits,
          total-append p.before (p.found ∷ p.behind),
          total-append p.before p.behind,
        ))
        (omega (
          arith,
          length_splits,
          length-append p.before (p.found ∷ p.behind),
          length-append p.before p.behind,
        ))
        (rw splits (diagnostic p.before p.found p.behind p.earlier p.is_diagnostic))
        (ih (remove index q).1) enough
  saturated_lem fuel event q none true [] w s h e t r p ih enough =
      absurd (not_empty event q w h s e)
  saturated_lem fuel event q none true (x ∷ es) w s h e t r p ih enough =
      evicted_lem fuel 0 event x q es w s h r (rw e refl) (ap total e) (ap length e)
        (rw e (oldest x es p t)) (ih (remove 0 q).1) enough
  saturated_lem fuel event q none false es w s h e t r p ih enough = record {
    inserted = false;
    after = q;
    ends = rw (enqueue_loop, r) refl;
    bounded = w;
    admits =
        refused q.events (λ room. let no = (saturated_iff event q w h).1 room in cc) (rw e p) t;
  }

  loop_lem :
      (fuel : ℕ) (event : DeferredEvent Event)
      → event.encoded_bytes ≤ max_deferred_bytes_per_thread
      → LoopEnds fuel event
  unfolding enqueue_loop LoopEnds round push_back
  loop_lem zero event h q w enough = absurd (omega arith)
  loop_lem (suc fuel) event h q w enough = elim (Bool-cases (is_saturated event q)) [
    | inl s ↦
        saturated_lem fuel event q _ event.terminal q.events w s h refl refl (rw s refl)
          (position_lem q.events) (loop_lem fuel event h) enough
    | inr room ↦
        let free = (saturated_iff event q w h).0 room in
        record {
          inserted = true;
          after = push_back event q;
          ends = rw (enqueue_loop, round, room) refl;
          bounded = push_back-IsBounded event q w free;
          admits = appended q.events free;
        }
  ]

  -- Enqueueing an event that is not too large on its own ends, leaves a bounded queue bounded, and does
  -- what `Admits` says: the event is appended behind the fewest evictions that give it room, the oldest
  -- diagnostics first and terminal events only for a terminal one, or is refused if it is no terminal
  -- event and terminal ones fill the queue.
  pub enqueue-Enqueued :
      (event : DeferredEvent Event) (q : DeferredQueue Event)
      → IsBounded q
      → event.encoded_bytes ≤ max_deferred_bytes_per_thread
      → Enqueued (enqueue event q) event q
  unfolding enqueue LoopEnds
  enqueue-Enqueued event q w h =
      let within : ltb max_deferred_bytes_per_thread event.encoded_bytes ≡ false = ground arith in
      rw within (loop_lem (suc (len q)) event h q w (omega arith))

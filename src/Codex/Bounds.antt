-- ===== src/Codex/Bounds.antt =====
-- The bounds on the deferred queues of all threads, and that storing an event ends.
use portcode.Common.{
  ℕ, suc, ◌+◌, ◌≤◌, ◌<◌, ◌≡◌, refl, ap, Bool, true, false, not, [], ◌∷◌, Option, none, some, inl,
  inr, arith, length, Bool-cases, ltb-false, leb→le, lt→ltb, option_map, ltb, leb, Text, same,
  map_get, is_some, unwrap_or, ◌||◌, if◌then◌else◌,
}
use portcode.Codex.{
  DeferredEvent, DeferredQueue, empty_queue, enqueue, max_deferred_threads,
  max_deferred_bytes_per_thread, DeferredMap, remove_diagnostic_thread, only_diagnostics,
  terminal_count, evicted, is_saturated, remove_least, evict_deferred_thread_for_terminal,
  put_queue, event_count, trimmed, store, defer,
}
use portcode.Codex.Room.{IsBounded}
use portcode.Codex.Enqueue.{enqueue-Enqueued}
use portcode.Codex.Trim.{AllBounded, IsBoundedMap, trim_total_lem}

module _ {Event : Type 0} where
  put_queue_lem :
      (thread_id : Text) (q : DeferredQueue Event) (m : DeferredMap Event)
      → IsBounded q
      → AllBounded m
      → AllBounded (put_queue thread_id q m) × (length (put_queue thread_id q m) ≤ suc (length m))
  unfolding put_queue
  put_queue_lem thread_id q [] b h = ((b, tt), omega arith)
  put_queue_lem thread_id q ((t, p) ∷ m) b (c, h) =
      let (k, l) = put_queue_lem thread_id q m b h in
      elim (Bool-cases (same t thread_id)) [
        | inl e ↦ rw e ((b, h), omega arith)
        | inr e ↦ rw e ((c, k), omega (arith, l))
      ]

  -- A thread that has a queue gets no second one.
  length-put_queue :
      (thread_id : Text) (q : DeferredQueue Event) (m : DeferredMap Event)
      → is_some (map_get thread_id m) ≡ true
      → length (put_queue thread_id q m) ≡ length m
  unfolding put_queue map_get
  length-put_queue thread_id q [] h = absurd cc
  length-put_queue thread_id q ((t, p) ∷ m) h = elim (Bool-cases (same t thread_id)) [
    | inl e ↦ rw e refl
    | inr e ↦ rw e (ap suc (length-put_queue thread_id q m (rw e at h)))
  ]

  found_lem :
      (thread_id : Text) (m : DeferredMap Event)
      → AllBounded m
      → IsBounded (unwrap_or (map_get thread_id m) empty_queue)
  unfolding map_get
  found_lem thread_id [] h = record { counted = refl; few = omega arith; small = omega arith }
  found_lem thread_id ((t, q) ∷ m) (b, h) = elim (Bool-cases (same t thread_id)) [
    | inl e ↦ rw e b
    | inr e ↦ rw e (found_lem thread_id m h)
  ]

  -- How storing ends.
  pub record Deferred (result : Option (Bool × DeferredMap Event)) : Type 0 where
    pub overflowed : Bool
    pub after : DeferredMap Event
    pub ends : result ≡ some (overflowed, after)
    pub bounded : IsBoundedMap after

  room_lem :
      (thread_id : Text) (q : DeferredQueue Event) (m : DeferredMap Event)
      → length m ≤ max_deferred_threads
      → (ltb (length m) max_deferred_threads || is_some (map_get thread_id m)) ≡ true
      → IsBounded q
      → AllBounded m
      → length (put_queue thread_id q m) ≤ max_deferred_threads
  room_lem thread_id q m n r b h = elim (Bool-cases (is_some (map_get thread_id m))) [
    | inl known ↦ omega (arith, length-put_queue thread_id q m known)
    | inr new ↦
        let (k, l) = put_queue_lem thread_id q m b h in let t = rw new at r in ground (arith, l)
  ]

  -- The rest of storing, when the queue has answered.
  trimmed_lem :
      (overflowed : Bool) (m : DeferredMap Event)
      → AllBounded m
      → length m ≤ max_deferred_threads
      → Deferred (trimmed overflowed m)
  trimmed_lem overflowed m h n =
      let t = trim_total_lem (suc (event_count m + length m)) overflowed m h (omega arith) in
      record {
        overflowed = t.overflowed;
        after = t.after;
        ends = t.ends;
        bounded = record { queues = t.queues; threads = omega (arith, t.threads); total = t.total };
      }

  -- Enqueueing ends and leaves the queue bounded, however large the event.
  enqueue_any :
      (event : DeferredEvent Event) (q : DeferredQueue Event)
      → IsBounded q
      → (inserted : Bool) × (after : DeferredQueue Event) × (enqueue event q
          ≡ some (inserted, after))
        × IsBounded after
  unfolding enqueue
  enqueue_any event q b =
      elim (Bool-cases (ltb max_deferred_bytes_per_thread event.encoded_bytes)) [
        | inl over ↦ (false, q, rw over refl, b)
        | inr within ↦
            let r = enqueue-Enqueued event q b (ltb-false _ _ within) in
            (r.inserted, r.after, r.ends, r.bounded)
      ]

  store_lem :
      (thread_id : Text) (event : DeferredEvent Event) (overflowed : Bool) (m : DeferredMap Event)
      → AllBounded m
      → length m ≤ max_deferred_threads
      → (ltb (length m) max_deferred_threads || is_some (map_get thread_id m)) ≡ true
      → Deferred (store thread_id event (overflowed, m))
  unfolding store
  store_lem thread_id event overflowed m h n r =
      let queue = unwrap_or (map_get thread_id m) empty_queue in
      let (inserted, after, e, b) = enqueue_any event queue (found_lem thread_id m h) in
      let (k, l) = put_queue_lem thread_id after m b h in
      rw (r, e)
        (trimmed_lem (overflowed || (is_saturated event queue || not inserted))
          (put_queue thread_id after m) k (room_lem thread_id after m n r b h))

  abbrev Fewer : DeferredMap Event → Option (DeferredMap Event) → Type 0
  Fewer m none = Unit {0}
  Fewer m (some out) = AllBounded out × (suc (length out) ≡ length m)

  Fewer-cons :
      (e : Text × DeferredQueue Event) (m : DeferredMap Event) (r : Option (DeferredMap Event))
      → IsBounded e.1
      → Fewer m r
      → Fewer (e ∷ m) (option_map (◌∷◌ e) r)
  Fewer-cons e m none b h = tt
  Fewer-cons e m (some out) b (h, l) = ((b, h), ap suc l)

  remove_diagnostic_thread_lem :
      (m : DeferredMap Event) → AllBounded m → Fewer m (remove_diagnostic_thread m)
  unfolding remove_diagnostic_thread
  remove_diagnostic_thread_lem [] h = tt
  remove_diagnostic_thread_lem ((t, q) ∷ m) (b, h) = elim (Bool-cases (only_diagnostics q)) [
    | inl e ↦ rw e (h, refl)
    | inr e ↦ rw e (Fewer-cons (t, q) m _ b (remove_diagnostic_thread_lem m h))
  ]

  abbrev Least : DeferredMap Event → Option (ℕ × DeferredMap Event) → Type 0
  Least m none = m ≡ []
  Least m (some (least, out)) = AllBounded out × (suc (length out) ≡ length m)

  remove_least_lem : (m : DeferredMap Event) → AllBounded m → Least m (remove_least m)
  unfolding remove_least
  remove_least_lem [] h = refl
  remove_least_lem ((t, q) ∷ m) (b, h) = chosen (remove_least m) t q m b h (remove_least_lem m h)
    where
      chosen :
          (r : Option (ℕ × DeferredMap Event)) (t : Text) (q : DeferredQueue Event)
          (m : DeferredMap Event)
          → IsBounded q
          → AllBounded m
          → Least m r
          → Least ((t, q) ∷ m) (elim r [
            | none ↦ some (terminal_count q.events, m)
            | some (least, fewer) ↦
                if leb (terminal_count q.events) least
                then some (terminal_count q.events, m)
                else some (least, (t, q) ∷ fewer)
          ])
      chosen none t q m b h l = (h, refl)
      chosen (some (least, fewer)) t q m b h (k, l) =
          elim (Bool-cases (leb (terminal_count q.events) least)) [
            | inl e ↦ rw e (h, refl)
            | inr e ↦ rw e ((b, k), ap suc l)
          ]

  -- An eviction for a terminal event frees a thread's place.
  evict_deferred_thread_lem :
      (m : DeferredMap Event)
      → AllBounded m
      → 1 ≤ length m
      → AllBounded (evict_deferred_thread_for_terminal m).1
        × (suc (length (evict_deferred_thread_for_terminal m).1) ≡ length m)
  unfolding evict_deferred_thread_for_terminal
  evict_deferred_thread_lem m h n =
      at_found (remove_diagnostic_thread m) (remove_least m) m n (remove_diagnostic_thread_lem m h)
        (remove_least_lem m h)
    where
      at_found :
          (found : Option (DeferredMap Event)) (least : Option (ℕ × DeferredMap Event))
          (m : DeferredMap Event)
          → 1 ≤ length m
          → Fewer m found
          → Least m least
          → let out =
              (if is_some found
                then evicted found m
                else evicted (option_map (λ r. r.1) least) m) in
            AllBounded out.1 × (suc (length out.1) ≡ length m)
      at_found (some out) least m n f l = f
      at_found none (some (k, out)) m n f l = l
      at_found none none m n f l = let e = ap length l in absurd (omega (arith, e))

  store_room :
      (thread_id : Text) (event : DeferredEvent Event) (r : Bool × DeferredMap Event)
      → AllBounded r.1
      → length r.1 < max_deferred_threads
      → Deferred (store thread_id event r)
  store_room thread_id event (overflowed, m) h n =
      let t : ltb (length m) max_deferred_threads ≡ true = lt→ltb _ _ n in
      store_lem thread_id event overflowed m h (omega arith) (ground (arith, t))

  -- An event is dropped when the table of threads is full.
  store_full :
      (thread_id : Text) (event : DeferredEvent Event) (overflowed : Bool) (m : DeferredMap Event)
      → IsBoundedMap m
      → is_some (map_get thread_id m) ≡ false
      → max_deferred_threads ≤ length m
      → Deferred (store thread_id event (overflowed, m))
  unfolding store
  store_full thread_id event overflowed m w new full =
      let t : ltb (length m) max_deferred_threads ≡ false = ground arith in
      record { overflowed = overflowed; after = m; ends = rw (t, new) refl; bounded = w }

  either :
      (c : Bool) (r s : Option (Bool × DeferredMap Event))
      → Deferred r
      → Deferred s
      → Deferred (if c then r else s)
  either true r s h k = h
  either false r s h k = k

  -- Storing an event of a thread that has no route ends and keeps the bounds: at most 128 threads, each
  -- with at most 512 events and 512 KiB, and 8 MiB in all.
  pub defer-IsBoundedMap :
      (thread_id : Text) (event : DeferredEvent Event) (m : DeferredMap Event)
      → IsBoundedMap m
      → Deferred (defer thread_id event m)
  unfolding defer
  defer-IsBoundedMap thread_id event m w = elim (Bool-cases (is_some (map_get thread_id m))) [
    | inl known ↦ rw known (store_lem thread_id event false m w.queues w.threads (ground arith))
    | inr new ↦ elim (Bool-cases (leb max_deferred_threads (length m))) [
      | inr room ↦
          rw (new, room) (store_lem thread_id event false m w.queues w.threads (ground arith))
      | inl full ↦
          let (h, l) = evict_deferred_thread_lem m w.queues (omega (arith, leb→le _ _ full)) in
          rw (new, full)
            (either event.terminal _ _
              (store_room thread_id event (evict_deferred_thread_for_terminal m) h
                (omega (arith, l, w.threads)))
              (store_full thread_id event true m w new (leb→le _ _ full)))
    ]
  ]

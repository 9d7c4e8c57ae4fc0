-- ===== src/Codex/Trim.antt =====
-- Trimming the deferred queues ends, within the bound on their total.
use portcode.Common.{
  ℕ, zero, suc, ◌+◌, ◌≤◌, ◌<◌, ◌≡◌, refl, ap, Bool, true, List, [], ◌∷◌, Option, none, some, inl,
  inr, arith, length, All, Bool-cases, ltb→lt, ltb-false, Option-cases, option_map, ltb, Text,
}
use portcode.Codex.{
  DeferredEvent, DeferredQueue, len, remove, max_deferred_threads, max_deferred_bytes_total,
  DeferredMap, deferred_total_bytes, without, evict_deferred_diagnostic, without_first, trim_round,
  trim_total, event_count,
}
use portcode.Codex.Room.{IsBounded, Position, position_lem, remove_diagnostic}

module _ {Event : Type 0} where
  abbrev pub AllBounded : DeferredMap Event → Type 0
  AllBounded m = All (λ (e : Text × DeferredQueue Event). IsBounded e.1) m

  -- At most 128 threads, each with at most 512 events and 512 KiB, and 8 MiB in all.
  pub record IsBoundedMap (m : DeferredMap Event) : Type 0 where
    pub queues : AllBounded m
    pub threads : length m ≤ max_deferred_threads
    pub total : deferred_total_bytes m ≤ max_deferred_bytes_total

  -- A map with fewer events or fewer threads.
  record Shrinks (m out : DeferredMap Event) : Type 0 where
    queues : AllBounded out
    threads : length out ≤ length m
    fewer : event_count out + length out < event_count m + length m

  without_lem :
      (thread_id : Text) (q left : DeferredQueue Event) (m : DeferredMap Event)
      (es : List (DeferredEvent Event))
      → IsBounded left
      → len q ≡ suc (len left)
      → AllBounded m
      → Shrinks ((thread_id, q) ∷ m) (elim es [ [] ↦ m | _ ∷ _ ↦ (thread_id, left) ∷ m ])
  without_lem thread_id q left m [] b l h = record {
    queues = h;
    threads = omega arith;
    fewer = omega (arith, l);
  }
  without_lem thread_id q left m (e ∷ es) b l h = record {
    queues = (b, h);
    threads = omega arith;
    fewer = omega (arith, l);
  }

  abbrev RoundOf : DeferredMap Event → Option (DeferredMap Event) → Type 0
  RoundOf m none = Unit {0}
  RoundOf m (some fewer) = Shrinks m fewer

  behind_lem :
      (e : Text × DeferredQueue Event) (m : DeferredMap Event) (r : Option (DeferredMap Event))
      → IsBounded e.1
      → RoundOf m r
      → RoundOf (e ∷ m) (option_map (◌∷◌ e) r)
  behind_lem e m none b h = tt
  behind_lem e m (some fewer) b h = record {
    queues = (b, h.queues);
    threads = omega (arith, h.threads);
    fewer = omega (arith, h.fewer);
  }

  at_position :
      (found : Option ℕ) (thread_id : Text) (q : DeferredQueue Event) (m : DeferredMap Event)
      → IsBounded q
      → AllBounded m
      → Position found q.events
      → RoundOf m (evict_deferred_diagnostic m)
      → RoundOf ((thread_id, q) ∷ m) (elim found [
        | some index ↦ some (without thread_id (remove index q).1 m)
        | none ↦ option_map (◌∷◌ (thread_id, q)) (evict_deferred_diagnostic m)
      ])
  at_position (some index) thread_id q m b h p r =
      let (left, l) = remove_diagnostic index q b p in
      without_lem thread_id q (remove index q).1 m (remove index q).1.events left l h
  at_position none thread_id q m b h p r = behind_lem (thread_id, q) m _ b r

  evict_deferred_diagnostic_lem :
      (m : DeferredMap Event) → AllBounded m → RoundOf m (evict_deferred_diagnostic m)
  unfolding evict_deferred_diagnostic
  evict_deferred_diagnostic_lem [] h = tt
  evict_deferred_diagnostic_lem ((thread_id, q) ∷ m) (b, h) =
      at_position _ thread_id q m b h (position_lem q.events) (evict_deferred_diagnostic_lem m h)

  trim_round_lem : (m : DeferredMap Event) → AllBounded m → RoundOf m (trim_round m)
  trim_round_lem m h =
      or_first (evict_deferred_diagnostic m) m h (evict_deferred_diagnostic_lem m h)
    where
      or_first :
          (evicted : Option (DeferredMap Event)) (m : DeferredMap Event)
          → AllBounded m
          → RoundOf m evicted
          → RoundOf m (elim evicted [ some fewer ↦ some fewer | none ↦ without_first m ])
      or_first (some fewer) m h r = r
      or_first none [] h r = tt
      or_first none (e ∷ m) (b, h) r = record {
        queues = h;
        threads = omega arith;
        fewer = omega arith;
      }

  -- Where a round does nothing, no thread is left.
  trim_round-none : (m : DeferredMap Event) → trim_round m ≡ none → m ≡ []
  trim_round-none [] h = refl
  trim_round-none (e ∷ m) h = absurd (never (evict_deferred_diagnostic (e ∷ m)) h)
    where
      never :
          (evicted : Option (DeferredMap Event))
          → elim evicted [ some fewer ↦ some fewer | none ↦ some m ] ≡ none
          → ⊥
      never none h = cc
      never (some fewer) h = cc

  -- How trimming ends.
  pub record Trimmed (result : Option (Bool × DeferredMap Event)) (m : DeferredMap Event)
      : Type 0 where
    pub overflowed : Bool
    pub after : DeferredMap Event
    pub ends : result ≡ some (overflowed, after)
    pub queues : AllBounded after
    pub threads : length after ≤ length m
    pub total : deferred_total_bytes after ≤ max_deferred_bytes_total

  pub trim_total_lem :
      (fuel : ℕ) (overflowed : Bool) (m : DeferredMap Event)
      → AllBounded m
      → event_count m + length m < fuel
      → Trimmed (trim_total fuel overflowed m) m
  unfolding deferred_total_bytes trim_total trim_round_lem
  trim_total_lem zero overflowed m h enough = absurd (omega arith)
  trim_total_lem (suc fuel) overflowed m h enough =
      elim (Bool-cases (ltb max_deferred_bytes_total (deferred_total_bytes m))) [
        | inr within ↦ record {
          overflowed = overflowed;
          after = m;
          ends = rw (trim_total, within) refl;
          queues = h;
          threads = omega arith;
          total = omega (arith, ltb-false _ _ within);
        }
        | inl over ↦ elim (Option-cases (trim_round m)) [
          | inl stuck ↦
              let none_left = ap deferred_total_bytes (trim_round-none m stuck) in
              absurd (omega (arith, none_left, ltb→lt _ _ over))
          | inr (fewer, r) ↦
              let s : Shrinks m fewer = rw r at (trim_round_lem m h) in
              let t = trim_total_lem fuel true fewer s.queues (omega (arith, s.fewer)) in
              record {
                overflowed = t.overflowed;
                after = t.after;
                ends = rw (trim_total, over, r) t.ends;
                queues = t.queues;
                threads = omega (arith, t.threads, s.threads);
                total = t.total;
              }
        ]
      ]

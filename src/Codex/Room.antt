-- ===== src/Codex/Room.antt =====
-- How the deferred queue makes room: what it evicts and in which order, and that it ends.
use portcode.Common.{
  ℕ, suc, ◌+◌, ◌≤◌, ◌<◌, ◌≡◌, ◌↔◌, if◌then◌else◌, option_map, refl, ap, Bool, true, false, not,
  List, [], ◌∷◌, ◌++◌, Option, none, some, arith, length, All, length-append,
}
use portcode.Codex.{
  max_deferred_events_per_thread, max_deferred_bytes_per_thread, remove_at, position, DeferredEvent,
  DeferredQueue, len, remove, push_back, is_saturated,
}

module _ {Event : Type 0} where
  abbrev pub AllTerminal : List (DeferredEvent Event) → Type 0
  AllTerminal es = All (λ (e : DeferredEvent Event). e.terminal ≡ true) es

  abbrev pub total : List (DeferredEvent Event) → ℕ
  total [] = 0
  total (e ∷ es) = e.encoded_bytes + total es

  pub record IsBounded (q : DeferredQueue Event) : Type 0 where
    pub counted : q.encoded_bytes ≡ total q.events
    pub few : length q.events ≤ max_deferred_events_per_thread
    pub small : q.encoded_bytes ≤ max_deferred_bytes_per_thread

  -- One eviction: the oldest event that is not terminal; the oldest of all only for a terminal event
  -- and where all are terminal.
  pub data Evicts (terminal : Bool)
      : List (DeferredEvent Event) → List (DeferredEvent Event) → Type 0 where
    diagnostic :
        (before : List (DeferredEvent Event)) (e : DeferredEvent Event)
        (behind : List (DeferredEvent Event))
        → AllTerminal before
        → e.terminal ≡ false
        → Evicts terminal (before ++ e ∷ behind) (before ++ behind)
    oldest :
        (e : DeferredEvent Event) (behind : List (DeferredEvent Event))
        → AllTerminal (e ∷ behind)
        → terminal ≡ true
        → Evicts terminal (e ∷ behind) behind

  -- The event finds room at once.
  abbrev pub HasRoom : DeferredEvent Event → List (DeferredEvent Event) → Type 0
  HasRoom event es =
      (length es < max_deferred_events_per_thread)
      × (total es + event.encoded_bytes ≤ max_deferred_bytes_per_thread)

  -- What a queue owes an event: it is appended behind as few evictions as give room, or refused where
  -- it is no terminal event and only terminal ones are left.
  pub data Admits (event : DeferredEvent Event)
      : List (DeferredEvent Event) → Bool → List (DeferredEvent Event) → Type 0 where
    appended :
        (es : List (DeferredEvent Event))
        → HasRoom event es
        → Admits event es true (es ++ (event ∷ []))
    refused :
        (es : List (DeferredEvent Event))
        → ¬ HasRoom event es
        → AllTerminal es
        → event.terminal ≡ false
        → Admits event es false es
    evicting :
        (es fewer out : List (DeferredEvent Event)) (inserted : Bool)
        → ¬ HasRoom event es
        → Evicts event.terminal es fewer
        → Admits event fewer inserted out
        → Admits event es inserted out

  -- Where `position` finds the oldest event that is not terminal.
  pub record Found (index : ℕ) (es : List (DeferredEvent Event)) : Type 0 where
    pub before : List (DeferredEvent Event)
    pub found : DeferredEvent Event
    pub behind : List (DeferredEvent Event)
    pub splits : es ≡ before ++ found ∷ behind
    pub earlier : AllTerminal before
    pub is_diagnostic : found.terminal ≡ false
    pub removes : remove_at index es ≡ some (found, before ++ behind)

  abbrev pub Position : Option ℕ → List (DeferredEvent Event) → Type 0
  Position none es = AllTerminal es
  Position (some index) es = Found index es

  at_head :
      (found : Option ℕ) (e : DeferredEvent Event) (es : List (DeferredEvent Event)) (t : Bool)
      → e.terminal ≡ t
      → Position found es
      → Position (if not t then some 0 else option_map suc found) (e ∷ es)
  unfolding remove_at
  at_head found e es false d p = record {
    before = [];
    found = e;
    behind = es;
    splits = refl;
    earlier = tt;
    is_diagnostic = d;
    removes = refl;
  }
  at_head none e es true t p = (t, p)
  at_head (some index) e es true t p = record {
    before = e ∷ p.before;
    found = p.found;
    behind = p.behind;
    splits = ap (◌∷◌ e) p.splits;
    earlier = (t, p.earlier);
    is_diagnostic = p.is_diagnostic;
    removes = rw p.removes refl;
  }

  pub position_lem :
      (es : List (DeferredEvent Event)) → Position (position (λ queued. not queued.terminal) es) es
  unfolding position remove_at
  position_lem [] = tt
  position_lem (e ∷ es) = at_head _ e es e.terminal refl (position_lem es)

  pub total-append : (es fs : List (DeferredEvent Event)) → total (es ++ fs) ≡ total es + total fs
  total-append [] fs = omega arith
  total-append (e ∷ es) fs = omega (arith, total-append es fs)

  pub saturated_iff :
      (event : DeferredEvent Event) (q : DeferredQueue Event)
      → IsBounded q
      → event.encoded_bytes ≤ max_deferred_bytes_per_thread
      → (is_saturated event q ≡ false) ↔ HasRoom event q.events
  unfolding is_saturated
  saturated_iff event q w h = ground (arith, w.counted, w.few, w.small)

  pub push_back-IsBounded :
      (event : DeferredEvent Event) (q : DeferredQueue Event)
      → IsBounded q
      → HasRoom event q.events
      → IsBounded (push_back event q)
  unfolding push_back
  push_back-IsBounded event q w (n, b) =
      let t = total-append q.events (event ∷ []) in
      let l = length-append q.events (event ∷ []) in
      record {
        counted = omega (arith, w.counted, t);
        few = omega (arith, l);
        small = omega (arith, w.counted);
      }

  pub remove-IsBounded :
      (index : ℕ) (q : DeferredQueue Event) (e : DeferredEvent Event)
      (fewer : List (DeferredEvent Event))
      → IsBounded q
      → remove_at index q.events ≡ some (e, fewer)
      → total q.events ≡ e.encoded_bytes + total fewer
      → length q.events ≡ suc (length fewer)
      → ((remove index q).1.events ≡ fewer) × IsBounded (remove index q).1
  unfolding remove
  remove-IsBounded index q e fewer w r t l = rw r (
    refl,
    record {
      counted = omega (arith, w.counted);
      few = omega (arith, w.few);
      small = omega (arith, w.small);
    },
  )

  -- The removal of the oldest event that is not terminal.
  pub remove_diagnostic :
      (index : ℕ) (q : DeferredQueue Event)
      → IsBounded q
      → Found index q.events
      → IsBounded (remove index q).1 × (len q ≡ suc (len (remove index q).1))
  remove_diagnostic index q w p =
      let total_splits = ap total p.splits in
      let length_splits = ap length p.splits in
      let l : len q ≡ suc (length (p.before ++ p.behind)) = omega (
        arith,
        length_splits,
        length-append p.before (p.found ∷ p.behind),
        length-append p.before p.behind,
      ) in
      let (same_events, b) =
        remove-IsBounded index q p.found (p.before ++ p.behind) w p.removes
          (omega (
            arith,
            total_splits,
            total-append p.before (p.found ∷ p.behind),
            total-append p.before p.behind,
          ))
          l in
      (b, rw same_events l)

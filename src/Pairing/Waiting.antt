-- ===== src/Pairing/Waiting.antt =====
-- The wait for the user's answer, and what confirming leaves behind.
use portcode.Common.{
  ◌↔◌, ◌≡◌, refl, ap, Bool, true, false, List, [], ◌∷◌, ◌++◌, map, Option, none, some, ℤ, Text, ok,
  err, Result, is_ok, map_get, map_get-map_remove, map_get-map_remove-other, codes, ℕ, sym, ◌∙◌,
  ◌||◌, ◌&&◌, ◌⊎◌, inl, inr, Bool-cases, Option-cases, same, same_iff, is_some, if◌then◌else◌,
}
use portcode.Wire.{Cursor, hello}
use portcode.Pairing.Gate.{PendingPairing, PairingGate, resolve_pending, forget_pending}
use portcode.Pairing.Devices.{PairedDevice, confirmed_column, confirm_paired_device}
use portcode.Pairing.Serve.{
  Desktop, Awaited, decided, timed_out, inbound, await_decision, confirm_pairing,
}

module _ {Value : Type 0} where
  abbrev pub hello_event : Text × List Cursor → Awaited Value
  hello_event (device_id, cursors) = inbound (ok (hello device_id cursors))

  -- The events are Hellos and then the user's consent.
  pub record ConsentsAfterHellos (events : List (Awaited Value)) : Type 0 where
    pub hellos : List (Text × List Cursor)
    pub rest : List (Awaited Value)
    pub splits : events ≡ map hello_event hellos ++ decided (some true) ∷ rest

  -- Behind the Hellos, the first event is the user's answer or the loss of its sender.
  abbrev pub ends_by_answer : List (Awaited Value) → Bool
  ends_by_answer (decided answer ∷ events) = true
  ends_by_answer (inbound (ok (hello device_id cursors)) ∷ events) = ends_by_answer events
  ends_by_answer _ = false

  ConsentsAfterHellos-cons :
      (device_id : Text) (cursors : List Cursor) (events : List (Awaited Value))
      → ConsentsAfterHellos events
      → ConsentsAfterHellos (inbound (ok (hello device_id cursors)) ∷ events)
  ConsentsAfterHellos-cons device_id cursors events v = record {
    hellos = (device_id, cursors) ∷ v.hellos;
    rest = v.rest;
    splits = ap (◌∷◌ (hello_event (device_id, cursors))) v.splits;
  }

module _ {Value : Type 0} (request_id : Text) where
  consents :
      (hellos : List (Text × List Cursor)) (rest : List (Awaited Value))
      (cursors : Option (List Cursor)) (g : PairingGate)
      → (await_decision request_id
          (map hello_event hellos ++ decided (some true) ∷ rest)
          cursors
          g).confirmed
        ≡ true
  unfolding await_decision
  consents [] rest cursors g = refl
  consents ((device_id, sent) ∷ hellos) rest cursors g = consents hellos rest (some sent) g

  await_decision-splits :
      (events : List (Awaited Value)) (cursors : Option (List Cursor)) (g : PairingGate)
      → (await_decision request_id events cursors g).confirmed ≡ true
      → ConsentsAfterHellos events
  unfolding await_decision
  await_decision-splits [] cursors g h = cc
  await_decision-splits (decided (some true) ∷ events) cursors g h = record {
    hellos = [];
    rest = events;
    splits = refl;
  }
  await_decision-splits (decided (some false) ∷ events) cursors g h = cc
  await_decision-splits (decided none ∷ events) cursors g h = cc
  await_decision-splits (timed_out ∷ events) cursors g h = cc
  await_decision-splits (inbound (ok (hello device_id sent)) ∷ events) cursors g h =
      ConsentsAfterHellos-cons device_id sent events (await_decision-splits events (some sent) g h)
  await_decision-splits (inbound _ ∷ events) cursors g h = cc

  -- An untrusted peer is let through exactly when the user consents before any frame but a Hello, any
  -- error, a rejection and the timeout.
  pub await_decision-consent :
      (events : List (Awaited Value)) (cursors : Option (List Cursor)) (g : PairingGate)
      → ((await_decision request_id events cursors g).confirmed ≡ true) ↔ ConsentsAfterHellos events
  await_decision-consent events cursors g = (
    await_decision-splits events cursors g,
    λ v. rw v.splits (consents v.hellos v.rest cursors g),
  )

  gate_lem :
      (events : List (Awaited Value)) (cursors : Option (List Cursor)) (g : PairingGate)
      → (await_decision request_id events cursors g).gate
        ≡ (if ends_by_answer events then g else forget_pending request_id g)
  unfolding await_decision
  gate_lem [] cursors g = refl
  gate_lem (decided (some true) ∷ events) cursors g = refl
  gate_lem (decided (some false) ∷ events) cursors g = refl
  gate_lem (decided none ∷ events) cursors g = refl
  gate_lem (timed_out ∷ events) cursors g = refl
  gate_lem (inbound (ok (hello device_id sent)) ∷ events) cursors g = gate_lem events (some sent) g
  gate_lem (inbound _ ∷ events) cursors g = refl

  -- When a wait is over, its request is no longer pending, except if the wait ended by the user's answer
  -- or the loss of its sender and the request was pending then. Other requests stay as they were.
  pub await_decision-forgets :
      (events : List (Awaited Value)) (cursors : Option (List Cursor)) (g : PairingGate)
      (other : Text)
      → same other request_id ≡ false
      → ((map_get request_id (await_decision request_id events cursors g).gate.pending ≡ none)
          ↔ ((ends_by_answer events ≡ false) ⊎ (map_get request_id g.pending ≡ none)))
        × (map_get other (await_decision request_id events cursors g).gate.pending
            ≡ map_get other g.pending)
  unfolding forget_pending
  await_decision-forgets events cursors g other apart = elim (Bool-cases (ends_by_answer events)) [
    | inl e ↦
        rw (gate_lem events cursors g, e)
          ((λ h. inr h, λ h. elim h [ inl f ↦ absurd cc | inr p ↦ p ]), refl)
    | inr e ↦
        rw (gate_lem events cursors g, e)
          (
            (λ h. inl refl, λ h. map_get-map_remove request_id g.pending),
            map_get-map_remove-other other request_id g.pending apart,
          )
  ]

or_true : (b : Bool) → (b || true) ≡ true
or_true true = refl
or_true false = refl

or_false : (b : Bool) → (b || false) ≡ b
or_false true = refl
or_false false = refl

confirmed_column-confirm_paired_device :
    (key pk name : Text) (ts : ℤ) (ds : List PairedDevice)
    → confirmed_column key (confirm_paired_device pk name ts ds)
      ≡ (confirmed_column key ds || same pk key)
unfolding confirmed_column confirm_paired_device
confirmed_column-confirm_paired_device key pk name ts [] = elim (Bool-cases (same pk key)) [
  | inl e ↦ rw e refl
  | inr e ↦ rw e refl
]
confirmed_column-confirm_paired_device key pk name ts (d ∷ ds) =
    let same_key = same_iff d.public_key key in
    let same_pk = same_iff d.public_key pk in
    let pk_key = same_iff pk key in
    elim (Bool-cases (same d.public_key pk)) [
      | inl e ↦ elim (Bool-cases (same d.public_key key)) [
        | inl f ↦
            let k : same pk key ≡ true = pk_key.1 (sym (same_pk.0 e) ∙ same_key.0 f) in
            rw (e, f, k) (sym (or_true d.confirmed))
        | inr f ↦
            let k : same pk key ≡ false = elim (Bool-cases (same pk key)) [
              | inr k ↦ k
              | inl k ↦
                  let t : same d.public_key key ≡ true = same_key.1 (same_pk.0 e ∙ pk_key.0 k) in
                  absurd cc
            ] in
            rw (e, f, k) (sym (or_false (confirmed_column key ds)))
      ]
      | inr e ↦ elim (Bool-cases (same d.public_key key)) [
        | inl f ↦
            let k : same pk key ≡ false = elim (Bool-cases (same pk key)) [
              | inr k ↦ k
              | inl k ↦
                  let t : same d.public_key pk ≡ true =
                    same_pk.1 (same_key.0 f ∙ sym (pk_key.0 k)) in
                  absurd cc
            ] in
            rw (e, f, k) (sym (or_false d.confirmed))
        | inr f ↦ rw (e, f) (confirmed_column-confirm_paired_device key pk name ts ds)
      ]
    ]

-- A pending request of the device with this key.
abbrev pub asks_for : Text → Option PendingPairing → Bool
asks_for key none = false
asks_for key (some p) = same p.peer_key_b64 key

abbrev pub consent : Option PendingPairing → List (ℕ × Option Bool) → List (ℕ × Option Bool)
consent none signals = signals
consent (some p) signals = (p.responder, some true) ∷ signals

-- What confirming a request leaves: whatever the database answers, the waiting connection is told of the
-- consent; a device is confirmed afterwards exactly if it was before, or the request was its own and the
-- row was stored; the window is closed exactly then. To confirm again has no effect and no error, so a
-- device whose row was not stored stays unconfirmed.
pub confirm_pairing-answer :
    (request_id : Text) (ts later : ℤ) (answer second : Result Text (Unit {0})) (d : Desktop)
    (key : Text)
    → let request = map_get request_id d.gate.pending in
      let done = (confirm_pairing request_id ts answer d).1 in
      (done.gate.signals ≡ consent request d.gate.signals)
      × (confirmed_column key done.devices
          ≡ (confirmed_column key d.devices || is_ok answer && asks_for key request))
      × (done.gate.window ≡ (if is_ok answer && is_some request then none else d.gate.window))
      × (confirm_pairing request_id later second done ≡ (ok tt, done))
unfolding confirm_pairing resolve_pending
confirm_pairing-answer request_id ts later (ok _) second d key =
    let gone = map_get-map_remove request_id d.gate.pending in
    elim (Option-cases (map_get request_id d.gate.pending)) [
      | inl e ↦ rw (e, e) (refl, sym (or_false (confirmed_column key d.devices)), refl, refl)
      | inr (p, e) ↦
          rw (e, gone)
            (
              refl,
              confirmed_column-confirm_paired_device key p.peer_key_b64 (codes "Phone") ts
                  d.devices,
              refl,
              refl,
            )
    ]
confirm_pairing-answer request_id ts later (err t) second d key =
    let gone = map_get-map_remove request_id d.gate.pending in
    let same_column = sym (or_false (confirmed_column key d.devices)) in
    elim (Option-cases (map_get request_id d.gate.pending)) [
      | inl e ↦ rw (e, e) (refl, same_column, refl, refl)
      | inr (p, e) ↦ rw (e, gone) (refl, same_column, refl, refl)
    ]

-- ===== src/Tests/Trust.antt =====
-- The properties of device trust at a concrete run: a window opens, a phone connects, the user confirms.
use portcode.Common.{
  ◌↔◌, ◌≡◌, refl, true, false, List, [], ◌∷◌, none, some, pos, Text, codes, ok, err, map_get,
  map_remove, one_of, same, ◌⊎◌, ◌||◌, Result,
}
use portcode.Pairing.{
  open_window, active_nonce, window_is_open, register_pending, resolve_pending, serves, connect,
  confirm_pairing, confirm_paired_device, confirmed_column, is_device_confirmed, Awaited, decided,
  timed_out, await_decision,
}
use portcode.Pairing.Steps.{Run, Reach, opens, connects, confirms, start, next}
use portcode.Pairing.Trust.{new_run, is_device_confirmed-accepted}
use portcode.Pairing.Gating.{HasWindow, is_prompt, connect-admission}
use portcode.Pairing.Waiting.{
  ends_by_answer, await_decision-forgets, ConsentsAfterHellos, hello_event, await_decision-consent,
  consent, confirm_pairing-answer,
}

abbrev open_run : Run
open_run = record new_run {
  desktop = record new_run.desktop { gate = open_window 1000 (7 ∷ []) new_run.desktop.gate };
}

abbrev connected : Run
connected = record {
  desktop = (connect 2000 (pos 1) true true (codes "r1") (some (codes "key")) open_run.desktop).1;
  prompted = codes "key" ∷ [];
  accepted = [];
}

abbrev confirmed : Run
confirmed = record {
  desktop = (confirm_pairing (codes "r1") (pos 2) (ok tt) connected.desktop).1;
  prompted = codes "key" ∷ [];
  accepted = codes "key" ∷ [];
}

confirmed_reached : Reach new_run confirmed
unfolding connect window_is_open active_nonce register_pending is_device_confirmed confirmed_column
    map_get map_remove same
confirmed_reached =
    next connected confirmed
      (next open_run connected (next new_run open_run start (opens new_run 1000 (7 ∷ [])))
        (connects open_run 2000 (pos 1) true true (codes "r1") (codes "key")))
      (confirms connected (codes "r1") (pos 2) (ok tt))

key_confirmed : is_device_confirmed true (codes "key") confirmed.desktop.devices ≡ true
unfolding connect confirm_pairing resolve_pending confirm_paired_device window_is_open active_nonce
    register_pending is_device_confirmed confirmed_column map_get map_remove same
key_confirmed = refl

is_device_confirmed-accepted_example :
    (one_of (codes "key") confirmed.accepted ≡ true)
    × (one_of (codes "key") confirmed.prompted ≡ true)
is_device_confirmed-accepted_example =
    is_device_confirmed-accepted confirmed true (codes "key") confirmed_reached key_confirmed

connect-admission_example :
    (((connect 2000 (pos 1) true true (codes "r1") (some (codes "key")) open_run.desktop).0
        ≡ serves)
      ↔ ((true ≡ true) × (confirmed_column (codes "key") open_run.desktop.devices ≡ true)))
    × ((is_prompt
            (connect 2000 (pos 1) true true (codes "r1") (some (codes "key")) open_run.desktop).0
          ≡ true)
        ↔ (((true ≡ false) ⊎ (confirmed_column (codes "key") open_run.desktop.devices ≡ false))
            × HasWindow 2000 open_run.desktop.gate))
connect-admission_example =
    connect-admission 2000 (pos 1) true true (codes "r1") (codes "key") open_run.desktop

abbrev events : List (Awaited Text)
events = hello_event (codes "phone", []) ∷ decided (some true) ∷ []

await_decision-consent_example :
    ((await_decision (codes "r1") events none connected.desktop.gate).confirmed ≡ true)
    ↔ ConsentsAfterHellos events
await_decision-consent_example =
    await_decision-consent (codes "r1") events none connected.desktop.gate

abbrev silence : List (Awaited Text)
silence = hello_event (codes "phone", []) ∷ timed_out ∷ []

await_decision-forgets_example :
    let after = (await_decision (codes "r1") silence none connected.desktop.gate).gate.pending in
    ((map_get (codes "r1") after ≡ none) ↔ (
      (ends_by_answer silence ≡ false)
      ⊎ (map_get (codes "r1") connected.desktop.gate.pending ≡ none)))
    × (map_get (codes "r2") after ≡ map_get (codes "r2") connected.desktop.gate.pending)
unfolding same
await_decision-forgets_example =
    await_decision-forgets (codes "r1") silence none connected.desktop.gate (codes "r2") refl

abbrev failed : Result Text (Unit {0})
failed = err (codes "disk full")

confirm_pairing-answer_example :
    let request = map_get (codes "r1") connected.desktop.gate.pending in
    let done = (confirm_pairing (codes "r1") (pos 2) failed connected.desktop).1 in
    (done.gate.signals ≡ consent request connected.desktop.gate.signals)
    × (confirmed_column (codes "key") done.devices
        ≡ (confirmed_column (codes "key") connected.desktop.devices || false))
    × (done.gate.window ≡ connected.desktop.gate.window)
    × (confirm_pairing (codes "r1") (pos 3) (ok tt) done ≡ (ok tt, done))
confirm_pairing-answer_example =
    confirm_pairing-answer (codes "r1") (pos 2) (pos 3) failed (ok tt) connected.desktop
      (codes "key")

-- ===== src/Pairing/Trust.antt =====
-- Who is trusted: a device is confirmed only by an accepted prompt, shown while a window was open.
use portcode.Common.{
  ◌≡◌, Bool, true, List, [], ◌∷◌, inl, inr, arith, Bool-cases, Option-cases, Text, same, same_iff,
  All, map_get, All-map_remove, one_of,
}
use portcode.Pairing.Gate.{new_gate, resolve_pending, forget_pending}
use portcode.Pairing.Devices.{PairedDevice, confirmed_column, is_device_confirmed}
use portcode.Pairing.Rows.{
  All-remove_paired_device, All-add_paired_device, All-confirm_paired_device,
}
use portcode.Pairing.Trusted.{
  IsTrusted, Shown, connects-IsTrusted, registers-IsTrusted, accepts-IsTrusted, confirms-IsTrusted,
  active_nonce-pending,
}
use portcode.Pairing.Serve.{reject_pairing}
use portcode.Pairing.Steps.{
  Run, Step, opens, polls, connects, confirms, rejects, forgets, unpairs, refreshes, registers,
  accepts, stores, closes, Reach, start, next,
}

Step-IsTrusted : (r s : Run) → Step r s → IsTrusted r → IsTrusted s
unfolding reject_pairing resolve_pending forget_pending
Step-IsTrusted r _ (opens _ now nonce) v = record {
  pending = v.pending;
  devices = v.devices;
  accepted = v.accepted;
}
Step-IsTrusted r _ (polls _ now) v = record {
  pending = rw (active_nonce-pending now r.desktop.gate) v.pending;
  devices = v.devices;
  accepted = v.accepted;
}
Step-IsTrusted r _ (connects _ now ts readable stored id pk) v =
    connects-IsTrusted r now ts readable stored id pk v
Step-IsTrusted r _ (confirms _ id ts answer) v = confirms-IsTrusted r id ts answer v
Step-IsTrusted r _ (refreshes _ pk ts) v = record {
  pending = v.pending;
  devices =
      All-add_paired_device (λ d. d.confirmed ≡ true → one_of d.public_key r.accepted ≡ true) pk _
        ts r.desktop.devices (λ d h. h) (λ h. cc) v.devices;
  accepted = v.accepted;
}
Step-IsTrusted r _ (registers _ id pk) v = registers-IsTrusted r id pk v
Step-IsTrusted r _ (accepts _ id) v = elim (Option-cases (map_get id r.desktop.gate.pending)) [
  | inl e ↦ rw e v
  | inr (p, e) ↦ rw e (accepts-IsTrusted r id p v e)
]
Step-IsTrusted r _ (stores _ key ts h) v = record {
  pending = v.pending;
  devices =
      All-confirm_paired_device (λ d. d.confirmed ≡ true → one_of d.public_key r.accepted ≡ true)
        key _ ts r.desktop.devices (λ d same_key k. rw same_key h) (λ k. h) v.devices;
  accepted = v.accepted;
}
Step-IsTrusted r _ (closes _) v = record {
  pending = v.pending;
  devices = v.devices;
  accepted = v.accepted;
}
Step-IsTrusted r _ (rejects _ id) v = elim (Option-cases (map_get id r.desktop.gate.pending)) [
  | inl e ↦ rw e v
  | inr (p, e) ↦ rw e (record {
    pending = All-map_remove (Shown r.prompted) id r.desktop.gate.pending v.pending;
    devices = v.devices;
    accepted = v.accepted;
  })
]
Step-IsTrusted r _ (forgets _ id) v = record {
  pending = All-map_remove (Shown r.prompted) id r.desktop.gate.pending v.pending;
  devices = v.devices;
  accepted = v.accepted;
}
Step-IsTrusted r _ (unpairs _ pk) v = record {
  pending = v.pending;
  devices =
      All-remove_paired_device (λ d. d.confirmed ≡ true → one_of d.public_key r.accepted ≡ true) pk
        r.desktop.devices v.devices;
  accepted = v.accepted;
}

Reach-IsTrusted : (first s : Run) → Reach first s → IsTrusted first → IsTrusted s
Reach-IsTrusted first _ start v = v
Reach-IsTrusted first s (next r _ before step) v =
    Step-IsTrusted r s step (Reach-IsTrusted first r before v)

confirmed-accepted :
    (key : Text) (ds : List PairedDevice) (accepted : List Text)
    → All (λ (d : PairedDevice). d.confirmed ≡ true → one_of d.public_key accepted ≡ true) ds
    → confirmed_column key ds ≡ true
    → one_of key accepted ≡ true
unfolding confirmed_column
confirmed-accepted key [] accepted h e = absurd cc
confirmed-accepted key (d ∷ ds) accepted (p, h) e = elim (Bool-cases (same d.public_key key)) [
  | inl s ↦ let k = (same_iff d.public_key key).0 s in rw k at (p (rw s at e))
  | inr s ↦ confirmed-accepted key ds accepted h (rw s at e)
]

accepted-prompted :
    (key : Text) (accepted prompted : List Text)
    → All (λ k. one_of k prompted ≡ true) accepted
    → one_of key accepted ≡ true
    → one_of key prompted ≡ true
accepted-prompted key [] prompted h e = cc
accepted-prompted key (k ∷ ks) prompted (p, h) e = elim (Bool-cases (same key k)) [
  | inl s ↦ rw ((same_iff key k).0 s) p
  | inr s ↦ accepted-prompted key ks prompted h (rw s at e)
]

abbrev pub new_run : Run
new_run = record {
  desktop = record { gate = new_gate; devices = [] };
  prompted = [];
  accepted = [];
}

-- However the steps interleave from an empty state, a device that counts as confirmed was accepted by
-- the user, by a prompt that a connection with its key had opened.
pub is_device_confirmed-accepted :
    (r : Run) (readable : Bool) (key : Text)
    → Reach new_run r
    → is_device_confirmed readable key r.desktop.devices ≡ true
    → (one_of key r.accepted ≡ true) × (one_of key r.prompted ≡ true)
unfolding is_device_confirmed
is_device_confirmed-accepted r readable key reach h =
    let v =
      Reach-IsTrusted new_run r reach (record { pending = tt; devices = tt; accepted = tt }) in
    let accepted = confirmed-accepted key r.desktop.devices r.accepted v.devices (ground arith) in
    (accepted, accepted-prompted key r.accepted r.prompted v.accepted accepted)

-- ===== src/Pairing/Trusted.antt =====
-- The invariant of trust, and the steps of a connection and of a confirmation that keep it.
use portcode.Common.{
  ℕ, ◌≡◌, refl, Bool, true, List, ◌∷◌, inl, inr, arith, Bool-cases, some, Option-cases, push_some,
  ℤ, Text, same_self, All, All-map, Result, ok, err, map_get, All-map_remove, map_remove,
  All-map_get, one_of,
}
use portcode.Pairing.Gate.{
  PendingPairing, PairingGate, active_nonce, window_is_open, register_pending, resolve_pending,
}
use portcode.Pairing.Devices.{PairedDevice, is_device_confirmed}
use portcode.Pairing.Rows.{All-add_paired_device, All-confirm_paired_device}
use portcode.Pairing.Gating.{window_is_open-pending}
use portcode.Pairing.Serve.{confirm_key, connect, confirm_pairing}
use portcode.Pairing.Steps.{Run, note_prompt, key_of}

-- Every waiting prompt was shown, every confirmed device was accepted, and every accepted key prompted.
pub record IsTrusted (r : Run) : Type 0 where
  pub pending :
      All
        (λ (e : Text × PendingPairing). one_of e.1.peer_key_b64 r.prompted ≡ true)
        r.desktop.gate.pending
  pub devices :
      All
        (λ (d : PairedDevice). d.confirmed ≡ true → one_of d.public_key r.accepted ≡ true)
        r.desktop.devices
  pub accepted : All (λ k. one_of k r.prompted ≡ true) r.accepted

one_of-push : (k j : Text) (ks : List Text) → one_of k ks ≡ true → one_of k (j ∷ ks) ≡ true
one_of-push k j ks h = ground arith

one_of-here : (k : Text) (ks : List Text) → one_of k (k ∷ ks) ≡ true
one_of-here k ks = rw (same_self k) refl

abbrev pub Shown : List Text → Text × PendingPairing → Type 0
Shown prompted e = one_of e.1.peer_key_b64 prompted ≡ true

pub connects-IsTrusted :
    (r : Run) (now : ℕ) (ts : ℤ) (readable stored : Bool) (id pk : Text)
    → IsTrusted r
    → IsTrusted (record {
      desktop = (connect now ts readable stored id (some pk) r.desktop).1;
      prompted =
          note_prompt (connect now ts readable stored id (some pk) r.desktop).0 pk r.prompted;
      accepted = r.accepted;
    })
unfolding connect register_pending
connects-IsTrusted r now ts readable stored id pk v =
    let d = r.desktop in
    let kept = window_is_open-pending now d.gate in
    elim (Bool-cases (is_device_confirmed readable pk d.devices)) [
      | inl c ↦ rw c (elim (Bool-cases stored) [
        | inl s ↦ rw s (record {
          pending = rw kept v.pending;
          devices =
              All-add_paired_device
                (λ d. d.confirmed ≡ true → one_of d.public_key r.accepted ≡ true) pk _ ts d.devices
                (λ d h. h) (λ h. cc) v.devices;
          accepted = v.accepted;
        })
        | inr s ↦
            rw s
              (record { pending = rw kept v.pending; devices = v.devices; accepted = v.accepted })
      ])
      | inr c ↦ elim (Bool-cases (window_is_open now d.gate).0) [
        | inl o ↦
            rw (c, o)
              (record {
                pending = (
                  one_of-here pk r.prompted,
                  All-map_remove (Shown (pk ∷ r.prompted)) id _ (
                      rw kept (
                        All-map (λ e h. one_of-push e.1.peer_key_b64 pk r.prompted h) d.gate.pending
                          v.pending)),
                );
                devices = v.devices;
                accepted = All-map (λ k h. one_of-push k pk r.prompted h) r.accepted v.accepted;
              })
        | inr o ↦
            rw (c, o)
              (record { pending = rw kept v.pending; devices = v.devices; accepted = v.accepted })
      ]
    ]

pub registers-IsTrusted :
    (r : Run) (id pk : Text)
    → IsTrusted r
    → IsTrusted (record {
      desktop = record r.desktop { gate = (register_pending id pk r.desktop.gate).1 };
      prompted = pk ∷ r.prompted;
      accepted = r.accepted;
    })
unfolding register_pending
registers-IsTrusted r id pk v = record {
  pending = (
    one_of-here pk r.prompted,
    All-map_remove (Shown (pk ∷ r.prompted)) id _ (
        All-map (λ e h. one_of-push e.1.peer_key_b64 pk r.prompted h) r.desktop.gate.pending
          v.pending),
  );
  devices = v.devices;
  accepted = All-map (λ k h. one_of-push k pk r.prompted h) r.accepted v.accepted;
}

pub accepts-IsTrusted :
    (r : Run) (id : Text) (p : PendingPairing)
    → IsTrusted r
    → map_get id r.desktop.gate.pending ≡ some p
    → IsTrusted (record {
      desktop = record r.desktop {
        gate = record r.desktop.gate {
          pending = map_remove id r.desktop.gate.pending;
          signals = (p.responder, some true) ∷ r.desktop.gate.signals;
        };
      };
      prompted = r.prompted;
      accepted = p.peer_key_b64 ∷ r.accepted;
    })
accepts-IsTrusted r id p v e = record {
  pending = All-map_remove (Shown r.prompted) id r.desktop.gate.pending v.pending;
  devices =
      All-map (λ d h k. one_of-push d.public_key p.peer_key_b64 r.accepted (h k)) r.desktop.devices
        v.devices;
  accepted = (
    All-map_get (λ q. one_of q.peer_key_b64 r.prompted ≡ true) id r.desktop.gate.pending p v.pending
        e,
    v.accepted,
  );
}

confirm_key-IsTrusted :
    (r : Run) (id : Text) (ts : ℤ) (answer : Result Text (Unit {0})) (p : PendingPairing)
    → IsTrusted r
    → map_get id r.desktop.gate.pending ≡ some p
    → IsTrusted (record {
      desktop =
          (confirm_key id ts answer (some p.peer_key_b64) (record r.desktop {
            gate = record r.desktop.gate {
              pending = map_remove id r.desktop.gate.pending;
              signals = (p.responder, some true) ∷ r.desktop.gate.signals;
            };
          })).1;
      prompted = r.prompted;
      accepted = p.peer_key_b64 ∷ r.accepted;
    })
confirm_key-IsTrusted r id ts (err t) p v e = accepts-IsTrusted r id p v e
confirm_key-IsTrusted r id ts (ok t) p v e = record {
  pending = All-map_remove (Shown r.prompted) id r.desktop.gate.pending v.pending;
  devices =
      All-confirm_paired_device
        (λ d. d.confirmed ≡ true → one_of d.public_key (p.peer_key_b64 ∷ r.accepted) ≡ true)
        p.peer_key_b64 _ ts r.desktop.devices
        (λ d same_key h. rw (same_key, same_self p.peer_key_b64) refl)
        (λ h. one_of-here p.peer_key_b64 r.accepted)
        (All-map (λ d h k. one_of-push d.public_key p.peer_key_b64 r.accepted (h k))
          r.desktop.devices v.devices);
  accepted = (
    All-map_get (λ q. one_of q.peer_key_b64 r.prompted ≡ true) id r.desktop.gate.pending p v.pending
        e,
    v.accepted,
  );
}

pub confirms-IsTrusted :
    (r : Run) (id : Text) (ts : ℤ) (answer : Result Text (Unit {0}))
    → IsTrusted r
    → IsTrusted (record {
      desktop = (confirm_pairing id ts answer r.desktop).1;
      prompted = r.prompted;
      accepted = push_some (key_of (map_get id r.desktop.gate.pending)) r.accepted;
    })
unfolding confirm_pairing resolve_pending
confirms-IsTrusted r id ts answer v = elim (Option-cases (map_get id r.desktop.gate.pending)) [
  | inl e ↦ rw e v
  | inr (p, e) ↦ rw e (confirm_key-IsTrusted r id ts answer p v e)
]

pub active_nonce-pending : (now : ℕ) (g : PairingGate) → (active_nonce now g).1.pending ≡ g.pending
unfolding window_is_open
active_nonce-pending now g = window_is_open-pending now g

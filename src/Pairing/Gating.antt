-- ===== src/Pairing/Gating.antt =====
-- When a connection is admitted.
use portcode.Common.{
  ◌↔◌, sym, ap, ◌∙◌, ℕ, ◌<◌, ◌≡◌, refl, Bool, true, false, ◌&&◌, ◌⊎◌, inl, inr, arith, ltb,
  Bool-cases, some, Option-cases, ℤ, Text,
}
use portcode.Pairing.Gate.{PairingWindow, PairingGate, active_nonce, window_is_open}
use portcode.Pairing.Devices.{confirmed_column, is_device_confirmed}
use portcode.Pairing.Serve.{Admission, Desktop, serves, prompts, connect}

-- A pairing window that has not expired.
abbrev pub HasWindow : ℕ → PairingGate → Type 0
HasWindow now g = (w : PairingWindow) × (g.window ≡ some w) × (now < w.expires_at)

window_is_open_iff :
    (now : ℕ) (g : PairingGate) → ((window_is_open now g).0 ≡ true) ↔ HasWindow now g
unfolding window_is_open active_nonce
window_is_open_iff now g = elim (Option-cases g.window) [
  | inl e ↦ (λ h. absurd (let t = rw e at h in cc), λ (w, k, l). absurd cc)
  | inr (w, e) ↦ elim (Bool-cases (ltb now w.expires_at)) [
    | inl early ↦ (λ h. (w, e, ground arith), λ k. rw (e, early) refl)
    | inr late ↦ (
      λ h. absurd (let t = rw (e, late) at h in cc),
      λ (v, k, l). absurd (
          let u : some w ≡ some v = sym e ∙ k in
          let x : w ≡ v = cc in
          let y = ap (λ (z : PairingWindow). z.expires_at) x in ground (arith, y, l, late)),
    )
  ]
]

abbrev pub is_prompt : Admission → Bool
is_prompt (prompts receiver) = true
is_prompt _ = false

-- A connection is served at once exactly if its device's row can be read and is confirmed; it prompts
-- exactly if that is not so and a window is open and not expired.
pub connect-admission :
    (now : ℕ) (ts : ℤ) (readable stored : Bool) (id pk : Text) (d : Desktop)
    → (((connect now ts readable stored id (some pk) d).0 ≡ serves)
        ↔ ((readable ≡ true) × (confirmed_column pk d.devices ≡ true)))
      × ((is_prompt (connect now ts readable stored id (some pk) d).0 ≡ true)
          ↔ (((readable ≡ false) ⊎ (confirmed_column pk d.devices ≡ false)) × HasWindow now d.gate))
unfolding connect is_device_confirmed
connect-admission now ts readable stored id pk d =
    let (shown, open_) = window_is_open_iff now d.gate in
    elim (Bool-cases (readable && confirmed_column pk d.devices)) [
      | inl c ↦ (
        (λ h. (ground arith, ground arith), λ h. rw c refl),
        (λ h. absurd (let t = rw c at h in cc), λ (n, w). absurd (ground arith)),
      )
      | inr c ↦ elim (Bool-cases (window_is_open now d.gate).0) [
        | inl o ↦ (
          (λ h. absurd (let t = rw (c, o) at h in cc), λ h. absurd (ground arith)),
          (λ h. (ground arith, shown o), λ h. rw (c, o) refl),
        )
        | inr o ↦ (
          (λ h. absurd (let t = rw (c, o) at h in cc), λ h. absurd (ground arith)),
          (λ h. absurd (let t = rw (c, o) at h in cc), λ (n, w). absurd (let t = open_ w in cc)),
        )
      ]
    ]

pub window_is_open-pending :
    (now : ℕ) (g : PairingGate) → (window_is_open now g).1.pending ≡ g.pending
unfolding window_is_open active_nonce
window_is_open-pending now g = elim (Option-cases g.window) [
  | inl e ↦ rw e refl
  | inr (w, e) ↦ elim (Bool-cases (ltb now w.expires_at)) [
    | inl early ↦ rw (e, early) refl
    | inr late ↦ rw (e, late) refl
  ]
]

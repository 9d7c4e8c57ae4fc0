-- ===== src/Pairing/Rows.antt =====
-- Predicates on every row of the table of devices, through its statements.
use portcode.Common.{
  ◌≡◌, true, false, List, [], ◌∷◌, inl, inr, Bool-cases, ℤ, Text, same, same_iff, All,
}
use portcode.Pairing.Devices.{
  PairedDevice, add_paired_device, confirm_paired_device, remove_paired_device,
}

module _ (P : PairedDevice → Type 0) where
  pub All-remove_paired_device :
      (pk : Text) (ds : List PairedDevice) → All P ds → All P (remove_paired_device pk ds)
  unfolding remove_paired_device
  All-remove_paired_device pk [] h = tt
  All-remove_paired_device pk (d ∷ ds) (p, h) = elim (Bool-cases (same d.public_key pk)) [
    | inl e ↦ rw e (All-remove_paired_device pk ds h)
    | inr e ↦ rw e (p, All-remove_paired_device pk ds h)
  ]

  pub All-add_paired_device :
      (pk name : Text) (ts : ℤ) (ds : List PairedDevice)
      → ((d : PairedDevice) → P d → P (record d { name = name; last_seen = ts }))
      → P (record {
        public_key = pk;
        name = name;
        paired_at = ts;
        last_seen = ts;
        confirmed = false;
      })
      → All P ds
      → All P (add_paired_device pk name ts ds)
  unfolding add_paired_device
  All-add_paired_device pk name ts [] f new h = (new, tt)
  All-add_paired_device pk name ts (d ∷ ds) f new (p, h) =
      elim (Bool-cases (same d.public_key pk)) [
        | inl e ↦ rw e (f d p, h)
        | inr e ↦ rw e (p, All-add_paired_device pk name ts ds f new h)
      ]

  pub All-confirm_paired_device :
      (pk name : Text) (ts : ℤ) (ds : List PairedDevice)
      → ((d : PairedDevice)
          → d.public_key ≡ pk
          → P (record d { name = name; last_seen = ts; confirmed = true }))
      → P (record {
        public_key = pk;
        name = name;
        paired_at = ts;
        last_seen = ts;
        confirmed = true;
      })
      → All P ds
      → All P (confirm_paired_device pk name ts ds)
  unfolding confirm_paired_device
  All-confirm_paired_device pk name ts [] f new h = (new, tt)
  All-confirm_paired_device pk name ts (d ∷ ds) f new (p, h) =
      elim (Bool-cases (same d.public_key pk)) [
        | inl e ↦ rw e (f d ((same_iff d.public_key pk).0 e), h)
        | inr e ↦ rw e (p, All-confirm_paired_device pk name ts ds f new h)
      ]

-- ===== src/Pairing/Devices.antt =====
-- db.rs: the table `paired_devices`, whose key is the public key. Each statement is the list of rows
-- behind it; that a statement can fail is in the functions that run it.
use portcode.Common.{Bool, true, false, ◌&&◌, List, [], ◌∷◌, if◌then◌else◌, ℤ, Text, same}

pub record PairedDevice : Type 0 where
  pub public_key : Text
  pub name : Text
  pub paired_at : ℤ
  pub last_seen : ℤ
  pub confirmed : Bool

-- INSERT .. ON CONFLICT(public_key) DO UPDATE SET name, last_seen
unfoldable pub add_paired_device : Text → Text → ℤ → List PairedDevice → List PairedDevice
add_paired_device key name ts [] =
    record { public_key = key; name = name; paired_at = ts; last_seen = ts; confirmed = false } ∷ []
add_paired_device key name ts (d ∷ ds) =
    let rest = add_paired_device key name ts ds in
    if same d.public_key key then record d { name = name; last_seen = ts } ∷ ds else d ∷ rest

-- The same with confirmed = 1.
unfoldable pub confirm_paired_device : Text → Text → ℤ → List PairedDevice → List PairedDevice
confirm_paired_device key name ts [] =
    record { public_key = key; name = name; paired_at = ts; last_seen = ts; confirmed = true } ∷ []
confirm_paired_device key name ts (d ∷ ds) =
    let rest = confirm_paired_device key name ts ds in
    if same d.public_key key
    then record d { name = name; last_seen = ts; confirmed = true } ∷ ds
    else d ∷ rest

-- SELECT confirmed WHERE public_key = ?, where no row is as good as false.
unfoldable pub confirmed_column : Text → List PairedDevice → Bool
confirmed_column key [] = false
confirmed_column key (d ∷ ds) =
    if same d.public_key key then d.confirmed else confirmed_column key ds

-- `readable` says whether the query runs; a failed one counts as not confirmed.
unfoldable pub is_device_confirmed : Bool → Text → List PairedDevice → Bool
is_device_confirmed readable key ds = readable && confirmed_column key ds

unfoldable pub remove_paired_device : Text → List PairedDevice → List PairedDevice
remove_paired_device key [] = []
remove_paired_device key (d ∷ ds) =
    let rest = remove_paired_device key ds in if same d.public_key key then rest else d ∷ rest

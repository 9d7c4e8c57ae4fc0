-- ===== src/Pairing/Steps.antt =====
-- The steps of the shared state, with the history of prompts and consents.
use portcode.Common.{
  ℕ, Bool, List, ◌∷◌, ◌≡◌, true, codes, one_of, Option, some, push_some, option_map, ℤ, Text, Bytes,
  Result, map_get,
}
use portcode.Pairing.Gate.{
  PendingPairing, open_window, active_nonce, forget_pending, register_pending, resolve_pending,
  close_window,
}
use portcode.Pairing.Devices.{add_paired_device, confirm_paired_device, remove_paired_device}
use portcode.Pairing.Serve.{Desktop, Admission, prompts, connect, confirm_pairing, reject_pairing}

-- The state with its history: the keys prompted for and the keys accepted.
pub record Run : Type 0 where
  pub desktop : Desktop
  pub prompted : List Text
  pub accepted : List Text

abbrev pub note_prompt : Admission → Text → List Text → List Text
note_prompt (prompts receiver) pk prompted = pk ∷ prompted
note_prompt _ pk prompted = prompted

abbrev pub key_of : Option PendingPairing → Option Text
key_of = option_map (λ (p : PendingPairing). p.peer_key_b64)

-- What happens to the shared state, in any order: the desktop opens or reads the window, a peer
-- connects, the user confirms or rejects, a connection forgets its prompt, a device is unpaired. The
-- source takes one lock behind the other in a connect (the devices, the window, then the devices or the
-- pending table) and in a confirm (the pending table, the devices, the window), so their parts are steps
-- as well, between which any other step may fall: `refreshes` and `registers` of a connect, with no
-- condition on what it read before, `accepts`, `stores` and `closes` of a confirm, where the stored key is
-- one that was accepted.
pub data Step : Run → Run → Type 0 where
  opens :
      (r : Run) (now : ℕ) (nonce : Bytes)
      → Step r
          (record r { desktop = record r.desktop { gate = open_window now nonce r.desktop.gate } })
  polls :
      (r : Run) (now : ℕ)
      → Step r
          (record r { desktop = record r.desktop { gate = (active_nonce now r.desktop.gate).1 } })
  connects :
      (r : Run) (now : ℕ) (ts : ℤ) (readable stored : Bool) (id pk : Text)
      → Step r (record {
        desktop = (connect now ts readable stored id (some pk) r.desktop).1;
        prompted =
            note_prompt (connect now ts readable stored id (some pk) r.desktop).0 pk r.prompted;
        accepted = r.accepted;
      })
  confirms :
      (r : Run) (id : Text) (ts : ℤ) (answer : Result Text (Unit {0}))
      → Step r (record {
        desktop = (confirm_pairing id ts answer r.desktop).1;
        prompted = r.prompted;
        accepted = push_some (key_of (map_get id r.desktop.gate.pending)) r.accepted;
      })
  refreshes :
      (r : Run) (pk : Text) (ts : ℤ)
      → Step r (record r {
        desktop = record r.desktop {
          devices = add_paired_device pk (codes "Phone") ts r.desktop.devices;
        };
      })
  registers :
      (r : Run) (id pk : Text)
      → Step r (record {
        desktop = record r.desktop { gate = (register_pending id pk r.desktop.gate).1 };
        prompted = pk ∷ r.prompted;
        accepted = r.accepted;
      })
  accepts :
      (r : Run) (id : Text)
      → Step r (record {
        desktop = record r.desktop { gate = (resolve_pending id true r.desktop.gate).1 };
        prompted = r.prompted;
        accepted = push_some (key_of (map_get id r.desktop.gate.pending)) r.accepted;
      })
  stores :
      (r : Run) (key : Text) (ts : ℤ)
      → one_of key r.accepted ≡ true
      → Step r (record r {
        desktop = record r.desktop {
          devices = confirm_paired_device key (codes "Phone") ts r.desktop.devices;
        };
      })
  closes :
      (r : Run)
      → Step r (record r { desktop = record r.desktop { gate = close_window r.desktop.gate } })
  rejects : (r : Run) (id : Text) → Step r (record r { desktop = reject_pairing id r.desktop })
  forgets :
      (r : Run) (id : Text)
      → Step r (record r { desktop = record r.desktop { gate = forget_pending id r.desktop.gate } })
  unpairs :
      (r : Run) (pk : Text)
      → Step r (record r {
        desktop = record r.desktop { devices = remove_paired_device pk r.desktop.devices };
      })

pub data Reach (first : Run) : Run → Type 0 where
  start : Reach first first
  next : (r s : Run) → Reach first r → Step r s → Reach first s

-- ===== src/Remote/Answers.antt =====
-- What a command can make the desktop do.
use portcode.Common.{
  ℕ, ◌≤◌, ◌≡◌, ◌≢◌, ◌↔◌, ◌⊎◌, inl, inr, refl, sym, Bool, true, false, ◌&&◌, ◌||◌, List, [], ◌∷◌,
  map, Option, none, some, arith, if◌then◌else◌, Bool-cases, Option-cases, ltb, ltb-false, All,
  Text, codes, same, same_iff, byte_len, len_utf8, len_utf8-pos, ℤ,
}
use portcode.External.{External}
use portcode.Wire.{
  RemoteCommand, SyncFrame, session_list, session_created, command_rejected, message_page,
}
use portcode.Public.{
  is_control, is_empty, is_whitespace, trim_end, valid_remote_identifier, bounded_public_text,
  message_page_frame,
}
use portcode.Public.Bounds.{bounded_public_text_bounds}
use portcode.Remote.{
  Settings, Desk, require_session, trim_start, trim, max_command_rejection_message_bytes,
  max_remote_run_text_bytes, parse_decision, spaced_control, Action, run_turn, interrupt_session,
  interrupt_agent, resolve_approval, publish_to_hub, authoritative_remote_session_id, handle_run,
  handle_cancel, handle_cancel_agent, handle_permission, bounded_public_message,
  handle_fetch_messages,
}

-- Making controls spaces and trimming do not lengthen a text.
space_len : len_utf8 b' ' ≡ 1
unfolding len_utf8
space_len = refl

byte_len-spaced : (t : Text) → byte_len (map spaced_control t) ≤ byte_len t
byte_len-spaced [] = omega arith
byte_len-spaced (c ∷ cs) = elim (Bool-cases (is_control c)) [
  | inl e ↦ rw e (omega (arith, space_len, len_utf8-pos c, byte_len-spaced cs))
  | inr e ↦ rw e (omega (arith, byte_len-spaced cs))
]

byte_len-trim_start : (t : Text) → byte_len (trim_start t) ≤ byte_len t
byte_len-trim_start [] = omega arith
byte_len-trim_start (c ∷ cs) = elim (Bool-cases (is_whitespace c)) [
  | inl e ↦ rw e (omega (arith, byte_len-trim_start cs))
  | inr e ↦ rw e (omega arith)
]

byte_len-trim_end : (t : Text) → byte_len (trim_end t) ≤ byte_len t
unfolding trim_end
byte_len-trim_end [] = omega arith
byte_len-trim_end (c ∷ cs) =
    let rest = byte_len-trim_end cs in
    elim (Bool-cases (is_empty (trim_end cs) && is_whitespace c)) [
      | inl e ↦ rw e (omega arith)
      | inr e ↦ rw e (omega (arith, rest))
    ]

module _ {Value : Type 0} where
  -- An identifier that the phone may name a session by.
  abbrev pub IsSession : Desk Value → Text → Type 0
  IsSession desk id = (valid_remote_identifier id ≡ true) × (require_session id desk ≡ true)

  authoritative_lem :
      (desk : Desk Value) (candidate id : Text)
      → authoritative_remote_session_id desk candidate ≡ some id
      → (candidate ≡ id) × IsSession desk candidate
  unfolding authoritative_remote_session_id
  authoritative_lem desk candidate id h = elim (Bool-cases (valid_remote_identifier candidate)) [
    | inr v ↦ let t = rw v at h in absurd cc
    | inl v ↦ elim (Bool-cases (require_session candidate desk)) [
      | inr k ↦ let t = rw (v, k) at h in absurd cc
      | inl k ↦ let t : some candidate ≡ some id = rw (v, k) at h in (cc, (v, k))
    ]
  ]

text_lem : (a b c : Bool) → (a || b || c) ≡ false → (b ≡ false) × (c ≡ false)
text_lem false false false h = (refl, refl)
text_lem true b c h = absurd cc
text_lem false true c h = absurd cc
text_lem false false true h = absurd cc

not_blank : (t : Text) → same t [] ≡ false → t ≢ []
unfolding same
not_blank [] h e = cc
not_blank (c ∷ cs) h e = cc

module _ {Value : Type 0} (ext : External Value) where
  pub byte_len-bounded_public_message :
      (message : Text)
      → byte_len (bounded_public_message ext message) ≤ max_command_rejection_message_bytes
  unfolding bounded_public_message
  byte_len-bounded_public_message message =
      let text = bounded_public_text ext message max_command_rejection_message_bytes in
      let (bound, chars) =
        bounded_public_text_bounds ext message max_command_rejection_message_bytes in
      omega (
        arith,
        bound,
        byte_len-spaced text,
        byte_len-trim_start (map spaced_control text),
        byte_len-trim_end (trim_start (map spaced_control text)),
      )

  -- The frames that a command may send: a create's rejection, whose text is bounded and which names the
  -- request only by a valid identifier; a create's row and the list; and a page of a stored session.
  abbrev pub IsAnswer : Desk Value → RemoteCommand → SyncFrame Value → Type 0
  IsAnswer desk (RemoteCommand.create_session request_id title) (command_rejected r code message) =
      ((r ≡ none) ⊎ ((r ≡ some request_id) × (valid_remote_identifier request_id ≡ true)))
      × (byte_len message ≤ max_command_rejection_message_bytes)
  IsAnswer desk (RemoteCommand.create_session request_id title) (session_created id session) =
      valid_remote_identifier request_id ≡ true
  IsAnswer desk (RemoteCommand.create_session request_id title) (session_list sessions) =
      valid_remote_identifier request_id ≡ true
  IsAnswer desk (RemoteCommand.fetch_messages id before_seq limit) (message_page page rows more) =
      IsSession desk id
  IsAnswer desk command frame = ⊥

  -- What a command may make the desktop do.
  abbrev pub IsAdmitted : Desk Value → RemoteCommand → Action Value → Type 0
  IsAdmitted desk (RemoteCommand.run id text) (run_turn session_id prompt settings) =
      (session_id ≡ id)
      × IsSession desk id
      × (byte_len text ≤ max_remote_run_text_bytes)
      × (prompt ≡ trim text)
      × (prompt ≢ [])
      × (desk.settings ≡ some settings)
  IsAdmitted desk (RemoteCommand.cancel id) (interrupt_session session_id) =
      (session_id ≡ id) × IsSession desk id
  IsAdmitted desk (RemoteCommand.cancel_agent id) (interrupt_agent agent_id) =
      (agent_id ≡ id) × (valid_remote_identifier id ≡ true)
  IsAdmitted desk (RemoteCommand.permission id decision) (resolve_approval request allow session) =
      (request ≡ id)
      × (valid_remote_identifier id ≡ true)
      × ((allow ≡ true) ↔ (decision ≡ codes "allow"))
      × (session ≡ false)
  IsAdmitted desk command (publish_to_hub frame) = IsAnswer desk command frame
  IsAdmitted desk command action = ⊥

  AllAdmitted : Desk Value → RemoteCommand → List (Action Value) → Type 0
  AllAdmitted desk command actions = All (IsAdmitted desk command) actions

  pub published-Admitted :
      (hub : Bool) (desk : Desk Value) (command : RemoteCommand) (frame : SyncFrame Value)
      → IsAdmitted desk command (publish_to_hub frame)
      → All (IsAdmitted desk command) (if hub then publish_to_hub frame ∷ [] else [])
  published-Admitted true desk command frame h = (h, tt)
  published-Admitted false desk command frame h = tt

  settings-Admitted :
      (settings : Option Settings) (desk : Desk Value) (id session_id text : Text)
      → desk.settings ≡ settings
      → session_id ≡ id
      → IsSession desk id
      → byte_len text ≤ max_remote_run_text_bytes
      → trim text ≢ []
      → All
          (IsAdmitted desk (RemoteCommand.run id text))
          (elim settings [ none ↦ [] | some t ↦ run_turn session_id (trim text) t ∷ [] ])
  settings-Admitted none desk id session_id text n k known small full = tt
  settings-Admitted (some t) desk id session_id text n k known small full =
      ((k, known, small, refl, full, n), tt)

  pub run-Admitted :
      (desk : Desk Value) (id text : Text)
      → All (IsAdmitted desk (RemoteCommand.run id text)) (handle_run desk id text)
  unfolding handle_run
  run-Admitted desk id text = elim (Option-cases (authoritative_remote_session_id desk id)) [
    | inl e ↦ rw (handle_run, e) tt
    | inr (s, e) ↦
        let (k, known) = authoritative_lem desk id s e in
        elim (Bool-cases
          (same text [] || ltb max_remote_run_text_bytes (byte_len text) || same (trim text) [])) [
            | inl bad ↦ rw (handle_run, e, bad) tt
            | inr good ↦
                let (small, full) = text_lem (same text []) _ _ good in
                rw (handle_run, e, good)
                  (settings-Admitted desk.settings desk id s text refl (sym k) known
                    (ltb-false _ _ small) (not_blank (trim text) full))
          ]
  ]

  pub cancel-Admitted :
      (desk : Desk Value) (id : Text)
      → All (IsAdmitted desk (RemoteCommand.cancel id)) (handle_cancel desk id)
  unfolding handle_cancel
  cancel-Admitted desk id = elim (Option-cases (authoritative_remote_session_id desk id)) [
    | inl e ↦ rw (handle_cancel, e) tt
    | inr (s, e) ↦
        let (k, known) = authoritative_lem desk id s e in rw (handle_cancel, e) ((sym k, known), tt)
  ]

  pub cancel_agent-Admitted :
      (desk : Desk Value) (id : Text)
      → All (IsAdmitted desk (RemoteCommand.cancel_agent id)) (handle_cancel_agent id)
  unfolding handle_cancel_agent
  cancel_agent-Admitted desk id = elim (Bool-cases (valid_remote_identifier id)) [
    | inl e ↦ rw (handle_cancel_agent, e) ((refl, e), tt)
    | inr e ↦ rw (handle_cancel_agent, e) tt
  ]

  pub permission-Admitted :
      (desk : Desk Value) (id decision : Text)
      → All (IsAdmitted desk (RemoteCommand.permission id decision)) (handle_permission id decision)
  unfolding handle_permission parse_decision
  permission-Admitted desk id decision = elim (Bool-cases (valid_remote_identifier id)) [
    | inl e ↦ rw (handle_permission, e) ((refl, e, same_iff decision (codes "allow"), refl), tt)
    | inr e ↦ rw (handle_permission, e) tt
  ]

  pub fetch-Admitted :
      (desk : Desk Value) (id : Text) (before_seq : ℤ) (limit : ℕ)
      → All
          (IsAdmitted desk (RemoteCommand.fetch_messages id before_seq limit))
          (handle_fetch_messages ext desk id before_seq limit)
  unfolding handle_fetch_messages message_page_frame
  fetch-Admitted desk id before_seq limit =
      elim (Option-cases (authoritative_remote_session_id desk id)) [
        | inl e ↦ rw (handle_fetch_messages, e) tt
        | inr (s, e) ↦
            let (k, known) = authoritative_lem desk id s e in
            rw (handle_fetch_messages, e)
              (published-Admitted desk.has_hub desk
                (RemoteCommand.fetch_messages id before_seq limit) _ known)
      ]

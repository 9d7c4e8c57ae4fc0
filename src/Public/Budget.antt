-- ===== src/Public/Budget.antt =====
-- Frames built row by row: they fit their budget, and hold the longest first part of the rows.
use portcode.Common.{
  ℕ, suc, ◌+◌, ◌<◌, ◌≡◌, refl, sym, ◌∙◌, true, false, List, [], ◌∷◌, ◌++◌, map, inl, inr, arith,
  append_assoc, append-nil, Bool-cases, Text, byte_len, length, take,
}
use portcode.External.{External, Sha256Laws, JsonLaws}
use portcode.Wire.{SessionRow, MessageRow, SyncFrame, session_list, message_delta}
use portcode.Public.Bounded.{public_identifier}
use portcode.Public.Rows.{project_session, project_message}
use portcode.Public.Frames.{
  phone_frame_budget, frame_fits, push_while_fits, session_list_rows, session_list_frame,
  message_delta_rows, message_delta_frame,
}
use portcode.Public.Fits.{frame_fits_iff, EncodesWithin-le, identifier-fits}

module _ {Value : Type 0} (ext : External Value) where
  -- The rows kept are the first ones, they fit, and one more would not.
  pub record IsLongestFit {A B : Type 0} (frame : List B → SyncFrame Value) (project : A → B)
      (rows : List A) (public kept : List B) : Type 0 where
    pub count : ℕ
    pub is_prefix : kept ≡ public ++ take count (map project rows)
    pub fits : frame_fits ext (frame kept) phone_frame_budget ≡ true
    pub is_longest :
        count < length rows
        → frame_fits ext (frame (public ++ take (suc count) (map project rows))) phone_frame_budget
          ≡ false

  push_while_fits-IsLongestFit :
      {A B : Type 0} (frame : List B → SyncFrame Value) (project : A → B) (public : List B)
      (rows : List A)
      → frame_fits ext (frame public) phone_frame_budget ≡ true
      → IsLongestFit frame project rows public (push_while_fits ext frame project public rows)
  unfolding push_while_fits
  push_while_fits-IsLongestFit frame project public [] h = record {
    count = 0;
    is_prefix = sym (append-nil public);
    fits = h;
    is_longest = λ lt. absurd (omega arith);
  }
  push_while_fits-IsLongestFit frame project public (row ∷ rows) h =
      elim (Bool-cases (frame_fits ext (frame (public ++ project row ∷ [])) phone_frame_budget)) [
        | inl good ↦
            let r =
              push_while_fits-IsLongestFit frame project (public ++ project row ∷ []) rows good in
            rw good (record {
              count = suc r.count;
              is_prefix = r.is_prefix ∙ append_assoc public (project row ∷ []) _;
              fits = r.fits;
              is_longest = λ lt. rw append_assoc at (r.is_longest (omega arith));
            })
        | inr bad ↦ rw bad (record {
          count = 0;
          is_prefix = sym (append-nil public);
          fits = h;
          is_longest = λ lt. bad;
        })
      ]

module _ {Value : Type 0} (ext : External Value) where
  module _ (sha : Sha256Laws ext) (json : JsonLaws ext) where
    -- The session list frame fits its budget, and holds the longest part of the projected sessions,
    -- from the first on, that does.
    pub session_list_frame-IsLongestFit :
        (sessions : List SessionRow)
        → (session_list_frame ext sessions ≡ session_list (session_list_rows ext sessions))
          × IsLongestFit ext session_list
              (project_session ext)
              sessions
              []
              (session_list_rows ext sessions)
    unfolding session_list_frame session_list_rows
    session_list_frame-IsLongestFit sessions = (
      refl,
      push_while_fits-IsLongestFit ext session_list (project_session ext) [] sessions (
          frame_fits_iff ext _ _
            (EncodesWithin-le ext _ 64 _ (omega arith) json.session_list_empty)),
    )

    -- A catch-up delta fits its budget, and holds the longest part of the projected rows, from the
    -- first on, that does: a cursor at its last row skips none.
    pub message_delta_frame-IsLongestFit :
        (session_id : Text) (messages : List (MessageRow Value))
        → let id = public_identifier ext session_id in
          (message_delta_frame ext session_id messages
            ≡ message_delta id (message_delta_rows ext id messages))
          × IsLongestFit ext
              (message_delta id)
              (project_message ext)
              messages
              []
              (message_delta_rows ext id messages)
    unfolding message_delta_frame message_delta_rows
    message_delta_frame-IsLongestFit session_id messages =
        let id = public_identifier ext session_id in
        let (plain, short) = identifier-fits ext sha session_id in
        (
          refl,
          push_while_fits-IsLongestFit ext (message_delta id) (project_message ext) [] messages (
              frame_fits_iff ext _ _ (
                EncodesWithin-le ext _ (64 + byte_len id) _ (omega arith)
                  (json.message_delta_empty id plain))),
        )

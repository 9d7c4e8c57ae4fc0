-- ===== src/Session/Agreement.antt =====
-- Catch-up from both ends: what the desktop sends, and when the phone accepts it.
use portcode.Common.{
  ◌≡◌, ◌↔◌, refl, sym, ap, ◌∙◌, Bool, true, false, List, [], ◌∷◌, ◌++◌, map, inl, inr, append_assoc,
  append-nil, Bool-cases, unwrap_or, ℤ, negsuc, Text, same, same_iff, length, take, Result, ok, err,
  is_ok, IsPrefix, IsPrefix-nil, IsPrefix-cons,
}
use portcode.External.{External}
use portcode.Wire.{
  Cursor, SyncFrame, SessionRow, PhoneSessionRow, PhoneMessageRow, hello, message_delta,
}
use portcode.Public.{
  public_identifier, session_list_frame, session_list_rows, message_delta_frame, message_delta_rows,
}
use portcode.Session.Transport.{RecvError, Channel, open_channel}
use portcode.Session.Exchange.{
  Db, sync_cache_window, push_delta, finish, read_deltas, request_catch_up, get_seq, collect_seqs,
  listed, delta_for, send_deltas, serve_sessions, serve_catch_up,
}

IsPrefix-uncons :
    {A : Type 0} {x y : A} {xs ys : List A} → IsPrefix (x ∷ xs) (y ∷ ys) → (x ≡ y) × IsPrefix xs ys
IsPrefix-uncons {A} {x} {y} {xs} {ys} p =
    let e : x ∷ (xs ++ p.rest) ≡ y ∷ ys = p.splits in (cc, record { rest = p.rest; splits = cc })

IsPrefix-cons_nil : {A : Type 0} {x : A} {xs : List A} → IsPrefix (x ∷ xs) [] → ⊥
IsPrefix-cons_nil {A} {x} {xs} p = let e : x ∷ (xs ++ p.rest) ≡ [] = p.splits in cc

module _ {Value : Type 0} (ext : External Value) (db : Db Value) where
  -- The sessions that the bounded session list names.
  abbrev pub served : List SessionRow → List SessionRow
  served sessions = take (listed (session_list_frame ext sessions)) sessions

  -- The whole reply: the session list, and one delta for each session that it names.
  abbrev pub reply : List Cursor → List SessionRow → List (SyncFrame Value)
  reply cursors sessions =
      session_list_frame ext sessions
      ∷ map (delta_for ext db (collect_seqs [] cursors)) (served sessions)

  send_deltas-lem :
      (seqs : List (Text × ℤ)) (sessions : List SessionRow)
      (incoming : List (Result RecvError (SyncFrame Value))) (sent : List (SyncFrame Value))
      → send_deltas ext db seqs sessions (open_channel incoming sent)
        ≡ (ok tt, open_channel incoming (sent ++ map (delta_for ext db seqs) sessions))
  unfolding send_deltas
  send_deltas-lem seqs [] incoming sent =
      ap (λ t. (ok tt, open_channel incoming t)) (sym (append-nil sent))
  send_deltas-lem seqs (s ∷ ss) incoming sent =
      send_deltas-lem seqs ss incoming (sent ++ delta_for ext db seqs s ∷ [])
      ∙ ap (λ t. (ok tt, open_channel incoming t)) (append_assoc sent _ _)

  -- What the desktop is to return and to have sent, by what the database answers.
  abbrev pub answer :
      List Cursor
      → List (Result RecvError (SyncFrame Value))
      → List (SyncFrame Value)
      → Result Text (List SessionRow)
      → Result Text (Unit {0}) × Channel Value
  answer cursors more sent (ok sessions) =
      (ok tt, open_channel more (sent ++ reply cursors sessions))
  answer cursors more sent (err e) = (err e, open_channel more sent)

  serve_sessions-answer :
      (cursors : List Cursor) (more : List (Result RecvError (SyncFrame Value)))
      (sent : List (SyncFrame Value)) (listing : Result Text (List SessionRow))
      → serve_sessions ext db cursors (open_channel more sent) listing
        ≡ answer cursors more sent listing
  serve_sessions-answer cursors more sent (ok sessions) =
      send_deltas-lem (collect_seqs [] cursors) (served sessions) more
        (sent ++ session_list_frame ext sessions ∷ [])
      ∙ ap (λ t. (ok tt, open_channel more t)) (append_assoc sent _ _)
  serve_sessions-answer cursors more sent (err e) = refl

  -- When no send fails, the desktop answers a Hello with the bounded session list and then one delta for
  -- each session in it, in that order. If the sessions cannot be read it sends nothing and returns the
  -- database's error.
  pub serve_catch_up-reply :
      (device_id : Text) (cursors : List Cursor) (more : List (Result RecvError (SyncFrame Value)))
      (sent : List (SyncFrame Value))
      → serve_catch_up ext db (open_channel (ok (hello device_id cursors) ∷ more) sent)
        ≡ answer cursors more sent db.list_sessions
  unfolding serve_catch_up
  serve_catch_up-reply device_id cursors more sent =
      serve_sessions-answer cursors more sent db.list_sessions

  abbrev pub delta_parts : List (Text × ℤ) → SessionRow → Text × List (PhoneMessageRow Value)
  delta_parts seqs session =
      let id = public_identifier ext session.id in
      let after_seq = unwrap_or (get_seq session.id seqs) (negsuc 0) in
      (id, message_delta_rows ext id (db.messages_tail session.id after_seq sync_cache_window))

  -- The next frame is no delta.
  abbrev pub no_delta : List (Result RecvError (SyncFrame Value)) → Bool
  no_delta (ok (message_delta session_id messages) ∷ more) = false
  no_delta _ = true

  read_deltas-none :
      (cursor : Cursor) (cursors : List Cursor) (more : List (Result RecvError (SyncFrame Value)))
      (sent : List (SyncFrame Value))
      → no_delta more ≡ true
      → is_ok (read_deltas (cursor ∷ cursors) (open_channel more sent)).0 ≡ false
  unfolding read_deltas
  read_deltas-none cursor cursors (ok (message_delta session_id messages) ∷ more) sent h = cc
  read_deltas-none cursor cursors _ sent h = refl

  is_ok-push_delta :
      (d : Text × List (PhoneMessageRow Value))
      (r : Result Text (List (Text × List (PhoneMessageRow Value))) × Channel Value)
      → is_ok (push_delta d r).0 ≡ is_ok r.0
  is_ok-push_delta d (ok x, ch) = refl
  is_ok-push_delta d (err e, ch) = refl

  ok-push_delta :
      (d : Text × List (PhoneMessageRow Value)) (ds : List (Text × List (PhoneMessageRow Value)))
      (r : Result Text (List (Text × List (PhoneMessageRow Value))) × Channel Value)
      → r.0 ≡ ok ds
      → (push_delta d r).0 ≡ ok (d ∷ ds)
  ok-push_delta d ds (ok x, ch) h = cc
  ok-push_delta d ds (err e, ch) h = cc

  module _ (seqs : List (Text × ℤ)) (more : List (Result RecvError (SyncFrame Value)))
      (sent : List (SyncFrame Value)) (quiet : no_delta more ≡ true) where
    answers : List SessionRow → List (Result RecvError (SyncFrame Value))
    answers sessions = map ok (map (delta_for ext db seqs) sessions) ++ more

    read_deltas-agree :
        (cursors : List Cursor) (sessions : List SessionRow)
        → (IsPrefix
              (map (λ (c : Cursor). c.session_id) cursors)
              (map (λ (s : SessionRow). public_identifier ext s.id) sessions)
            → (read_deltas cursors (open_channel (answers sessions) sent)).0
              ≡ ok (take (length cursors) (map (delta_parts seqs) sessions)))
          × (is_ok (read_deltas cursors (open_channel (answers sessions) sent)).0 ≡ true
              → IsPrefix
                  (map (λ (c : Cursor). c.session_id) cursors)
                  (map (λ (s : SessionRow). public_identifier ext s.id) sessions))
    unfolding read_deltas message_delta_frame answers
    read_deltas-agree [] sessions = (λ p. refl, λ h. IsPrefix-nil _)
    read_deltas-agree (c ∷ cs) [] = (
      λ p. absurd (IsPrefix-cons_nil p),
      λ h. absurd (let n = read_deltas-none c cs more sent quiet in cc),
    )
    read_deltas-agree (c ∷ cs) (s ∷ ss) =
        let (there, back) = read_deltas-agree cs ss in
        let id = public_identifier ext s.id in
        elim (Bool-cases (same id c.session_id)) [
          | inl e ↦ rw e (
            λ p. ok-push_delta _ _ _ (there (IsPrefix-uncons p).1),
            λ h.
                rw (← (same_iff id c.session_id).0 e)
                  (IsPrefix-cons _ (back (sym (is_ok-push_delta _ _) ∙ h))),
          )
          | inr e ↦ rw e (
            λ p. absurd (
                let q = (IsPrefix-uncons p).0 in
                let k = (same_iff id c.session_id).1 (sym q) in cc),
            λ h. cc,
          )
        ]

  -- The phone asks for sessions that the desktop's list begins with, in the list's order.
  abbrev pub AsksInOrder : List Cursor → List SessionRow → Type 0
  AsksInOrder cursors sessions =
      IsPrefix (map (λ (c : Cursor). c.session_id) cursors)
        (map (λ (s : SessionRow). public_identifier ext s.id) (served sessions))

  is_ok-finish :
      (rows : List PhoneSessionRow)
      (r : Result Text (List (Text × List (PhoneMessageRow Value))) × Channel Value)
      → is_ok (finish rows r).0 ≡ is_ok r.0
  is_ok-finish rows (ok x, ch) = refl
  is_ok-finish rows (err e, ch) = refl

  ok-finish :
      (rows : List PhoneSessionRow) (ds : List (Text × List (PhoneMessageRow Value)))
      (r : Result Text (List (Text × List (PhoneMessageRow Value))) × Channel Value)
      → r.0 ≡ ok ds
      → (finish rows r).0 ≡ ok (record { sessions = rows; deltas = ds })
  ok-finish rows ds (ok x, ch) h = cc
  ok-finish rows ds (err e, ch) h = cc

  -- The channel of a phone whose request the desktop has answered.
  abbrev pub replied :
      List Cursor
      → List SessionRow
      → List (Result RecvError (SyncFrame Value))
      → List (SyncFrame Value)
      → Channel Value
  replied cursors sessions more sent = open_channel (map ok (reply cursors sessions) ++ more) sent

  -- A request for catch-up succeeds on the desktop's reply exactly when its cursors name the first listed
  -- sessions in the list's order. What follows the reply is no delta.
  pub request_catch_up-agree :
      (device_id : Text) (cursors : List Cursor) (sessions : List SessionRow)
      (more : List (Result RecvError (SyncFrame Value))) (sent : List (SyncFrame Value))
      → no_delta more ≡ true
      → (is_ok (request_catch_up device_id cursors (replied cursors sessions more sent)).0 ≡ true)
        ↔ AsksInOrder cursors sessions
  unfolding request_catch_up session_list_frame answers
  request_catch_up-agree device_id cursors sessions more sent quiet =
      let seqs = collect_seqs [] cursors in
      let asked = sent ++ hello device_id cursors ∷ [] in
      let (there, back) = read_deltas-agree seqs more asked quiet cursors (served sessions) in
      let r =
        read_deltas cursors
          (open_channel (answers seqs more asked quiet (served sessions)) asked) in
      (λ h. back (sym (is_ok-finish _ r) ∙ h), λ p. ap is_ok (ok-finish _ _ r (there p)))

  -- It then holds the listed sessions and, for each cursor, the rows that the desktop sent for it.
  pub request_catch_up-deltas :
      (device_id : Text) (cursors : List Cursor) (sessions : List SessionRow)
      (more : List (Result RecvError (SyncFrame Value))) (sent : List (SyncFrame Value))
      → no_delta more ≡ true
      → AsksInOrder cursors sessions
      → (request_catch_up device_id cursors (replied cursors sessions more sent)).0
        ≡ ok (record {
          sessions = session_list_rows ext sessions;
          deltas =
              take (length cursors) (map (delta_parts (collect_seqs [] cursors)) (served sessions));
        })
  unfolding request_catch_up session_list_frame answers
  request_catch_up-deltas device_id cursors sessions more sent quiet p =
      let seqs = collect_seqs [] cursors in
      let asked = sent ++ hello device_id cursors ∷ [] in
      let r =
        read_deltas cursors
          (open_channel (answers seqs more asked quiet (served sessions)) asked) in
      ok-finish _ _ r ((read_deltas-agree seqs more asked quiet cursors (served sessions)).0 p)

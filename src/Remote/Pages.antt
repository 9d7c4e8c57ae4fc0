-- ===== src/Remote/Pages.antt =====
-- The page of older messages that a phone asks for.
use mathlib.Core.List.{reverse, Perm}
use portcode.Common.{
  ℕ, ◌+◌, ◌≤◌, ◌≡◌, ◌↔◌, min, sym, ap, ◌∙◌, subst, Bool, true, false, List, ◌++◌, inl, inr, arith,
  map, Bool-cases, ltb, leb, length, length-append, length-take, length-map, take, take-map, drop,
  take-append-drop, All, Text, ℤ, if◌then◌else◌,
}
use portcode.Wire.{MessageRow}
use portcode.Remote.Messages.{StoredMessage, rows_before, newest_first}
use portcode.Remote.State.{Desk, messages_page}
use portcode.Remote.Newest.{
  take-take, take-all, All-take, All-newest_first, newest_first-NewestFirst, newest_first-Perm,
  newest_first-length, filter_map-Converts, NewestFirst, Converts, message_of,
}

-- A page of stored rows: the rows are split into those of the page and older ones, in the order of their
-- sequence numbers; the page has as many as the limit allows, is answered oldest first, and is marked as
-- having more before it exactly if there are older rows.
pub record IsNewest {Value : Type 0} (stored : List (StoredMessage Value)) (limit : ℕ)
    (answer : List (MessageRow Value) × Bool) : Type 0 where
  pub page : List (StoredMessage Value)
  pub older : List (StoredMessage Value)
  pub whole : Perm (page ++ older) stored
  pub ordered : NewestFirst (page ++ older)
  pub size : length page ≡ min limit (length stored)
  pub shown : answer.0 ≡ reverse (map message_of page)
  pub flagged : (answer.1 ≡ true) ↔ (1 ≤ length older)

module _ {Value : Type 0} where
  cut_lem :
      (limit : ℕ) (sorted : List (StoredMessage Value))
      → (let found = map message_of (take (limit + 1) sorted) in
          if ltb limit (length found) then take limit found else found)
        ≡ map message_of (take limit sorted)
  cut_lem limit sorted =
      let found = map message_of (take (limit + 1) sorted) in
      let found_length : length found ≡ min (limit + 1) (length sorted) =
        length-map message_of (take (limit + 1) sorted) ∙ length-take (limit + 1) sorted in
      elim (Bool-cases (ltb limit (length found))) [
        | inl e ↦ rw e (
            take-map message_of limit (take (limit + 1) sorted)
            ∙ ap (map message_of) (take-take limit (limit + 1) sorted (omega arith)))
        | inr e ↦
            let few : length sorted ≤ limit = ground (arith, found_length) in
            rw e (
              ap (map message_of)
                (take-all (limit + 1) sorted (omega arith) ∙ sym (take-all limit sorted few)))
      ]

  newest_lem :
      (limit : ℕ) (stored : List (StoredMessage Value))
      → IsNewest stored limit (
          let found = map message_of (take (limit + 1) (newest_first stored)) in
          (
            reverse (if ltb limit (length found) then take limit found else found),
            ltb limit (length found),
          ))
  newest_lem limit stored =
      let sorted = newest_first stored in
      let split = take-append-drop limit sorted in
      let count = newest_first-length stored in
      let page = length-take limit sorted in
      let rest : length (take limit sorted) + length (drop limit sorted) ≡ length sorted =
        sym (length-append (take limit sorted) (drop limit sorted)) ∙ ap length split in
      let found_length =
        length-map message_of (take (limit + 1) sorted) ∙ length-take (limit + 1) sorted in
      record {
        page = take limit sorted;
        older = drop limit sorted;
        whole = subst (λ xs. Perm xs stored) (sym split) (newest_first-Perm stored);
        ordered = subst NewestFirst (sym split) (newest_first-NewestFirst stored);
        size = omega (arith, page, count);
        shown = ap reverse (cut_lem limit sorted);
        flagged = ground (arith, found_length, rest, page);
      }

  -- When the query runs and every row of the session below the cursor converts, a page of at least one
  -- row holds those with the greatest sequence numbers, as many as the limit allows, oldest first and
  -- without their reasoning, and says that there are more exactly if some are left out.
  pub messages_page-IsNewest :
      (desk : Desk Value) (session_id : Text) (before_seq : ℤ) (limit : ℕ)
      → 1 ≤ limit
      → desk.can_query ≡ true
      → All Converts (rows_before session_id before_seq desk.messages)
      → IsNewest
          (rows_before session_id before_seq desk.messages)
          limit
          (messages_page session_id before_seq limit desk)
  unfolding messages_page
  messages_page-IsNewest desk session_id before_seq limit h q c =
      let stored = rows_before session_id before_seq desk.messages in
      let some_rows : leb limit 0 ≡ false = ground arith in
      let converted = filter_map-Converts (take (limit + 1) (newest_first stored)) (
        All-take Converts (limit + 1) (newest_first stored) (All-newest_first Converts stored c)) in
      rw (some_rows, q, converted) (newest_lem limit stored)

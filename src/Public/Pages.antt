-- ===== src/Public/Pages.antt =====
-- Pages of older history: they fit their budget, and hold a gap-free last part of the rows.
use mathlib.Core.List.{reverse, reverse-cons, reverse-reverse, map-append}
use portcode.Common.{
  ◌+◌, ◌≤◌, ◌≡◌, refl, sym, ap, ◌∙◌, Bool, true, false, ◌||◌, not, List, [], ◌∷◌, ◌++◌, map, inl,
  inr, arith, append_assoc, append-nil, Bool-cases, Text, byte_len, all, subst,
}
use portcode.External.{External, Sha256Laws, JsonLaws, is_plain}
use portcode.Wire.{MessageRow, PhoneMessageRow, message_page}
use portcode.Public.Bounded.{public_identifier}
use portcode.Public.Rows.{project_message}
use portcode.Public.Frames.{
  Page, phone_frame_budget, frame_fits, page_loop, message_page_rows, message_page_frame,
}
use portcode.Public.Fits.{frame_fits_iff, fits-EncodesWithin, EncodesWithin-le, identifier-fits}

abbrev is_nil : {A : Type 0} → List A → Bool
is_nil [] = true
is_nil (x ∷ xs) = false

not-is_nil-snoc : {A : Type 0} (xs : List A) (x : A) → not (is_nil (xs ++ x ∷ [])) ≡ true
not-is_nil-snoc [] x = refl
not-is_nil-snoc (y ∷ xs) x = refl

-- The rows of a page end the rows asked for; the flag tells whether some are missing in front.
pub record IsSuffixPage {A : Type 0} (rows : List A) (page : Page A) : Type 0 where
  pub missing : List A
  pub is_suffix : rows ≡ missing ++ page.messages
  pub flagged : page.dropped ≡ not (is_nil missing)

module _ {Value : Type 0} (ext : External Value) where
  page_loop-IsSuffixPage :
      (id : Text) (more : Bool) (public : List (PhoneMessageRow Value))
      (rows : List (MessageRow Value))
      → IsSuffixPage
          (map (project_message ext) (reverse rows) ++ public)
          (page_loop ext id more public rows)
  unfolding page_loop
  page_loop-IsSuffixPage id more public [] = record {
    missing = [];
    is_suffix = refl;
    flagged = refl;
  }
  page_loop-IsSuffixPage id more public (row ∷ rows) =
      let split =
        ap (map (project_message ext)) (reverse-cons row rows)
        ∙ map-append (project_message ext) (reverse rows) (row ∷ []) in
      elim (Bool-cases (
        frame_fits ext (message_page id (project_message ext row ∷ public) (more || false))
          phone_frame_budget)) [
            | inl good ↦
                let r = page_loop-IsSuffixPage id more (project_message ext row ∷ public) rows in
                rw (good, split, append_assoc) r
            | inr bad ↦
                rw (bad, split)
                  (record {
                    missing =
                        map (project_message ext) (reverse rows) ++ project_message ext row ∷ [];
                    is_suffix = refl;
                    flagged = sym (not-is_nil-snoc _ _);
                  })
          ]

  page_loop-fits :
      (id : Text) (more : Bool) (public : List (PhoneMessageRow Value))
      (rows : List (MessageRow Value))
      → frame_fits ext (message_page id public more) phone_frame_budget ≡ true
      → frame_fits ext
          (message_page id (page_loop ext id more public rows).messages more)
          phone_frame_budget
        ≡ true
  unfolding page_loop
  page_loop-fits id more public [] h = h
  page_loop-fits id more public (row ∷ rows) h =
      elim (Bool-cases (
        frame_fits ext (message_page id (project_message ext row ∷ public) (more || false))
          phone_frame_budget)) [
            | inl good ↦ rw good (
                page_loop-fits id more (project_message ext row ∷ public) rows (
                  subst
                    (λ m.
                      frame_fits ext (message_page id (project_message ext row ∷ public) m)
                        phone_frame_budget
                      ≡ true)
                    (or_false more) good))
            | inr bad ↦ rw bad h
          ]
    where
      or_false : (b : Bool) → (b || false) ≡ b
      or_false true = refl
      or_false false = refl

  module _ (sha : Sha256Laws ext) (json : JsonLaws ext) where
    page-fits :
        (id : Text) (rows : List (PhoneMessageRow Value)) (more dropped : Bool)
        → frame_fits ext (message_page id rows more) phone_frame_budget ≡ true
        → frame_fits ext (message_page id rows (more || dropped)) phone_frame_budget ≡ true
    page-fits id rows true dropped h = h
    page-fits id rows false false h = h
    page-fits id rows false true h =
        frame_fits_iff ext _ _ (json.message_page_flag id rows _ (fits-EncodesWithin ext _ _ h))

    page_empty-fits :
        (id : Text) (more : Bool)
        → all is_plain id ≡ true
        → byte_len id ≤ 128
        → frame_fits ext (message_page id [] more) phone_frame_budget ≡ true
    page_empty-fits id more plain short = page-fits id [] false more (
        frame_fits_iff ext _ _ (
          EncodesWithin-le ext _ (80 + byte_len id) _ (omega arith)
            (json.message_page_empty id plain)))

    -- An older page fits its budget and ends the projected rows with no gap; it says that there is
    -- more exactly when the caller did or when rows in front were dropped.
    pub message_page_frame-IsSuffixPage :
        (session_id : Text) (messages : List (MessageRow Value)) (has_more : Bool)
        → let id = public_identifier ext session_id in
          let page = message_page_rows ext id messages has_more in
          (message_page_frame ext session_id messages has_more
            ≡ message_page id page.messages (has_more || page.dropped))
          × IsSuffixPage (map (project_message ext) messages) page
          × (frame_fits ext (message_page_frame ext session_id messages has_more) phone_frame_budget
              ≡ true)
    unfolding message_page_frame message_page_rows
    message_page_frame-IsSuffixPage session_id messages has_more =
        let id = public_identifier ext session_id in
        let (plain, short) = identifier-fits ext sha session_id in
        (
          refl,
          rw (reverse-reverse, append-nil) at
              (page_loop-IsSuffixPage id has_more [] (reverse messages)),
          page-fits id _ has_more _ (
              page_loop-fits id has_more [] (reverse messages)
                (page_empty-fits id has_more plain short)),
        )

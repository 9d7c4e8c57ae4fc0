-- ===== src/Remote/Messages.antt =====
-- db.rs: the rows of messages that a page reads. The columns of a row are the query's: the blocks that its
-- JSON decodes to, and the receipt that the query picks for it.
use portcode.Common.{
  Bool, true, false, ◌&&◌, List, [], ◌∷◌, Option, none, some, if◌then◌else◌, ltb, Text, same, ℤ,
  pos, negsuc,
}
use portcode.Wire.{Block, MessageRow}

-- `converts` says whether every column of the row has its type.
pub record StoredMessage (Value : Type 0) : Type 0 where
  pub row : MessageRow Value
  pub converts : Bool

-- `i64`'s order.
abbrev pub less : ℤ → ℤ → Bool
less (pos m) (pos n) = ltb m n
less (pos m) (negsuc n) = false
less (negsuc m) (pos n) = true
less (negsuc m) (negsuc n) = ltb n m

module _ {Value : Type 0} where
  abbrev pub is_reasoning : Block Value → Bool
  is_reasoning (Block.reasoning model id encrypted summary) = true
  is_reasoning _ = false

  -- `retain`: the blocks of reasoning are not replicated.
  unfoldable pub without_reasoning : List (Block Value) → List (Block Value)
  without_reasoning [] = []
  without_reasoning (b ∷ bs) =
      let rest = without_reasoning bs in if is_reasoning b then rest else b ∷ rest

  abbrev pub public_row : MessageRow Value → MessageRow Value
  public_row row = record row { content = without_reasoning row.content }

  unfoldable pub row_to_message : StoredMessage Value → Option (MessageRow Value)
  row_to_message m = if m.converts then some (public_row m.row) else none

  -- WHERE session_id = ? AND seq < ?
  unfoldable pub rows_before : Text → ℤ → List (StoredMessage Value) → List (StoredMessage Value)
  rows_before session_id before_seq [] = []
  rows_before session_id before_seq (m ∷ ms) =
      let rest = rows_before session_id before_seq ms in
      if same m.row.session_id session_id && less m.row.seq before_seq then m ∷ rest else rest

  -- ORDER BY seq DESC
  unfoldable pub insert_by_seq :
      StoredMessage Value → List (StoredMessage Value) → List (StoredMessage Value)
  insert_by_seq m [] = m ∷ []
  insert_by_seq m (n ∷ ns) =
      let rest = insert_by_seq m ns in if less n.row.seq m.row.seq then m ∷ n ∷ ns else n ∷ rest

  unfoldable pub newest_first : List (StoredMessage Value) → List (StoredMessage Value)
  newest_first [] = []
  newest_first (m ∷ ms) = insert_by_seq m (newest_first ms)

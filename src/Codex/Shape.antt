-- ===== src/Codex/Shape.antt =====
-- How large the sanitized value of an event can be: its nesting, its strings, arrays and objects.
use portcode.Common.{
  ℕ, zero, suc, subst, len_utf8, Option-cases, ◌&&◌, ◌≤◌, ◌≡◌, Bool, true, not, ◌||◌, some, inl,
  inr, arith, Bool-cases, leb, leb→le, Text, codes, byte_len, floor_boundary, byte_len-slice_to,
  floor_boundary-le,
}
use portcode.Codex.{
  Value, null, bool, number, string, array, object, Values, nil, cons, Fields, end, field,
  value_count, max_activity_fields, max_activity_array_items, max_activity_string_bytes,
  is_reasoning_key, is_known_secret_key, is_safe_reasoning_metadata_key, truncate_utf8,
  ActivitySanitization, redaction_marker, truncation_marker, is_true, upstream_marker, get_field,
  explicit_activity_marker, Node, sanitize_string, field_value,
}

module _ {Number : Type 0} where
  abbrev pub field_count : Fields Number → ℕ
  field_count end = 0
  field_count (field k v fs) = suc (field_count fs)

-- At most `n` levels of arrays and objects, arrays of at most 256 items, objects of at most 256
-- entries and strings of at most 16 KiB.
unfoldable mutual
  pub IsShaped : {Number : Type 0} → ℕ → Value Number → Type 0
  IsShaped n null = Unit
  IsShaped n (bool b) = Unit
  IsShaped n (number x) = Unit
  IsShaped n (string t) = byte_len t ≤ max_activity_string_bytes
  IsShaped zero (array vs) = ⊥
  IsShaped (suc n) (array vs) = (value_count vs ≤ max_activity_array_items) × AllItems n vs
  IsShaped zero (object fs) = ⊥
  IsShaped (suc n) (object fs) = (field_count fs ≤ max_activity_fields) × AllFields n fs

  pub AllItems : {Number : Type 0} → ℕ → Values Number → Type 0
  AllItems n nil = Unit
  AllItems n (cons v vs) = IsShaped n v × AllItems n vs

  pub AllFields : {Number : Type 0} → ℕ → Fields Number → Type 0
  AllFields n end = Unit
  AllFields n (field k v fs) = IsShaped n v × AllFields n fs

-- A sanitized value, and the count of entries, which grows and stays within its bound.
abbrev pub Shaped : {Number : Type 0} → ℕ → ActivitySanitization → Node Number → Type 0
Shaped n s out = IsShaped n out.0 × (s.fields ≤ out.1.fields) × (out.1.fields ≤ max_activity_fields)

pub marker_lem :
    (Number : Type 0) (n : ℕ) (key reason : Text)
    → 1 ≤ n
    → byte_len reason ≤ max_activity_string_bytes
    → IsShaped {Number = Number} n
        (object (field (codes "reason") (string reason) (field key (bool true) end)))
unfolding IsShaped
marker_lem Number zero key reason p l = absurd (omega arith)
marker_lem Number (suc n) key reason p l = (omega arith, (l, (tt, tt)))

pub sanitize_string_lem :
    (Number : Type 0) (n : ℕ) (t : Text) (s : ActivitySanitization)
    → s.fields ≤ max_activity_fields
    → Shaped n s (sanitize_string {Number = Number} t s)
unfolding IsShaped truncate_utf8
sanitize_string_lem Number n t s h =
    elim (Bool-cases (leb (byte_len t) max_activity_string_bytes)) [
      | inl e ↦ rw e (leb→le _ _ e, omega arith, h)
      | inr e ↦ rw e (
        omega (
          arith,
          byte_len-slice_to t (floor_boundary t max_activity_string_bytes),
          floor_boundary-le t max_activity_string_bytes,
        ),
        omega arith,
        h,
      )
    ]

module _ {Number : Type 0} where
  pub upstream_lem :
      (n : ℕ) (fs : Fields Number) (marker : Value Number)
      → 1 ≤ n
      → upstream_marker fs ≡ some marker
      → IsShaped n marker
  unfolding len_utf8
  upstream_lem n fs marker p e = elim (Bool-cases (is_true (get_field (codes "redacted") fs))) [
    | inl r ↦
        let t : some _ ≡ some marker = rw r at e in
        let m : redaction_marker (codes "upstream") ≡ marker = cc in
        subst (IsShaped n) m (marker_lem Number n _ (codes "upstream") p (omega arith))
    | inr r ↦ elim (Bool-cases (is_true (get_field (codes "truncated") fs))) [
      | inl t ↦
          let u : some _ ≡ some marker = rw (r, t) at e in
          let m : truncation_marker (codes "upstream") ≡ marker = cc in
          subst (IsShaped n) m (marker_lem Number n _ (codes "upstream") p (omega arith))
      | inr t ↦ let u = rw (r, t) at e in absurd cc
    ]
  ]

  explicit_lem :
      (n : ℕ) (v marker : Value Number)
      → 1 ≤ n
      → explicit_activity_marker v ≡ some marker
      → IsShaped n marker
  unfolding explicit_activity_marker
  explicit_lem n (object fs) marker p e = upstream_lem n fs marker p e
  explicit_lem n _ marker p e = absurd cc

  -- What a field gets is shaped if its node is.
  pub field_value_lem :
      (n : ℕ) (reasoning : Bool) (key : Text) (v : Value Number) (s : ActivitySanitization)
      (node : Node Number)
      → 1 ≤ n
      → s.fields ≤ max_activity_fields
      → Shaped n s node
      → Shaped n s (field_value reasoning key (explicit_activity_marker v) s node)
  unfolding len_utf8
  field_value_lem n reasoning key v s node p h k = elim (Bool-cases (is_known_secret_key key)) [
    | inl e ↦ rw e (marker_lem Number n _ (codes "knownSecret") p (omega arith), omega arith, h)
    | inr e ↦ elim (Option-cases (explicit_activity_marker v)) [
      | inr (marker, m) ↦ rw (e, m) (explicit_lem n v marker p m, omega arith, h)
      | inl m ↦
          elim (Bool-cases
            (is_reasoning_key key || (reasoning && not (is_safe_reasoning_metadata_key key)))) [
              | inl r ↦
                  rw (e, m, r)
                    (marker_lem Number n _ (codes "rawReasoning") p (omega arith), omega arith, h)
              | inr r ↦ rw (e, m, r) k
            ]
    ]
  ]

-- ===== src/Codex/Walk.antt =====
-- The bounds of `Shape`, along the walk over a value.
use portcode.Common.{
  ℕ, zero, suc, len_utf8, Option-cases, ◌+◌, ◌≤◌, ◌≡◌, refl, Bool, true, false, ◌||◌, inl, inr,
  arith, Bool-cases, leb, ltb, leb-false, if◌then◌else◌, Text, codes,
}
use portcode.Codex.{
  Value, null, bool, number, string, array, object, Values, nil, cons, Fields, end, field,
  value_count, max_activity_depth, max_activity_fields, max_activity_array_items,
  ActivitySanitization, default_stats, object_is_reasoning, upstream_marker,
  explicit_activity_marker, Node, counted, sanitize_string, array_stats, object_node, too_deep,
  field_value, sanitize_activity_node, sanitize_items, sanitize_fields, stats_truncated,
}
use portcode.Codex.Shape.{
  field_count, IsShaped, AllItems, AllFields, Shaped, marker_lem, sanitize_string_lem, upstream_lem,
  field_value_lem,
}

-- Items and entries behind a walk.
abbrev ShapedItems :
    {Number : Type 0} → ℕ → ℕ → ActivitySanitization → Values Number × ActivitySanitization → Type 0
ShapedItems n retained s out =
    AllItems n out.0
    × (value_count out.0 ≤ retained)
    × (s.fields ≤ out.1.fields)
    × (out.1.fields ≤ max_activity_fields)

abbrev ShapedFields :
    {Number : Type 0} → ℕ → ActivitySanitization → Fields Number × ActivitySanitization → Type 0
ShapedFields n s out =
    AllFields n out.0
    × (s.fields + field_count out.0 ≤ out.1.fields)
    × (out.1.fields ≤ max_activity_fields)

module _ {Number : Type 0} where
  -- At the depth limit a marker, above it the node.
  node_at :
      (deep : Bool) (n : ℕ) (s : ActivitySanitization) (node : Node Number)
      → 1 ≤ n
      → s.fields ≤ max_activity_fields
      → (deep ≡ false → Shaped n s node)
      → Shaped n s (if deep then too_deep s else node)
  unfolding len_utf8
  node_at true n s node p h k =
      (marker_lem Number n _ (codes "maxDepth") p (omega arith), omega arith, h)
  node_at false n s node p h k = k refl

  array_stats_fields :
      (vs : Values Number) (s : ActivitySanitization) → (array_stats vs s).fields ≡ s.fields
  array_stats_fields vs s = elim (Bool-cases (ltb max_activity_array_items (value_count vs))) [
    | inl e ↦ rw e refl
    | inr e ↦ rw e refl
  ]

  array_lem :
      (n : ℕ) (vs : Values Number) (s : ActivitySanitization)
      (items : Values Number × ActivitySanitization)
      → 2 ≤ n
      → ((m : ℕ) → n ≡ suc m → ShapedItems m max_activity_array_items (array_stats vs s) items)
      → Shaped n s (array items.0, items.1)
  unfolding IsShaped
  array_lem zero vs s items p h = absurd (omega arith)
  array_lem (suc n) vs s items p h =
      let (a, c, g, b) = h n refl in
      elim (Bool-cases (ltb max_activity_array_items (value_count vs))) [
        | inl e ↦ ((c, a), rw e at g, b)
        | inr e ↦ ((c, a), rw e at g, b)
      ]

  object_lem :
      (n : ℕ) (fs : Fields Number) (s : ActivitySanitization)
      (walked : Fields Number × ActivitySanitization)
      → 2 ≤ n
      → s.fields ≤ max_activity_fields
      → ((m : ℕ) → n ≡ suc m → ShapedFields m s walked)
      → Shaped n s (object_node (upstream_marker fs) s (object walked.0, walked.1))
  unfolding IsShaped
  object_lem zero fs s walked p l h = absurd (omega arith)
  object_lem (suc n) fs s walked p l h = elim (Option-cases (upstream_marker fs)) [
    | inr (marker, m) ↦ rw m (upstream_lem (suc n) fs marker (omega arith) m, omega arith, l)
    | inl m ↦ let (a, g, b) = h n refl in rw m ((omega arith, a), omega arith, b)
  ]

  cons_field :
      (full : Bool) (n : ℕ) (key : Text) (s : ActivitySanitization) (kept : Node Number)
      (rest : Fields Number × ActivitySanitization)
      → leb max_activity_fields s.fields ≡ full
      → s.fields ≤ max_activity_fields
      → (full ≡ false → Shaped n (counted s) kept × ShapedFields n kept.1 rest)
      → ShapedFields n s (
          if full
          then (end, stats_truncated (codes "maxFields") s)
          else (field key kept.0 rest.0, rest.1))
  unfolding IsShaped
  cons_field true n key s kept rest e l h = (tt, omega arith, l)
  cons_field false n key s kept rest e l h =
      let ((v, g, b), (a, c, d)) = h refl in ((v, a), omega arith, d)

mutual
  unfolding sanitize_activity_node IsShaped

  sanitize_activity_node_lem :
      {Number : Type 0} (v : Value Number) (n depth : ℕ) (s : ActivitySanitization)
      (reasoning : Bool)
      → 17 ≤ n + depth
      → 1 ≤ n
      → s.fields ≤ max_activity_fields
      → Shaped n s (sanitize_activity_node v depth s reasoning)
  sanitize_activity_node_lem null n depth s reasoning d p h =
      node_at (leb max_activity_depth depth) n s (null, s) p h (λ e. (tt, omega arith, h))
  sanitize_activity_node_lem (bool b) n depth s reasoning d p h =
      node_at (leb max_activity_depth depth) n s (bool b, s) p h (λ e. (tt, omega arith, h))
  sanitize_activity_node_lem (number x) n depth s reasoning d p h =
      node_at (leb max_activity_depth depth) n s (number x, s) p h (λ e. (tt, omega arith, h))
  sanitize_activity_node_lem (string t) n depth s reasoning d p h =
      node_at (leb max_activity_depth depth) n s (sanitize_string t s) p h
        (λ e. sanitize_string_lem _ n t s h)
  sanitize_activity_node_lem (array vs) n depth s reasoning d p h =
      node_at (leb max_activity_depth depth) n s _ p h (λ e.
        let l = leb-false _ _ e in
        array_lem n vs s (sanitize_items vs max_activity_array_items (suc depth) (array_stats vs s))
          (omega arith)
          (λ m f.
            sanitize_items_lem vs max_activity_array_items m (suc depth) (array_stats vs s)
              (omega (arith, f)) (omega (arith, f)) (omega (arith, array_stats_fields vs s))))
  sanitize_activity_node_lem (object fs) n depth s reasoning d p h =
      node_at (leb max_activity_depth depth) n s _ p h (λ e.
        let l = leb-false _ _ e in
        object_lem n fs s (sanitize_fields fs (suc depth) s (reasoning || object_is_reasoning fs))
          (omega arith) h
          (λ m f.
            sanitize_fields_lem fs m (suc depth) s (reasoning || object_is_reasoning fs)
              (omega (arith, f)) (omega (arith, f)) h))

  sanitize_items_lem :
      {Number : Type 0} (vs : Values Number) (retained n depth : ℕ) (s : ActivitySanitization)
      → 17 ≤ n + depth
      → 1 ≤ n
      → s.fields ≤ max_activity_fields
      → ShapedItems n retained s (sanitize_items vs retained depth s)
  sanitize_items_lem nil retained n depth s d p h = (tt, omega arith, omega arith, h)
  sanitize_items_lem (cons v vs) zero n depth s d p h = (tt, omega arith, omega arith, h)
  sanitize_items_lem (cons v vs) (suc retained) n depth s d p h =
      let (a, g, b) = sanitize_activity_node_lem v n depth s false d p h in
      let after = (sanitize_activity_node v depth s false).1 in
      let (c, k, i, j) = sanitize_items_lem vs retained n depth after d p b in
      ((a, c), omega arith, omega arith, j)

  sanitize_fields_lem :
      {Number : Type 0} (fs : Fields Number) (n depth : ℕ) (s : ActivitySanitization)
      (reasoning : Bool)
      → 17 ≤ n + depth
      → 1 ≤ n
      → s.fields ≤ max_activity_fields
      → ShapedFields n s (sanitize_fields fs depth s reasoning)
  sanitize_fields_lem end n depth s reasoning d p h = (tt, omega arith, h)
  sanitize_fields_lem (field key v fs) n depth s reasoning d p h =
      let node = sanitize_activity_node v depth (counted s) false in
      let kept = field_value reasoning key (explicit_activity_marker v) (counted s) node in
      cons_field (leb max_activity_fields s.fields) n key s kept
        (sanitize_fields fs depth kept.1 reasoning) refl h
        (λ e.
          let l = leb-false max_activity_fields s.fields e in
          let c : suc s.fields ≤ max_activity_fields = omega arith in
          let k = sanitize_activity_node_lem v n depth (counted s) false d p c in
          let f = field_value_lem n reasoning key v (counted s) node p c k in
          (f, sanitize_fields_lem fs n depth kept.1 reasoning d p f.2))

-- A sanitized value has at most 17 levels of arrays and objects, arrays of at most 256 items, objects of
-- at most 256 entries and strings of at most 16 KiB.
pub sanitize_activity_node-IsShaped :
    {Number : Type 0} (v : Value Number) (reasoning : Bool)
    → IsShaped 17 (sanitize_activity_node v 0 default_stats reasoning).0
sanitize_activity_node-IsShaped v reasoning =
    (sanitize_activity_node_lem v 17 0 default_stats reasoning (omega arith) (omega arith)
      (omega arith)).0

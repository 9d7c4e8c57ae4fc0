-- ===== src/Codex/Secrets.antt =====
-- What an event's parameters keep does not depend on the values under keys of secrets.
use portcode.Common.{
  ℕ, zero, suc, ◌≡◌, refl, ap, ◌∙◌, Bool, true, false, ◌||◌, List, [], ◌∷◌, Option, none, some, inl,
  inr, arith, option_map, Bool-cases, if◌then◌else◌, Text, codes, same, same_iff, one_of, all, not,
}
use portcode.Codex.{
  Value, null, bool, number, string, array, object, Values, nil, cons, Fields, end, field,
  value_count, get_field, normalize_reasoning_label, is_known_secret_key, is_type_key,
  secret_labels, ActivitySanitization, names_reasoning, object_is_reasoning, is_true,
  upstream_marker, array_stats, stats_redacted, explicit_activity_marker, field_value, counted,
  sanitize_activity_node, sanitize_items, sanitize_fields,
}
use portcode.Public.{is_ascii_alphanumeric}

-- The value under every key of a secret replaced by null.
unfoldable mutual
  pub erase_secrets : {Number : Type 0} → Value Number → Value Number
  erase_secrets null = null
  erase_secrets (bool b) = bool b
  erase_secrets (number n) = number n
  erase_secrets (string t) = string t
  erase_secrets (array vs) = array (erase_items vs)
  erase_secrets (object fs) = object (erase_fields fs)

  pub erase_items : {Number : Type 0} → Values Number → Values Number
  erase_items nil = nil
  erase_items (cons v vs) = cons (erase_secrets v) (erase_items vs)

  pub erase_fields : {Number : Type 0} → Fields Number → Fields Number
  erase_fields end = end
  erase_fields (field k v fs) =
      let rest = erase_fields fs in
      let kept = erase_secrets v in
      if is_known_secret_key k then field k null rest else field k kept rest

module _ {Number : Type 0} where
  is_true_erased : (o : Option (Value Number)) → is_true (option_map erase_secrets o) ≡ is_true o
  unfolding erase_secrets
  is_true_erased none = refl
  is_true_erased (some null) = refl
  is_true_erased (some (bool b)) = refl
  is_true_erased (some (number n)) = refl
  is_true_erased (some (string t)) = refl
  is_true_erased (some (array vs)) = refl
  is_true_erased (some (object fs)) = refl

  pub get_field_erased :
      (key : Text) (fs : Fields Number)
      → is_known_secret_key key ≡ false
      → get_field key (erase_fields fs) ≡ option_map erase_secrets (get_field key fs)
  unfolding get_field erase_secrets
  get_field_erased key end n = refl
  get_field_erased key (field k v fs) n = elim (Bool-cases (same k key)) [
    | inl e ↦
        let k_key = (same_iff k key).0 e in
        let not_secret : is_known_secret_key k ≡ false = ap is_known_secret_key k_key ∙ n in
        rw (not_secret, e) refl
    | inr e ↦ elim (Bool-cases (is_known_secret_key k)) [
      | inl s ↦ rw (s, e) (get_field_erased key fs n)
      | inr s ↦ rw (s, e) (get_field_erased key fs n)
    ]
  ]

  upstream_erased : (fs : Fields Number) → upstream_marker (erase_fields fs) ≡ upstream_marker fs
  unfolding is_known_secret_key normalize_reasoning_label same is_ascii_alphanumeric
  upstream_erased fs =
      rw
        (
          get_field_erased (codes "redacted") fs refl,
          get_field_erased (codes "truncated") fs refl,
          is_true_erased (get_field (codes "redacted") fs),
          is_true_erased (get_field (codes "truncated") fs),
        )
        refl

  explicit_erased :
      (v : Value Number) → explicit_activity_marker (erase_secrets v) ≡ explicit_activity_marker v
  unfolding erase_secrets explicit_activity_marker
  explicit_erased null = refl
  explicit_erased (bool b) = refl
  explicit_erased (number n) = refl
  explicit_erased (string t) = refl
  explicit_erased (array vs) = refl
  explicit_erased (object fs) = upstream_erased fs

  names_reasoning_erased :
      (v : Value Number) → names_reasoning (erase_secrets v) ≡ names_reasoning v
  unfolding erase_secrets
  names_reasoning_erased null = refl
  names_reasoning_erased (bool b) = refl
  names_reasoning_erased (number n) = refl
  names_reasoning_erased (string t) = refl
  names_reasoning_erased (array vs) = refl
  names_reasoning_erased (object fs) = refl

one_of-apart :
    (t : Text) (ls bs : List Text)
    → all (λ a. not (one_of a bs)) ls ≡ true
    → one_of t ls ≡ true
    → one_of t bs ≡ false
one_of-apart t [] bs h e = absurd cc
one_of-apart t (a ∷ ls) bs h e = elim (Bool-cases (same t a)) [
  | inl s ↦ let t_a = (same_iff t a).0 s in rw t_a (ground arith)
  | inr s ↦ one_of-apart t ls bs (ground arith) (rw s at e)
]

-- No key of a secret is one that tells an object's type.
secret-is_type_key : (key : Text) → is_known_secret_key key ≡ true → is_type_key key ≡ false
unfolding is_known_secret_key same
secret-is_type_key key h = elim (Bool-cases (is_type_key key)) [
  | inr e ↦ e
  | inl e ↦
      let no =
        one_of-apart (normalize_reasoning_label key) (codes "type" ∷ codes "kind" ∷ [])
          secret_labels refl e in
      absurd cc
]

module _ {Number : Type 0} where
  object_is_reasoning_erased :
      (fs : Fields Number) → object_is_reasoning (erase_fields fs) ≡ object_is_reasoning fs
  unfolding erase_secrets object_is_reasoning
  object_is_reasoning_erased end = refl
  object_is_reasoning_erased (field k v fs) = elim (Bool-cases (is_known_secret_key k)) [
    | inl s ↦ rw (s, secret-is_type_key k s) (object_is_reasoning_erased fs)
    | inr s ↦ rw (s, names_reasoning_erased v, object_is_reasoning_erased fs) refl
  ]

  value_count_erased : (vs : Values Number) → value_count (erase_items vs) ≡ value_count vs
  unfolding erase_secrets
  value_count_erased nil = refl
  value_count_erased (cons v vs) = ap suc (value_count_erased vs)

  erase_fields-secret :
      (k : Text) (v : Value Number) (fs : Fields Number)
      → is_known_secret_key k ≡ true
      → erase_fields (field k v fs) ≡ field k null (erase_fields fs)
  unfolding erase_secrets
  erase_fields-secret k v fs h = rw h refl

  erase_fields-other :
      (k : Text) (v : Value Number) (fs : Fields Number)
      → is_known_secret_key k ≡ false
      → erase_fields (field k v fs) ≡ field k (erase_secrets v) (erase_fields fs)
  unfolding erase_secrets
  erase_fields-other k v fs h = rw h refl

mutual
  unfolding sanitize_activity_node erase_secrets

  pub sanitize_activity_node-erase_secrets :
      {Number : Type 0} (v : Value Number) (depth : ℕ) (s : ActivitySanitization) (reasoning : Bool)
      → sanitize_activity_node (erase_secrets v) depth s reasoning
        ≡ sanitize_activity_node v depth s reasoning
  sanitize_activity_node-erase_secrets null depth s reasoning = refl
  sanitize_activity_node-erase_secrets (bool b) depth s reasoning = refl
  sanitize_activity_node-erase_secrets (number n) depth s reasoning = refl
  sanitize_activity_node-erase_secrets (string t) depth s reasoning = refl
  sanitize_activity_node-erase_secrets (array vs) depth s reasoning =
      rw (value_count_erased vs, sanitize_items-erase vs 256 (suc depth) (array_stats vs s)) refl
  sanitize_activity_node-erase_secrets (object fs) depth s reasoning =
      rw
        (
          upstream_erased fs,
          object_is_reasoning_erased fs,
          sanitize_fields-erase fs (suc depth) s (reasoning || object_is_reasoning fs),
        )
        refl

  sanitize_items-erase :
      {Number : Type 0} (vs : Values Number) (retained depth : ℕ) (s : ActivitySanitization)
      → sanitize_items (erase_items vs) retained depth s ≡ sanitize_items vs retained depth s
  sanitize_items-erase nil retained depth s = refl
  sanitize_items-erase (cons v vs) zero depth s = refl
  sanitize_items-erase (cons v vs) (suc retained) depth s =
      let item = sanitize_activity_node-erase_secrets v depth s false in
      let after = (sanitize_activity_node v depth s false).1 in
      rw (item, sanitize_items-erase vs retained depth after) refl

  sanitize_fields-erase :
      {Number : Type 0} (fs : Fields Number) (depth : ℕ) (s : ActivitySanitization)
      (reasoning : Bool)
      → sanitize_fields (erase_fields fs) depth s reasoning ≡ sanitize_fields fs depth s reasoning
  sanitize_fields-erase end depth s reasoning = refl
  sanitize_fields-erase (field k v fs) depth s reasoning =
      let node = sanitize_activity_node v depth (counted s) false in
      let kept = field_value reasoning k (explicit_activity_marker v) (counted s) node in
      elim (Bool-cases (is_known_secret_key k)) [
        | inl h ↦
            ap (λ x. sanitize_fields x depth s reasoning) (erase_fields-secret k v fs h)
            ∙ rw
                (
                  h,
                  sanitize_fields-erase fs depth (stats_redacted (codes "knownSecret") (counted s))
                      reasoning,
                )
                refl
        | inr h ↦
            ap (λ x. sanitize_fields x depth s reasoning) (erase_fields-other k v fs h)
            ∙ rw
                (
                  explicit_erased v,
                  sanitize_activity_node-erase_secrets v depth (counted s) false,
                  sanitize_fields-erase fs depth kept.1 reasoning,
                )
                refl
      ]

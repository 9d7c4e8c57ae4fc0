-- ===== src/Codex/Redaction.antt =====
-- The sanitized parameters of an event do not depend on the values under keys of secrets.
use portcode.Common.{
  ℕ, ◌≡◌, refl, ap, sym, ◌∙◌, Bool, true, false, not, List, [], ◌∷◌, Option, none, some, inl, inr,
  option_map, ◌>>=◌, Bool-cases, Text, codes, same, All, all-All,
}
use portcode.Public.{is_ascii_alphanumeric}
use portcode.Codex.{
  Value, null, bool, number, string, array, object, Fields, end, get, is_known_secret_key,
  normalize_reasoning_label, Node, is_raw_reasoning_method, correlation_keys, identity_keys, scalar,
  put_scalar, copy_scalars, with_item, put_identity, correlation_only_params, default_stats,
  walk_params, JsonCodec, encoded_json_len, finish_params, sanitize_activity_params,
}
use portcode.Codex.Secrets.{erase_secrets, get_field_erased, sanitize_activity_node-erase_secrets}

module _ {Number : Type 0} where
  get_erased :
      (key : Text) (v : Value Number)
      → is_known_secret_key key ≡ false
      → get key (erase_secrets v) ≡ option_map erase_secrets (get key v)
  unfolding erase_secrets
  get_erased key null n = refl
  get_erased key (bool b) n = refl
  get_erased key (number x) n = refl
  get_erased key (string t) n = refl
  get_erased key (array vs) n = refl
  get_erased key (object fs) n = get_field_erased key fs n

  scalar_erased :
      (o : Option (Value Number)) → (option_map erase_secrets o >>= scalar) ≡ (o >>= scalar)
  unfolding erase_secrets
  scalar_erased none = refl
  scalar_erased (some null) = refl
  scalar_erased (some (bool b)) = refl
  scalar_erased (some (number n)) = refl
  scalar_erased (some (string t)) = refl
  scalar_erased (some (array vs)) = refl
  scalar_erased (some (object fs)) = refl

  copy_scalars_erased :
      (keys : List Text) (v : Value Number) (retained : Fields Number)
      → All (λ key. not (is_known_secret_key key) ≡ true) keys
      → copy_scalars keys (erase_secrets v) retained ≡ copy_scalars keys v retained
  unfolding copy_scalars
  copy_scalars_erased [] v retained h = refl
  copy_scalars_erased (key ∷ keys) v retained (n, h) =
      rw (get_erased key v (not_true _ n), scalar_erased (get key v))
        (copy_scalars_erased keys v (put_scalar key (get key v >>= scalar) retained) h)
    where
      not_true : (b : Bool) → not b ≡ true → b ≡ false
      not_true true h = absurd cc
      not_true false h = refl

  identity_erased :
      (item : Value Number) (retained : Fields Number)
      → put_identity (copy_scalars identity_keys (erase_secrets item) end) retained
        ≡ put_identity (copy_scalars identity_keys item end) retained
  unfolding is_known_secret_key same normalize_reasoning_label is_ascii_alphanumeric
  identity_erased item retained =
      ap (λ i. put_identity i retained)
        (copy_scalars_erased identity_keys item end
          (all-All (λ key. not (is_known_secret_key key)) identity_keys refl))

  with_item_erased :
      (item : Option (Value Number)) (retained : Fields Number)
      → with_item (option_map erase_secrets item) retained ≡ with_item item retained
  with_item_erased none retained = refl
  with_item_erased (some item) retained = identity_erased item retained

  correlation_erased :
      (v : Value Number) → correlation_only_params (erase_secrets v) ≡ correlation_only_params v
  unfolding correlation_only_params is_known_secret_key same normalize_reasoning_label
      is_ascii_alphanumeric
  correlation_erased v =
      rw
        (
          get_erased (codes "item") v refl,
          with_item_erased (get (codes "item") v),
          copy_scalars_erased correlation_keys v end
              (all-All (λ key. not (is_known_secret_key key)) correlation_keys refl),
        )
        refl

  walk_erased :
      (method : Text) (v : Value Number)
      → walk_params method (erase_secrets v) ≡ walk_params method v
  unfolding walk_params
  walk_erased method v = elim (Bool-cases (is_raw_reasoning_method method)) [
    | inl e ↦ rw (e, correlation_erased v) refl
    | inr e ↦ rw (e, sanitize_activity_node-erase_secrets v 0 default_stats false) refl
  ]

  finish_erased :
      (codec : JsonCodec Number) (v : Value Number) (n : ℕ) (node : Node Number)
      → finish_params codec (erase_secrets v) n node ≡ finish_params codec v n node
  unfolding finish_params
  finish_erased codec v n (walked, s) = rw (finish_params, correlation_erased v) refl

  -- Two parameters of an event that differ only in the values under keys of secrets, at any depth, and
  -- have encodings of one length are sanitized to the same. The length is reported, so it is the one
  -- thing about a secret that is kept.
  pub sanitize_activity_params-erase_secrets :
      (codec : JsonCodec Number) (method : Text) (params other : Value Number)
      → erase_secrets params ≡ erase_secrets other
      → encoded_json_len codec params ≡ encoded_json_len codec other
      → sanitize_activity_params codec method params ≡ sanitize_activity_params codec method other
  unfolding sanitize_activity_params
  sanitize_activity_params-erase_secrets codec method params other e l =
      let n = encoded_json_len codec other in
      let node = walk_params method other in
      let walked : walk_params method params ≡ walk_params method other =
        sym (walk_erased method params) ∙ ap (walk_params method) e ∙ walk_erased method other in
      rw (l, walked)
        (sym (finish_erased codec params n node)
          ∙ ap (λ v. finish_params codec v n node) e
          ∙ finish_erased codec other n node)

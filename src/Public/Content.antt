-- ===== src/Public/Content.antt =====
-- The size of a projected message, and that a short message is projected whole.
use portcode.Common.{
  ℕ, ◌+◌, ◌-◌, ◌*◌, ◌≤◌, ◌<◌, ◌≡◌, refl, sym, ap, ◌∙◌, min, false, List, [], ◌∷◌, ◌++◌, inl, inr,
  arith, append_assoc, append-nil, Option, none, some, Option-cases, Bool-cases, len_utf8, byte_len,
  length, length-append, filter_map, push_some,
}
use portcode.External.{External}
use portcode.Wire.{Block, PhoneBlock}
use portcode.Public.Bounds.{bounded_public_text_bounds}
use portcode.Public.Project.{
  project_block, max_message_text_bytes, max_message_content_bytes, omitted_text,
}
use portcode.Public.Rows.{
  Content, add_block, block_text_bytes, is_full, mark_omitted, content_loop, project_content,
}

abbrev pub content_bytes : {Value : Type 0} → List (PhoneBlock Value) → ℕ
content_bytes [] = 0
content_bytes (b ∷ bs) = block_text_bytes b + content_bytes bs

content_bytes-snoc :
    {Value : Type 0} (bs : List (PhoneBlock Value)) (b : PhoneBlock Value)
    → content_bytes (bs ++ b ∷ []) ≡ content_bytes bs + block_text_bytes b
content_bytes-snoc [] b = omega arith
content_bytes-snoc (x ∷ bs) b = omega (arith, content_bytes-snoc bs b)

omitted_text-bytes : byte_len omitted_text ≡ 17
unfolding len_utf8
omitted_text-bytes = refl

record IsBounded {Value : Type 0} (s : Content Value) : Type 0 where
  blocks : length s.content ≤ 64
  counted : content_bytes s.content ≡ s.text_bytes
  bytes : s.text_bytes ≤ 20480

push_some-append : {A : Type 0} (o : Option A) (xs : List A) → push_some o [] ++ xs ≡ push_some o xs
push_some-append none xs = refl
push_some-append (some a) xs = refl

module _ {Value : Type 0} (ext : External Value) where
  project_block-bytes :
      (b : Block Value) (n : ℕ) (p : PhoneBlock Value)
      → project_block ext b n ≡ some p
      → block_text_bytes p ≤ min n max_message_text_bytes
  unfolding project_block
  project_block-bytes (Block.text text) n p e =
      ground (arith, (bounded_public_text_bounds ext text (min n max_message_text_bytes)).0)
  project_block-bytes (Block.tool_use id name input) n p e = ground arith
  project_block-bytes (Block.tool_result id content is_error) n p e = ground arith
  project_block-bytes (Block.reasoning model id encrypted summary) n p e = cc

  add_block-IsBounded :
      (i : ℕ) (s : Content Value) (b : Block Value)
      → is_full i s ≡ false
      → IsBounded s
      → IsBounded (add_block ext s b)
  add_block-IsBounded i s b e v =
      let left = max_message_content_bytes - s.text_bytes in
      elim (Option-cases (project_block ext b left)) [
        | inl skip ↦ rw skip v
        | inr (p, keep) ↦ rw keep (
            ground (
              arith,
              project_block-bytes b left p keep,
              length-append s.content (p ∷ []),
              content_bytes-snoc s.content p,
            ))
      ]

  content_loop-IsBounded :
      (i : ℕ) (s : Content Value) (blocks : List (Block Value))
      → IsBounded s
      → IsBounded (content_loop ext i s blocks)
  unfolding content_loop
  content_loop-IsBounded i s [] v = v
  content_loop-IsBounded i s (b ∷ bs) v = elim (Bool-cases (is_full i s)) [
    | inl full ↦ rw full (record { blocks = v.blocks; counted = v.counted; bytes = v.bytes })
    | inr open_ ↦
        rw open_ (
          content_loop-IsBounded (i + 1) (add_block ext s b) bs (add_block-IsBounded i s b open_ v))
  ]

  mark_omitted-le :
      (s : Content Value)
      → IsBounded s
      → (length (mark_omitted s) ≤ 64) × (content_bytes (mark_omitted s) ≤ 20497)
  mark_omitted-le s v = ground (
    arith,
    length-append s.content (PhoneBlock.text omitted_text ∷ []),
    content_bytes-snoc s.content (PhoneBlock.text omitted_text),
    omitted_text-bytes,
  )

  -- A projected message has at most 64 blocks, and at most 20 KiB of text besides the 17 bytes of the
  -- omission marker, however many blocks the message has.
  pub project_content_bounds :
      (blocks : List (Block Value))
      → (length (project_content ext blocks) ≤ 64)
        × (content_bytes (project_content ext blocks) ≤ 20 * 1024 + 17)
  unfolding project_content
  project_content_bounds blocks = mark_omitted-le _ (
      content_loop-IsBounded 0 (record { content = []; text_bytes = 0; omitted = false }) blocks
        (omega arith))

  project_block-limit :
      (b : Block Value) (n m : ℕ)
      → min n max_message_text_bytes ≡ min m max_message_text_bytes
      → project_block ext b n ≡ project_block ext b m
  unfolding project_block
  project_block-limit (Block.text text) n m e = rw e
  project_block-limit (Block.tool_use id name input) n m e = refl
  project_block-limit (Block.tool_result id content is_error) n m e = refl
  project_block-limit (Block.reasoning model id encrypted summary) n m e = refl

  -- What an unfinished round has: room for a whole block, and none of the three limits reached.
  record HasRoom (i : ℕ) (s : Content Value) : Type 0 where
    blocks : length s.content ≤ i
    bytes : s.text_bytes ≤ 4096 * i

  add_block-HasRoom :
      (i : ℕ) (s : Content Value) (b : Block Value)
      → i < 5
      → HasRoom i s
      → HasRoom (i + 1) (add_block ext s b)
        × (is_full i s ≡ false)
        × ((add_block ext s b).content
            ≡ s.content ++ push_some (project_block ext b max_message_text_bytes) [])
        × ((add_block ext s b).omitted ≡ s.omitted)
  add_block-HasRoom i s b h r =
      let left = max_message_content_bytes - s.text_bytes in
      rw (project_block-limit b left max_message_text_bytes (omega arith))
        (elim (Option-cases (project_block ext b max_message_text_bytes)) [
          | inl skip ↦ rw skip (
            record { blocks = omega arith; bytes = omega arith },
            ground arith,
            sym (append-nil s.content),
            refl,
          )
          | inr (p, keep) ↦ rw keep (
            record {
              blocks = omega (arith, length-append s.content (p ∷ []));
              bytes = omega (arith, project_block-bytes b max_message_text_bytes p keep);
            },
            ground arith,
            refl,
            refl,
          )
        ])

  short_loop :
      (i : ℕ) (s : Content Value) (blocks : List (Block Value))
      → i + length blocks ≤ 5
      → HasRoom i s
      → ((content_loop ext i s blocks).content
          ≡ s.content ++ filter_map (λ b. project_block ext b max_message_text_bytes) blocks)
        × ((content_loop ext i s blocks).omitted ≡ s.omitted)
  unfolding content_loop
  short_loop i s [] h r = (sym (append-nil s.content), refl)
  short_loop i s (b ∷ bs) h r =
      let (room, open_, pushed, kept) = add_block-HasRoom i s b (omega arith) r in
      let (rest, flag) = short_loop (i + 1) (add_block ext s b) bs (omega arith) room in
      rw open_ (
        rest
            ∙ ap (λ c. c ++ filter_map (λ b. project_block ext b max_message_text_bytes) bs) pushed
            ∙ append_assoc s.content _ _
            ∙ ap (◌++◌ s.content) (push_some-append (project_block ext b max_message_text_bytes) _),
        flag ∙ kept,
      )

  -- A message of at most five blocks is projected block by block, each text with the whole limit for
  -- one block, and carries no omission marker.
  pub project_content_short :
      (blocks : List (Block Value))
      → length blocks ≤ 5
      → project_content ext blocks
        ≡ filter_map (λ b. project_block ext b max_message_text_bytes) blocks
  unfolding project_content
  project_content_short blocks h =
      let start : Content Value = record { content = []; text_bytes = 0; omitted = false } in
      let (content, flag) =
        short_loop 0 start blocks (omega arith)
          (record { blocks = omega arith; bytes = omega arith }) in
      rw flag content

-- ===== src/Tests/Live.antt =====
-- The properties of the live projector at concrete inputs.
use portcode.Common.{
  ◌+◌, ◌≤◌, ◌≡◌, refl, [], ◌∷◌, ◌++◌, arith, some, Text, codes, byte_len, length, replicate,
  len_utf8, floor_boundary, is_char_boundary,
}
use portcode.Wire.{StreamEvent}
use portcode.Public.{
  is_safe_cut, is_whitespace, sensitive_prefix_before_space, stream_boundary,
  text_emit_target_bytes, text_raw_holdback_bytes, drain_chunks, public_identifier, project_frames,
}
use portcode.Public.Cuts.{IsCut, IsDrained, stream_boundary-IsCut, drain_chunks-IsDrained_all}
use portcode.Public.Sessions.{IsBounded}
use portcode.Public.Retained.{IsProjected, project_frames-IsProjected}
use portcode.Hub.{SyncHub, publish}
use portcode.Hub.Mirror.{IsPublished, publish-IsPublished}
use portcode.Tests.Sample.{sample}

-- 3,101 bytes with a space behind the first hundred letters.
abbrev long_text : Text
long_text = replicate 100 b'a' ++ b' ' ∷ replicate 3000 b'b'

long_text_boundary : stream_boundary long_text ≡ some 101
unfolding stream_boundary len_utf8 floor_boundary is_char_boundary is_safe_cut is_whitespace
    sensitive_prefix_before_space
long_text_boundary = refl

stream_boundary-IsCut_example :
    IsCut text_emit_target_bytes long_text 101
    × (101 + text_raw_holdback_bytes ≤ byte_len long_text)
stream_boundary-IsCut_example = stream_boundary-IsCut long_text 101 long_text_boundary

drain_chunks-IsDrained_all_example :
    IsDrained
      (codes "still held")
      (drain_chunks (length (codes "still held")) (codes "still held")).0
      (drain_chunks (length (codes "still held")) (codes "still held")).1
drain_chunks-IsDrained_all_example = drain_chunks-IsDrained_all (codes "still held")

empty-IsBounded : IsBounded (record { pending = [] })
empty-IsBounded = record { sessions = omega arith; texts = tt }

project_frames-IsProjected_example : IsProjected sample (public_identifier sample (codes "s1")) (
    project_frames sample
      (codes "s1")
      (StreamEvent.text_delta (codes "Hello"))
      (record { pending = [] }))
project_frames-IsProjected_example =
    project_frames-IsProjected sample (codes "s1") (StreamEvent.text_delta (codes "Hello"))
      (record { pending = [] }) empty-IsBounded

abbrev hub : SyncHub Text
hub = record { receivers = 1; projector = record { pending = [] }; sent = [] }

publish-IsPublished_example :
    IsPublished sample
      (codes "agent://s1")
      hub
      (publish sample (codes "agent://s1") (StreamEvent.usage 3 4) hub)
publish-IsPublished_example =
    publish-IsPublished sample (codes "agent://s1") (StreamEvent.usage 3 4) hub empty-IsBounded

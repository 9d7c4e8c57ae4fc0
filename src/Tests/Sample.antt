-- ===== src/Tests/Sample.antt =====
-- A concrete `External`: a JSON value is a text, a digest has one value, nothing is redacted, and a
-- frame takes a fixed number of bytes and 20,000 for each row.
use portcode.Common.{
  ℕ, zero, suc, ◌+◌, ◌*◌, ◌≤◌, ◌<◌, ◌≡◌, refl, true, false, [], ◌∷◌, arith, ap, none, some, Text,
  codes, byte_len, length, replicate, length-replicate, All,
}
use portcode.External.{External, Sha256Laws, RegexLaws, JsonLaws, EncodesWithin}
use portcode.Wire.{SyncFrame, session_list, message_delta, message_page}

abbrev pub size : SyncFrame Text → ℕ
size (session_list sessions) = 33 + 20_000 * length sessions
size (message_delta id messages) = 51 + byte_len id + 20_000 * length messages
size (message_page id messages more) = 67 + byte_len id + 20_000 * length messages
size _ = 100

abbrev pub sample : External Text
sample = record {
  replace_all = λ pattern replacement text. text;
  sha256 = λ bytes. replicate 32 0xab;
  empty_object = codes "{}";
  get = λ value key. some value;
  as_array = λ value. some (value ∷ []);
  as_str = λ value. some value;
  as_bool = λ value. some true;
  as_u64 = λ value. some 7;
  as_number_text = λ value. none;
  to_vec = λ frame. some (replicate (size frame) 0);
}

All-replicate : (n b : ℕ) → b < 256 → All (λ c. c < 256) (replicate n b)
All-replicate zero b h = tt
All-replicate (suc n) b h = (h, All-replicate n b h)

pub sample_sha256 : Sha256Laws sample
sample_sha256 = record {
  sha256_length = λ bytes. length-replicate {A = ℕ} 32 0xab;
  sha256_bytes = λ bytes. All-replicate 32 0xab (omega arith);
}

pub sample_regex : RegexLaws sample
sample_regex = record { replace_all_chars = λ p pattern replacement text h k. k }

size-le : (frame : SyncFrame Text) (n : ℕ) → EncodesWithin sample frame n → size frame ≤ n
size-le frame n (bytes, e, h) =
    let b : replicate (size frame) zero ≡ bytes = cc in
    omega (arith, ap length b, length-replicate (size frame) zero)

encodes : (frame : SyncFrame Text) (n : ℕ) → size frame ≤ n → EncodesWithin sample frame n
encodes frame n h =
    (replicate (size frame) 0, refl, omega (arith, length-replicate (size frame) (zero)))

pub sample_json : JsonLaws sample
sample_json = record {
  session_list_empty = encodes (session_list []) 64 (omega arith);
  message_delta_empty = λ id h. encodes (message_delta id []) _ (omega arith);
  message_page_empty = λ id h. encodes (message_page id [] false) _ (omega arith);
  message_page_flag = λ id rows n h.
      encodes (message_page id rows true) n (size-le (message_page id rows false) n h);
}

-- ===== src/Scrub.antt =====
-- src-tauri/src/scrub.rs: the redaction passes, in order, and the two ways to bound their result.
-- A pass is a pattern and a replacement; matching is the regex crate's.
use portcode.Common.{
  ℕ, List, [], ◌∷◌, ◌++◌, leb, ltb, if◌then◌else◌, Text, codes, byte_len, length, take, slice_to,
  floor_boundary, min,
}
use portcode.External.{External}

pub record Redactor : Type 0 where
  pub re : Text
  pub repl : Text

abbrev pub max_redact_len : ℕ
max_redact_len = 2048

abbrev pub redactors : List Redactor
redactors =
    record { re = codes "sk-ant-[A-Za-z0-9_-]{6,}"; repl = codes "[redacted-api-key]" }
    ∷ record { re = codes "\\bsk-[A-Za-z0-9_-]{12,}"; repl = codes "[redacted-api-key]" }
    ∷ record {
      re = codes "(?i)\\b(Bearer\\s+)[A-Za-z0-9._~+/-]+=*";
      repl = codes "${1}[redacted-token]";
    }
    ∷ record {
      re =
          codes
            "(?i)(\"?(?:authorization|x-api-key|api[_-]?key|chatgpt-account-id)\"?\\s*[:=]\\s*\"?)[^\"\\s,}\\]]+";
      repl = codes "${1}[redacted]";
    }
    ∷ record {
      re = codes "[A-Za-z0-9._%+-]+@[A-Za-z0-9-]+(?:\\.[A-Za-z0-9-]+)*\\.[A-Za-z]{2,}";
      repl = codes "[redacted-email]";
    }
    ∷ record { re = codes "\\b\\d{1,3}(?:\\.\\d{1,3}){3}\\b"; repl = codes "[redacted-ip]" }
    ∷ record { re = codes "(?i)([A-Za-z]:[\\\\/]Users[\\\\/])[^\\\\/]+"; repl = codes "${1}~user" }
    ∷ record { re = codes "(/(?:home|Users)/)[^/]+"; repl = codes "${1}~user" }
    ∷ record { re = codes "(/data/(?:data|user/\\d+)/)[^/]+"; repl = codes "${1}~app" }
    ∷ record { re = codes "[A-Za-z0-9+/_-]{40,}={0,2}"; repl = codes "[redacted-key]" }
    ∷ []

module _ {Value : Type 0} (ext : External Value) where
  -- The loop over the passes.
  unfoldable pub run_passes : List Redactor → Text → Text
  run_passes [] out = out
  run_passes (r ∷ rs) out = run_passes rs (ext.replace_all r.re r.repl out)

  unfoldable pub redact_secrets_full : Text → Text
  redact_secrets_full value = run_passes redactors value

  unfoldable pub redact_secrets_bounded : Text → ℕ → Text
  unfolding redact_secrets_full
  redact_secrets_bounded value max_bytes =
      let out = redact_secrets_full value in
      if leb (byte_len out) max_bytes
      then out
      else slice_to out (floor_boundary out (min max_bytes (byte_len out)))

  unfoldable pub redact_secrets : Text → Text
  redact_secrets value =
      let out = redact_secrets_full value in
      if ltb max_redact_len (length out)
      then take max_redact_len out ++ codes "…[truncated]"
      else out

-- ===== src/Redaction.antt =====
-- src/yunohost_mcp/redaction.py: values under sensitive keys are taken out of a JSON value. `redact_text`,
-- which is two regular expressions, is not modelled.
pub mod Secrets
use text.Mathlib.Text.{find?}
use yunohost_mcp.Prelude.{String, Bool, List, [], ◌∷◌, any, is_some, if◌then◌else◌}
use yunohost_mcp.Prelude.Json.{
  Json, Items, Fields, null, bool, int, str, arr, obj, nil, cons, end, field,
}
use yunohost_mcp.Platform.{Platform}

-- SENSITIVE_KEY_MARKERS
abbrev pub sensitive_key_markers : List String
sensitive_key_markers =
    "password" ∷ "passwd" ∷ "pwd" ∷ "secret" ∷ "token" ∷ "private_key" ∷ "privkey" ∷ "nsec"
    ∷ "api_key" ∷ "apikey" ∷ "session" ∷ "cookie" ∷ "authorization" ∷ []

-- REDACTED
abbrev pub redacted : Json
redacted = str "[REDACTED]"

module _ (p : Platform) where
  unfoldable pub is_sensitive_key : String → Bool
  is_sensitive_key key =
      let key_lower = p.lower key in
      any (λ marker. is_some (find? key_lower marker)) sensitive_key_markers

  unfoldable mutual
    pub redact : Json → Json
    redact (obj fs) = obj (redact_fields fs)
    redact (arr vs) = arr (redact_items vs)
    redact null = null
    redact (bool b) = bool b
    redact (int n) = int n
    redact (str s) = str s

    pub redact_fields : Fields → Fields
    redact_fields end = end
    redact_fields (field k v fs) =
        let value = redact v in
        field k (if is_sensitive_key k then redacted else value) (redact_fields fs)

    pub redact_items : Items → Items
    redact_items nil = nil
    redact_items (cons v vs) = cons (redact v) (redact_items vs)

  -- What `redact_response` makes of a tool's result.
  unfoldable pub redact_response : Json → Json
  redact_response (obj fs) = redact (obj fs)
  redact_response (arr vs) = redact (arr vs)
  redact_response v = v

-- ===== src/Broker/Protocol.antt =====
-- src/yunohost_mcp/broker/protocol.py: a request of the frontend, as an object and as a line. JSON
-- numbers are integers here.
pub mod Roundtrip
use Prim.Native.String
use Prim.Native.String.{count}
use yunohost_mcp.Prelude.{
  ℕ, ◌+◌, String, Bool, true, false, not, ◌&&◌, ◌||◌, Option, none, some, List, [], ◌∷◌, ◌++◌, ◌==◌,
  leb, any, length, if◌then◌else◌,
}
use yunohost_mcp.Prelude.Int.{ℤ, pos, eqb_ℤ}
use yunohost_mcp.Prelude.Json.{Json, Fields, null, bool, int, str, obj, end, field, get_field}
use yunohost_mcp.Prelude.Result.{Result, ok, err, ◌>>=◌}
use yunohost_mcp.Platform.{Platform}
use yunohost_mcp.Policy.Rules.{truthy}

-- `BrokerProtocolError`, by its messages
pub data BrokerProtocolError : Type 0 where
  wrong_version unknown_field bad_request_id bad_operation bad_arguments : BrokerProtocolError
  bad_auth unknown_auth_field not_string too_long bad_json : BrokerProtocolError
  bad_body body_mismatch : BrokerProtocolError

abbrev pub max_message_bytes : ℕ
max_message_bytes = 1048576

pub record BrokerRequest : Type 0 where
  pub request_id : String
  pub operation : String
  pub arguments : Fields
  pub authorization : Option String
  pub method : Option String
  pub url : Option String
  pub body_sha256 : Option String
  pub body_b64 : Option String
  pub delegation : Option String

abbrev pub opt : Option String → Json
opt none = null
opt (some s) = str s

-- request.to_dict()
unfoldable pub to_dict : BrokerRequest → Fields
to_dict r = field "protocol" (int (pos 1)) (
    field "request_id" (str r.request_id) (
      field "operation" (str r.operation) (
        field "arguments" (obj r.arguments) (
          field "auth"
            (obj (
              field "authorization" (opt r.authorization) (
                field "method" (opt r.method) (
                  field "url" (opt r.url) (
                    field "body_sha256" (opt r.body_sha256) (
                      field "body_b64" (opt r.body_b64)
                        (field "delegation" (opt r.delegation) end)))))))
            end))))

-- value.get("protocol") == PROTOCOL_VERSION, where True == 1
abbrev is_version : Option Json → Bool
is_version (some (int n)) = eqb_ℤ n (pos 1)
is_version (some (bool b)) = b
is_version _ = false

-- not set(value) - allowed
abbrev pub only_keys : List String → Fields → Bool
only_keys allowed end = true
only_keys allowed (field k v fs) = any (λ a. a == k) allowed && only_keys allowed fs

-- A text of at most 128 characters that is not empty.
abbrev pub bounded : String → Bool
bounded s = not (s == "") && leb (count s) 128

bounded_text : Option Json → BrokerProtocolError → Result BrokerProtocolError String
bounded_text (some (str s)) e = if bounded s then ok s else err e
bounded_text _ e = err e

arguments_of : Option Json → Result BrokerProtocolError Fields
arguments_of none = ok end
arguments_of (some (obj fs)) = ok fs
arguments_of _ = err bad_arguments

-- value.get("auth") or {}
auth_of : Option Json → Result BrokerProtocolError Fields
auth_of none = ok end
auth_of (some (obj fs)) = ok fs
auth_of (some v) = if truthy v then err bad_auth else ok end

text_or_none : Option Json → Result BrokerProtocolError (Option String)
text_or_none none = ok none
text_or_none (some null) = ok none
text_or_none (some (str s)) = ok (some s)
text_or_none (some _) = err not_string

unfoldable pub optional_string : Fields → String → Result BrokerProtocolError (Option String)
unfolding text_or_none
optional_string fs key = text_or_none (get_field fs key)

abbrev allowed : List String
allowed = "protocol" ∷ "request_id" ∷ "operation" ∷ "arguments" ∷ "auth" ∷ []

abbrev allowed_auth : List String
allowed_auth = "authorization" ∷ "method" ∷ "url" ∷ "body_sha256" ∷ "body_b64" ∷ "delegation" ∷ []

from_fields : Fields → Result BrokerProtocolError BrokerRequest
unfolding bounded_text arguments_of auth_of optional_string
from_fields value =
    if not (is_version (get_field value "protocol"))
    then err wrong_version
    else if not (only_keys allowed value)
    then err unknown_field
    else do
      request_id ← bounded_text (get_field value "request_id") bad_request_id
      operation ← bounded_text (get_field value "operation") bad_operation
      arguments ← arguments_of (get_field value "arguments")
      auth ← auth_of (get_field value "auth")
      _ ← (if only_keys allowed_auth auth then ok (tt {0}) else err unknown_auth_field)
      authorization ← optional_string auth "authorization"
      method ← optional_string auth "method"
      url ← optional_string auth "url"
      body_sha256 ← optional_string auth "body_sha256"
      body_b64 ← optional_string auth "body_b64"
      delegation ← optional_string auth "delegation"
      ok (record {
        request_id = request_id;
        operation = operation;
        arguments = arguments;
        authorization = authorization;
        method = method;
        url = url;
        body_sha256 = body_sha256;
        body_b64 = body_b64;
        delegation = delegation;
      })

unfoldable pub from_dict : Json → Result BrokerProtocolError BrokerRequest
unfolding from_fields
from_dict (obj value) = from_fields value
from_dict _ = err wrong_version

module _ (p : Platform) where
  -- request.encode()
  unfoldable pub encode : BrokerRequest → Result BrokerProtocolError (List ℕ)
  encode r =
      let raw = p.encode (p.dumps_compact (obj (to_dict r))) in
      if leb (length raw) max_message_bytes then ok (raw ++ (10 ∷ [])) else err too_long

  unfoldable pub decode_request : List ℕ → Result BrokerProtocolError BrokerRequest
  decode_request line =
      if leb (length line) max_message_bytes
      then elim (p.loads line) [ none ↦ err bad_json | some value ↦ from_dict value ]
      else err too_long

  body_of : Option String → Result BrokerProtocolError (List ℕ)
  body_of none = ok []
  body_of (some encoded) = elim (p.b64decode encoded) [ none ↦ err bad_body | some body ↦ ok body ]

  checked_body : Option String → List ℕ → Result BrokerProtocolError (List ℕ)
  checked_body none body = ok body
  checked_body (some digest) body = if p.sha256 body == digest then ok body else err body_mismatch

  unfoldable pub decode_original_body : BrokerRequest → Result BrokerProtocolError (List ℕ)
  unfolding body_of checked_body
  decode_original_body r = do body ← body_of r.body_b64; checked_body r.body_sha256 body

  -- encode_response(request_id=..., ok=True, result=...)
  unfoldable pub encode_response : String → Json → Result BrokerProtocolError (List ℕ)
  encode_response request_id result =
      let raw = p.encode (
        p.dumps_compact (
          obj (
            field "protocol" (int (pos 1)) (
              field "request_id" (str request_id)
                (field "ok" (bool true) (field "result" result end)))))) in
      if leb (length raw) max_message_bytes then ok (raw ++ (10 ∷ [])) else err too_long

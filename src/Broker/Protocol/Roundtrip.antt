-- ===== src/Broker/Protocol/Roundtrip.antt =====
-- What the frontend sends is what the broker reads.
use yunohost_mcp.Prelude.{ℕ, String, ◌≡◌, refl, true, Option, none, some, List, arith, length, ◌≤◌}
use yunohost_mcp.Prelude.Json.{get_field, obj}
use yunohost_mcp.Prelude.Result.{ok}
use yunohost_mcp.Platform.{Platform}
use yunohost_mcp.Broker.Protocol.{
  BrokerRequest, to_dict, from_dict, decode_request, optional_string, text_or_none, bounded,
  bounded_text, arguments_of, auth_of, from_fields, opt, max_message_bytes,
}

-- The two texts have the length that the broker asks for.
pub record IsBounded (r : BrokerRequest) : Type 0 where
  pub request_id : bounded r.request_id ≡ true
  pub operation : bounded r.operation ≡ true

text_or_none-opt : (o : Option String) → text_or_none (some (opt o)) ≡ ok o
unfolding text_or_none
text_or_none-opt none = refl
text_or_none-opt (some s) = refl

-- The object of a request reads back as that request.
pub from_dict-to_dict : (r : BrokerRequest) → IsBounded r → from_dict (obj (to_dict r)) ≡ ok r
unfolding from_dict to_dict get_field optional_string bounded_text arguments_of auth_of from_fields
from_dict-to_dict r b =
    rw
      (
        b.request_id,
        b.operation,
        text_or_none-opt r.authorization,
        text_or_none-opt r.method,
        text_or_none-opt r.url,
        text_or_none-opt r.body_sha256,
        text_or_none-opt r.body_b64,
        text_or_none-opt r.delegation,
      )
      refl

-- A line that reads as the object of a request with bounded texts, and is within the message limit,
-- is decoded to that request.
pub decode_request-to_dict :
    (p : Platform) (r : BrokerRequest) (line : List ℕ)
    → IsBounded r
    → length line ≤ max_message_bytes
    → p.loads line ≡ some (obj (to_dict r))
    → decode_request p line ≡ ok r
unfolding decode_request
decode_request-to_dict p r line b short read = ground (arith, short, read, from_dict-to_dict r b)

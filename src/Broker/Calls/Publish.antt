-- ===== src/Broker/Calls/Publish.antt =====
-- What the confirmation of catalog.publish binds at the root boundary.
use yunohost_mcp.Prelude.{String, ◌≡◌, ◌≢◌, refl, true, some, none, List, [], ◌∷◌, arith, ap}
use yunohost_mcp.Prelude.Dict
use yunohost_mcp.Prelude.Json.{Json, Fields, field, end, str, null, get_field}
use yunohost_mcp.Prelude.Result.{ok}
use yunohost_mcp.Broker.Operations.{confirmation_argument_keys}
use yunohost_mcp.Broker.Helper.{bound_arguments}
use yunohost_mcp.Broker.Calls.Arguments.{
  AdapterCall, is_text, pass, run_checks, call_of, reject_unknown_keys, require_str, optional_str,
  require_that, confirmation_id_check,
}
use yunohost_mcp.Broker.Calls.Packages.{catalog_publish, ci_result_check}
use yunohost_mcp.Broker.Calls.Registry.{adapter_call}

abbrev pub publish_arguments : String → String → Fields
publish_arguments plan source = field "source" (str source) (field "plan_id" (str plan) end)

publish_call : String → String → AdapterCall
unfolding pass get_field
publish_call plan source = record {
  method = "catalog_publish";
  passed = pass catalog_publish.passes (publish_arguments plan source);
}

publish_accepted :
    (plan source : String)
    → is_text (some 128) (str plan) ≡ true
    → is_text (some 8192) (str source) ≡ true
    → adapter_call "catalog.publish" (publish_arguments plan source) ≡ ok (publish_call plan source)
unfolding adapter_call publish_call pass run_checks call_of Dict.get get_field reject_unknown_keys
    require_str optional_str require_that confirmation_id_check ci_result_check
publish_accepted plan source h k = ground (arith, h, k)

source_of : AdapterCall → Json
source_of call = elim (Dict.get call.passed "source") [ none ↦ null | some v ↦ v ]

text_in : Json → String
text_in (str s) = s
text_in _ = ""

publish_call-source :
    (plan source : String) → text_in (source_of (publish_call plan source)) ≡ source
unfolding publish_call source_of text_in pass get_field Dict.get
publish_call-source plan source = refl

-- Two requests to publish with the same plan_id and different sources are both accepted, bind the same
-- arguments in their confirmation, and make different calls of the adapter.
pub adapter_call-publish_unbound :
    (plan s t : String)
    → is_text (some 128) (str plan) ≡ true
    → is_text (some 8192) (str s) ≡ true
    → is_text (some 8192) (str t) ≡ true
    → s ≢ t
    → (keys : List String) × (Dict.get confirmation_argument_keys "catalog.publish" ≡ some keys)
      × (bound_arguments keys (publish_arguments plan s)
          ≡ bound_arguments keys (publish_arguments plan t))
      × (c : AdapterCall) × (c' : AdapterCall) × (adapter_call "catalog.publish"
            (publish_arguments plan s)
          ≡ ok c)
      × (adapter_call "catalog.publish" (publish_arguments plan t) ≡ ok c')
      × (c ≢ c')
unfolding bound_arguments get_field Dict.get
adapter_call-publish_unbound plan s t h hs ht different = (
  "plan_id" ∷ [],
  refl,
  refl,
  publish_call plan s,
  publish_call plan t,
  publish_accepted plan s h hs,
  publish_accepted plan t h ht,
  λ same. different (
      cc (
        ap (λ c. text_in (source_of c)) same,
        publish_call-source plan s,
        publish_call-source plan t,
      )),
)

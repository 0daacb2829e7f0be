-- ===== src/Broker/Calls/Bound.antt =====
-- What a confirmation binds of the call that it confirms.
mod Given
use yunohost_mcp.Prelude.{
  String, ◌≡◌, ◌≢◌, refl, ap, subst, is_some, Bool, true, false, Option-cases, ◌&&◌, ◌||◌, ◌==◌,
  some, none, List, [], ◌∷◌, arith, eq_iff, Bool-cases, inl, inr,
}
use yunohost_mcp.Prelude.Dict
use yunohost_mcp.Prelude.Dict.{Dict}
use yunohost_mcp.Prelude.Json.{Json, Fields, null, bool, int, str, arr, obj, end, field, get_field}
use yunohost_mcp.Prelude.Result.{ok}
use yunohost_mcp.Prelude.Texts.{contains}
use yunohost_mcp.Broker.Operations.{confirmation_argument_keys}
use yunohost_mcp.Broker.Calls.Arguments.Sound.{call_of_sound}
use yunohost_mcp.Broker.Calls.Arguments.{Operation, AdapterCall, pass, get}
use yunohost_mcp.Broker.Helper.{bound_arguments}
use Given.{AreGiven, is_lenient, handler-AreGiven}
use yunohost_mcp.Broker.Calls.System.{confirmation_only}
use yunohost_mcp.Broker.Calls.Registry.{handlers, adapter_call, without_arguments}

-- The arguments that the root boundary binds, and the two that it checks on their own.
abbrev pub checked : List String → List String
checked keys = "confirmation_id" ∷ "session_id" ∷ keys

-- Every passed argument is among these names.
passes_only : List String → List (String × Json) → Bool
passes_only keys [] = true
passes_only keys ((k, default) ∷ ps) = contains keys k && passes_only keys ps

head_value : Fields → Json
head_value end = null
head_value (field k v fs) = v

tail_fields : Fields → Fields
tail_fields end = end
tail_fields (field k v fs) = fs

bound_arguments-get :
    (keys : List String) (a b : Fields) (k : String)
    → contains keys k ≡ true
    → bound_arguments keys a ≡ bound_arguments keys b
    → get k null a ≡ get k null b
unfolding bound_arguments contains head_value tail_fields
bound_arguments-get [] a b k h same = absurd cc
bound_arguments-get (j ∷ ks) a b k h same = elim (Bool-cases (j == k)) [
  | inl this ↦
      let named : j ≡ k = (eq_iff j k).0 this in
      subst (λ x. get x null a ≡ get x null b) named (ap head_value same)
  | inr other ↦ bound_arguments-get ks a b k (ground (arith, h, other)) (ap tail_fields same)
]

-- Equal as bound, and not null, is equal with any default.
get-given :
    (k : String) (default : Json) (a b : Fields)
    → get_field a k ≢ some null
    → get_field b k ≢ some null
    → get k null a ≡ get k null b
    → get k default a ≡ get k default b
get-given k default a b h h' same = elim (Option-cases (get_field a k)) [
  | inl none_a ↦ elim (Option-cases (get_field b k)) [
    | inl none_b ↦ cc (none_a, none_b)
    | inr (w, some_b) ↦ absurd (h' (ground (arith, none_a, some_b, same)))
  ]
  | inr (v, some_a) ↦ elim (Option-cases (get_field b k)) [
    | inl none_b ↦ absurd (h (ground (arith, some_a, none_b, same)))
    | inr (w, some_b) ↦ ground (arith, some_a, some_b, same)
  ]
]

pass-agree :
    (keys : List String) (ps : List (String × Json)) (a b : Fields)
    → passes_only keys ps ≡ true
    → bound_arguments keys a ≡ bound_arguments keys b
    → AreGiven ps a
    → AreGiven ps b
    → pass ps a ≡ pass ps b
unfolding passes_only pass
pass-agree keys [] a b h same g g' = refl
pass-agree keys ((k, null) ∷ ps) a b h same g g' =
    let first = bound_arguments-get keys a b k (ground (arith, h)) same in
    let rest = pass-agree keys ps a b (ground (arith, h)) same g g' in cc (first, rest)
pass-agree keys ((k, bool x) ∷ ps) a b h same g g' =
    let first =
      get-given k (bool x) a b g.0 g'.0 (bound_arguments-get keys a b k (ground (arith, h)) same) in
    let rest = pass-agree keys ps a b (ground (arith, h)) same g.1 g'.1 in cc (first, rest)
pass-agree keys ((k, int x) ∷ ps) a b h same g g' =
    let first =
      get-given k (int x) a b g.0 g'.0 (bound_arguments-get keys a b k (ground (arith, h)) same) in
    let rest = pass-agree keys ps a b (ground (arith, h)) same g.1 g'.1 in cc (first, rest)
pass-agree keys ((k, str x) ∷ ps) a b h same g g' =
    let first =
      get-given k (str x) a b g.0 g'.0 (bound_arguments-get keys a b k (ground (arith, h)) same) in
    let rest = pass-agree keys ps a b (ground (arith, h)) same g.1 g'.1 in cc (first, rest)
pass-agree keys ((k, arr x) ∷ ps) a b h same g g' =
    let first =
      get-given k (arr x) a b g.0 g'.0 (bound_arguments-get keys a b k (ground (arith, h)) same) in
    let rest = pass-agree keys ps a b (ground (arith, h)) same g.1 g'.1 in cc (first, rest)
pass-agree keys ((k, obj x) ∷ ps) a b h same g g' =
    let first =
      get-given k (obj x) a b g.0 g'.0 (bound_arguments-get keys a b k (ground (arith, h)) same) in
    let rest = pass-agree keys ps a b (ground (arith, h)) same g.1 g'.1 in cc (first, rest)

-- A test of every operation.
unfoldable pub all_handlers : (String → Operation → Bool) → Dict Operation → Bool
all_handlers f [] = true
all_handlers f ((k, v) ∷ d) = f k v && all_handlers f d

pub all_handlers-get :
    (f : String → Operation → Bool) (d : Dict Operation) (name : String) (operation : Operation)
    → all_handlers f d ≡ true
    → Dict.get d name ≡ some operation
    → f name operation ≡ true
unfolding all_handlers Dict.get
all_handlers-get f [] name operation h e = cc
all_handlers-get f ((k, v) ∷ d) name operation h e = elim (Bool-cases (k == name)) [
  | inl same ↦ ground (arith, same, eq_iff k name)
  | inr other ↦ all_handlers-get f d name operation (ground arith) (ground (arith, other))
]

-- The operation passes only arguments that its confirmation binds, unless it publishes a catalog entry.
covered : String → Operation → Bool
covered name operation = elim (Dict.get confirmation_argument_keys name) [
  | none ↦ true
  | some keys ↦ is_lenient name || passes_only (checked keys) operation.passes
]

handlers-covered : all_handlers covered handlers ≡ true
unfolding all_handlers covered passes_only Dict.get contains without_arguments confirmation_only
handlers-covered = refl

-- Of a confirmable operation other than catalog.publish and user.create, two argument objects that
-- bind the same arguments in their confirmation, with confirmation_id and session_id beside the
-- operation's keys and a missing argument bound as null, make the same call of the adapter, where both
-- are accepted.
pub adapter_call-bound :
    (name : String) (keys : List String) (a b : Fields) (c c' : AdapterCall)
    → Dict.get confirmation_argument_keys name ≡ some keys
    → is_lenient name ≡ false
    → bound_arguments (checked keys) a ≡ bound_arguments (checked keys) b
    → adapter_call name a ≡ ok c
    → adapter_call name b ≡ ok c'
    → c ≡ c'
unfolding adapter_call covered
adapter_call-bound name keys a b c c' listed other same e e' =
    elim (Option-cases (Dict.get handlers name)) [
      | inl missing ↦ absurd (ground (arith, missing, e))
      | inr (operation, found) ↦
          let cover = all_handlers-get covered handlers name operation handlers-covered found in
          let only : passes_only (checked keys) operation.passes ≡ true =
            ground (arith, cover, listed, other) in
          let confirmable : is_some (Dict.get confirmation_argument_keys name) ≡ true =
            ap is_some listed in
          let (run, is) = call_of_sound operation a c (ground (arith, found, e)) in
          let (run', is') = call_of_sound operation b c' (ground (arith, found, e')) in
          let given = handler-AreGiven name operation a found confirmable other run in
          let given' = handler-AreGiven name operation b found confirmable other run' in
          let passed = pass-agree (checked keys) operation.passes a b only same given given' in
          cc (is, is', passed)
    ]

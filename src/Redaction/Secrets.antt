-- ===== src/Redaction/Secrets.antt =====
-- No value under a sensitive key is left, and none has an effect on what is left.
use yunohost_mcp.Prelude.{
  String, ◌≡◌, refl, ap, true, some, none, ◌==◌, eq_iff, arith, if◌then◌else◌, Bool-cases, inl, inr,
}
use yunohost_mcp.Prelude.Json.{
  Json, Items, Fields, null, bool, int, str, arr, obj, nil, cons, end, field, get_field,
}
use yunohost_mcp.Platform.{Platform}
use yunohost_mcp.Redaction.{
  redacted, is_sensitive_key, redact, redact_fields, redact_items, redact_response,
}

module _ (p : Platform) where
  -- Two values that differ under sensitive keys only.
  mutual
    pub data IsAlike : Json → Json → Type 0 where
      same : {v : Json} → IsAlike v v
      arrays : {vs ws : Items} → IsAlikeItems vs ws → IsAlike (arr vs) (arr ws)
      objects : {fs gs : Fields} → IsAlikeFields fs gs → IsAlike (obj fs) (obj gs)

    pub data IsAlikeItems : Items → Items → Type 0 where
      no_items : IsAlikeItems nil nil
      items :
          {v w : Json} {vs ws : Items}
          → IsAlike v w
          → IsAlikeItems vs ws
          → IsAlikeItems (cons v vs) (cons w ws)

    pub data IsAlikeFields : Fields → Fields → Type 0 where
      no_fields : IsAlikeFields end end
      secret :
          {k : String} {v w : Json} {fs gs : Fields}
          → is_sensitive_key p k ≡ true
          → IsAlikeFields fs gs
          → IsAlikeFields (field k v fs) (field k w gs)
      open_field :
          {k : String} {v w : Json} {fs gs : Fields}
          → IsAlike v w
          → IsAlikeFields fs gs
          → IsAlikeFields (field k v fs) (field k w gs)

  mutual
    unfolding redact

    alike_values : {v w : Json} → IsAlike v w → redact p v ≡ redact p w
    alike_values same = refl
    alike_values (arrays a) = ap arr (alike_items a)
    alike_values (objects a) = ap obj (alike_fields a)

    alike_items : {vs ws : Items} → IsAlikeItems vs ws → redact_items p vs ≡ redact_items p ws
    alike_items no_items = refl
    alike_items (items a as_) = cc (alike_values a, alike_items as_)

    alike_fields : {fs gs : Fields} → IsAlikeFields fs gs → redact_fields p fs ≡ redact_fields p gs
    alike_fields no_fields = refl
    alike_fields (secret h a) = cc (h, alike_fields a)
    alike_fields (open_field a b) = cc (alike_values a, alike_fields b)

  -- Two values that differ under sensitive keys only, at any depth, are the same once redacted.
  pub redact-alike : {v w : Json} → IsAlike v w → redact p v ≡ redact p w
  redact-alike alike = alike_values alike

  pub redact_fields-alike :
      {fs gs : Fields} → IsAlikeFields fs gs → redact_fields p fs ≡ redact_fields p gs
  redact_fields-alike alike = alike_fields alike

  mutual
    unfolding redact

    -- Redacting a redacted value changes nothing.
    pub redact-redact : (v : Json) → redact p (redact p v) ≡ redact p v
    redact-redact (obj fs) = ap obj (redact_fields-redact_fields fs)
    redact-redact (arr vs) = ap arr (redact_items-redact_items vs)
    redact-redact null = refl
    redact-redact (bool b) = refl
    redact-redact (int n) = refl
    redact-redact (str s) = refl

    redact_fields-redact_fields :
        (fs : Fields) → redact_fields p (redact_fields p fs) ≡ redact_fields p fs
    redact_fields-redact_fields end = refl
    redact_fields-redact_fields (field k v fs) =
        ground (arith, redact-redact v, redact_fields-redact_fields fs)

    redact_items-redact_items :
        (vs : Items) → redact_items p (redact_items p vs) ≡ redact_items p vs
    redact_items-redact_items nil = refl
    redact_items-redact_items (cons v vs) = cc (redact-redact v, redact_items-redact_items vs)

  -- What a key of a redacted object holds.
  pub get_field-redact :
      (fs : Fields) (k : String)
      → get_field (redact_fields p fs) k ≡ elim (get_field fs k) [
        | none ↦ none
        | some v ↦ some (if is_sensitive_key p k then redacted else redact p v)
      ]
  unfolding get_field redact_fields
  get_field-redact end k = refl
  get_field-redact (field j v fs) k = elim (Bool-cases (j == k)) [
    | inl h ↦ ground (arith, h, ap (is_sensitive_key p) ((eq_iff j k).0 h))
    | inr h ↦ ground (arith, h, get_field-redact fs k)
  ]

  -- A tool's result is redacted whether or not it is an object or a list.
  pub redact_response-redact : (v : Json) → redact_response p v ≡ redact p v
  unfolding redact_response redact
  redact_response-redact (obj fs) = refl
  redact_response-redact (arr vs) = refl
  redact_response-redact null = refl
  redact_response-redact (bool b) = refl
  redact_response-redact (int n) = refl
  redact_response-redact (str s) = refl

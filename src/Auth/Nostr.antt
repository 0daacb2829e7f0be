-- ===== src/Auth/Nostr.antt =====
-- src/yunohost_mcp/auth/nostr.py: signed events, their tags, ids and signatures.
use Prim.Native.String.{count}
use yunohost_mcp.Prelude.{
  ℕ, String, ◌≡◌, ap, Bool, true, false, not, ◌&&◌, Option, none, some, List, [], ◌∷◌, ◌==◌, eqb,
  arith, eq_iff, if◌then◌else◌,
}
use yunohost_mcp.Prelude.Int.{pos}
use yunohost_mcp.Prelude.Json.{Json, Items, nil, cons, str, int, arr}
use yunohost_mcp.Prelude.Result.{Result, ok, err}
use yunohost_mcp.Platform.{Platform, NostrEvent}

-- `NostrEventError`, by its messages
pub data NostrEventError : Type 0 where
  id_mismatch signature_failed invalid_signature : NostrEventError

abbrev pub hex32_len : ℕ
hex32_len = 64

abbrev pub hex64_len : ℕ
hex64_len = 128

-- The first value of the first tag `name`.
unfoldable pub tag_in : List (List String) → String → Option String
tag_in [] name = none
tag_in ((k ∷ v ∷ more) ∷ tags) name = if k == name then some v else tag_in tags name
tag_in (_ ∷ tags) name = tag_in tags name

abbrev pub tag : NostrEvent → String → Option String
tag e name = tag_in e.tags name

-- `o == some v`, as Python compares a tag with a text
abbrev pub is_text : Option String → String → Bool
is_text none v = false
is_text (some u) v = u == v

pub eq_of_is_text : (o : Option String) (v : String) → is_text o v ≡ true → o ≡ some v
eq_of_is_text none v h = cc
eq_of_is_text (some u) v h = ap some ((eq_iff u v).0 h)

pub is_text_of : (o : Option String) (v : String) → o ≡ some v → is_text o v ≡ true
is_text_of none v h = cc
is_text_of (some u) v h = (eq_iff u v).1 (cc)

texts_json : List String → Items
texts_json [] = nil
texts_json (t ∷ ts) = cons (str t) (texts_json ts)

tags_json : List (List String) → Items
unfolding texts_json
tags_json [] = nil
tags_json (t ∷ ts) = cons (arr (texts_json t)) (tags_json ts)

module _ (p : Platform) where
  is_hex : String → Bool
  is_hex v = p.is_hex_text v && v == p.lower v

  valid_hex : ℕ → String → Bool
  unfolding is_hex
  valid_hex n v = eqb (count v) n && is_hex v

  -- NostrEvent.model_validate(value): pydantic's fields, then the validators of the class
  unfoldable pub model_validate : Json → Option NostrEvent
  unfolding valid_hex
  model_validate value = elim (p.event_fields value) [
    | none ↦ none
    | some e ↦
        if valid_hex hex32_len e.id && valid_hex hex32_len e.pubkey && valid_hex hex64_len e.sig
        then some e
        else none
  ]

  unfoldable pub compute_event_id : NostrEvent → String
  unfolding tags_json
  compute_event_id e = p.sha256 (
      p.encode (
        p.dumps_compact (
          arr (
            cons (int (pos 0)) (
              cons (str e.pubkey) (
                cons (int e.created_at) (
                  cons (int e.kind)
                    (cons (arr (tags_json e.tags)) (cons (str e.content) nil)))))))))

  unfoldable pub verify_event : NostrEvent → Result NostrEventError (Unit {0})
  verify_event e =
      if not (e.id == compute_event_id e)
      then err NostrEventError.id_mismatch
      else elim (p.verify_signature e) [
        | none ↦ err NostrEventError.signature_failed
        | some false ↦ err NostrEventError.invalid_signature
        | some true ↦ ok tt
      ]

  -- An event whose id is the digest of its content and whose signature nostr_sdk accepts.
  pub record IsSigned (e : NostrEvent) : Type 0 where
    pub own_id : e.id ≡ compute_event_id e
    pub signed : p.verify_signature e ≡ some true

  -- `verify_event` accepts exactly the signed events.
  pub verify_event_sound : (e : NostrEvent) (u : Unit {0}) → verify_event e ≡ ok u → IsSigned e
  unfolding verify_event
  verify_event_sound e u h = ground (arith, eq_iff e.id (compute_event_id e))

  pub verify_event_complete : (e : NostrEvent) → IsSigned e → verify_event e ≡ ok tt
  unfolding verify_event
  verify_event_complete e s = ground (arith, eq_iff e.id (compute_event_id e))

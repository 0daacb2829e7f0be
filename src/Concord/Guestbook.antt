-- ===== src/Concord/Guestbook.antt =====
-- src/yunohost_mcp/concord_guestbook.py: `fold_guestbook`, over decoded rumors. The two authorizations
-- are arguments; digits are ASCII here.
pub mod Claims
pub mod Candidates
pub mod Members
use Prim.Native.Nat.{Ordering}
use Prim.Native.String.{compare, count}
use yunohost_mcp.Prelude.{
  ℕ, ◌+◌, ◌*◌, String, Bool, true, false, not, ◌&&◌, ◌||◌, Option, none, some, List, [], ◌∷◌, ◌++◌,
  ◌==◌, eqb, leb, all, any, is_some, map, length, if◌then◌else◌,
}
use yunohost_mcp.Prelude.Dict
use yunohost_mcp.Prelude.Dict.{Dict}
use yunohost_mcp.Prelude.Int.{ℤ, pos, negsuc, ◌+ℤ◌, ltb_ℤ, eqb_ℤ}
use yunohost_mcp.Prelude.Json.{
  Json, Items, Fields, null, bool, int, str, arr, obj, nil, cons, end, field, get_field,
}
use yunohost_mcp.Platform.{Platform}
use yunohost_mcp.Policy.Rules.Sizes.{is_digit, number_from, codes}

pub record GuestbookState : Type 0 where
  pub member : String
  pub status : String
  pub timestamp_ms : ℤ
  pub rumor_id : String

-- What `fold_guestbook` is called with beside the rumors.
pub record Authority : Type 0 where
  pub now_ms : ℤ
  pub future_skew_ms : ℕ
  pub authorize_kick : Option (Fields → Bool)
  pub authorize_snapshot : Option (Fields → Bool)
  pub banned_members : List String

-- The tags that are lists.
abbrev lists_in : Items → List Items
lists_in nil = []
lists_in (cons (arr vs) rest) = vs ∷ lists_in rest
lists_in (cons v rest) = lists_in rest

abbrev pub tags_of : Option Json → List Items
tags_of (some (arr vs)) = lists_in vs
tags_of _ = []

-- tag[1] of the tags with this name and at least two items.
abbrev pub values_of : String → List Items → List Json
values_of name [] = []
values_of name (cons (str t) (cons v rest) ∷ tags) =
    let more = values_of name tags in if t == name then v ∷ more else more
values_of name (_ ∷ tags) = values_of name tags

abbrev pub texts_in : List Json → List String
texts_in [] = []
texts_in (str s ∷ vs) = s ∷ texts_in vs
texts_in (v ∷ vs) = texts_in vs

abbrev are_digits : String → Bool
are_digits s = not (s == "") && all is_digit (codes s)

millisecond_of : List Json → Option ℕ
millisecond_of [] = some 0
millisecond_of (str s ∷ []) =
    let value = number_from 0 (codes s) in
    if are_digits s && leb value 999 then some value else none
millisecond_of _ = none

-- `_millisecond`
unfoldable pub millisecond : Fields → Option ℕ
unfolding millisecond_of
millisecond rumor = millisecond_of (values_of "ms" (tags_of (get_field rumor "tags")))

-- tag[2:4] of the snapshot tags with at least four items.
abbrev snap_ranges : List Items → List (Json × Json)
snap_ranges [] = []
snap_ranges (cons (str t) (cons v (cons a (cons b rest))) ∷ tags) =
    let more = snap_ranges tags in if t == "snap" then (a, b) ∷ more else more
snap_ranges (_ ∷ tags) = snap_ranges tags

abbrev is_digits_text : Json → Bool
is_digits_text (str s) = are_digits s
is_digits_text _ = false

abbrev one_range : List (Json × Json) → Bool
one_range ((a, b) ∷ []) = is_digits_text a && is_digits_text b
one_range _ = false

-- The items, if all are texts of 64 characters.
keys_in : Items → Option (List String)
keys_in nil = some []
keys_in (cons (str s) rest) = elim (keys_in rest) [
  | none ↦ none
  | some keys ↦ if eqb (count s) 64 then some (s ∷ keys) else none
]
keys_in (cons v rest) = none

pub keys_of : Option Json → Option (List String)
unfolding keys_in
keys_of (some (arr vs)) = keys_in vs
keys_of _ = none

-- json.loads(rumor.get("content", ""))
pub content_value : Platform → Option Json → Option Json
content_value p none = p.loads_text []
content_value p (some (str s)) = p.loads_text (codes s)
content_value p (some _) = none

-- authorize is not None and authorize(rumor)
abbrev pub authorized : Option (Fields → Bool) → Fields → Bool
authorized none rumor = false
authorized (some authorize) rumor = authorize rumor

-- Whom a rumor is about, and what it says of them; nothing for a rumor that is passed over.
pub data Claim : Type 0 where
  claim : List String → String → Claim

abbrev pub is_key : Option Json → Option String
is_key (some (str s)) = if eqb (count s) 64 then some s else none
is_key _ = none

-- isinstance(created_at, int), which a bool is too
abbrev pub as_int : Option Json → Option ℤ
as_int (some (int n)) = some n
as_int (some (bool true)) = some (pos 1)
as_int (some (bool false)) = some (pos 0)
as_int _ = none

-- kind 3306, from the member itself
own_claim : Option String → Option Json → Option Claim
own_claim (some member) (some (str content)) =
    if content == "join" || content == "leave" then some (claim (member ∷ []) content) else none
own_claim _ _ = none

-- kind 3309: one target, which leaves
kick_claim : List String → Option Json → Option Claim
kick_claim (target ∷ []) (some (str content)) =
    if eqb (count target) 64 && content == "" then some (claim (target ∷ []) "leave") else none
kick_claim _ _ = none

-- kind 3312: all members of the list have joined
snapshot_claim : Bool → Option (List String) → Option Claim
snapshot_claim true (some members) = some (claim members "join")
snapshot_claim _ _ = none

module _ (p : Platform) (authority : Authority) where
  abbrev is_kind : ℕ → Option Json → Bool
  is_kind kind (some (int n)) = eqb_ℤ n (pos kind)
  is_kind kind _ = false

  unfoldable pub claim_of : Fields → Option Claim
  unfolding own_claim kick_claim snapshot_claim keys_of content_value
  claim_of rumor =
      let kind = get_field rumor "kind" in
      let tags = tags_of (get_field rumor "tags") in
      if is_kind 3306 kind
      then own_claim (is_key (get_field rumor "pubkey")) (get_field rumor "content")
      else if is_kind 3309 kind
      then if authorized authority.authorize_kick rumor
        then kick_claim (texts_in (values_of "p" tags)) (get_field rumor "content")
        else none
      else if is_kind 3312 kind && authorized authority.authorize_snapshot rumor
      then snapshot_claim (one_range (snap_ranges tags))
          (keys_of (content_value p (get_field rumor "content")))
      else none

  abbrev states_of : List String → String → ℤ → String → List GuestbookState
  states_of [] status time id = []
  states_of (member ∷ members) status time id =
      record { member = member; status = status; timestamp_ms = time; rumor_id = id }
      ∷ states_of members status time id

  abbrev pub latest_ms : ℤ
  latest_ms = authority.now_ms +ℤ pos authority.future_skew_ms

  -- created_at * 1000
  abbrev pub thousandfold : ℤ → ℤ
  thousandfold (pos n) = pos (n * 1000)
  thousandfold (negsuc n) = negsuc (n * 1000 + 999)

  timed : Option Claim → Option String → Option ℤ → Option ℕ → List GuestbookState
  timed (some (claim members status)) (some id) (some created_at) (some ms) =
      let time = thousandfold created_at +ℤ pos ms in
      if ltb_ℤ latest_ms time then [] else states_of members status time id
  timed _ _ _ _ = []

  -- The candidates of one rumor.
  unfoldable pub candidates : Fields → List GuestbookState
  unfolding timed
  candidates rumor =
      timed (claim_of rumor) (is_key (get_field rumor "id")) (as_int (get_field rumor "created_at"))
        (millisecond rumor)

  abbrev is_less : Ordering → Bool
  is_less Ordering.lt = true
  is_less _ = false

  -- (a.timestamp_ms, a.rumor_id) > (b.timestamp_ms, b.rumor_id)
  unfoldable pub newer : GuestbookState → GuestbookState → Bool
  newer a b =
      ltb_ℤ b.timestamp_ms a.timestamp_ms
      || (eqb_ℤ b.timestamp_ms a.timestamp_ms && is_less (compare b.rumor_id a.rumor_id))

  abbrev pub wins : GuestbookState → Option GuestbookState → Bool
  wins candidate none = true
  wins candidate (some current) = newer candidate current

  -- The states after one candidate.
  unfoldable pub offer : Dict GuestbookState → GuestbookState → Dict GuestbookState
  offer states candidate =
      if wins candidate (Dict.get states candidate.member)
      then Dict.put states candidate.member candidate
      else states

  unfoldable pub offer_all : Dict GuestbookState → List GuestbookState → Dict GuestbookState
  offer_all states [] = states
  offer_all states (c ∷ cs) = offer_all (offer states c) cs

  unfoldable pub fold_rumors : Dict GuestbookState → List Fields → Dict GuestbookState
  fold_rumors states [] = states
  fold_rumors states (rumor ∷ rumors) = fold_rumors (offer_all states (candidates rumor)) rumors

  unfoldable pub without_banned : Dict GuestbookState → Dict GuestbookState
  without_banned [] = []
  without_banned ((member, state) ∷ states) =
      let rest = without_banned states in
      if any (λ b. b == member) authority.banned_members then rest else (member, state) ∷ rest

  -- `fold_guestbook`, of a skew that is not negative
  unfoldable pub fold_guestbook : List Fields → Dict GuestbookState
  fold_guestbook rumors = without_banned (fold_rumors [] rumors)

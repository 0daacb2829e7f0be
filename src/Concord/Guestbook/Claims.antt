-- ===== src/Concord/Guestbook/Claims.antt =====
-- src/yunohost_mcp/concord_guestbook.py: what a rumor that the fold takes into account says, and of
-- whom.
use yunohost_mcp.Prelude.{
  ℕ, String, ◌≡◌, refl, ap, subst, sym, ◌∙◌, Bool, true, false, ◌||◌, ◌&&◌, eqb, Option, none, some,
  List, [], ◌∷◌, ◌==◌, eq_iff, arith, Bool-cases, inl, inr, ◌⊎◌,
}
use Prim.Native.String.{count}
use yunohost_mcp.Prelude.Int.{pos, eq_of_eqb_ℤ}
use yunohost_mcp.Prelude.Texts.{contains}
use yunohost_mcp.Prelude.Json.{Json, Fields, null, bool, int, str, arr, obj, get_field}
use yunohost_mcp.Platform.{Platform}
use yunohost_mcp.Concord.Guestbook.{
  Authority, claim, authorized, is_key, own_claim, kick_claim, snapshot_claim, tags_of, texts_in,
  values_of, one_range, snap_ranges, keys_of, content_value, is_kind, claim_of,
}

pub is_key_sound : (v : Option Json) (s : String) → is_key v ≡ some s → v ≡ some (str s)
is_key_sound none s h = absurd cc
is_key_sound (some (str t)) s h = ground (arith, h)
is_key_sound (some null) s h = absurd cc
is_key_sound (some (bool b)) s h = absurd cc
is_key_sound (some (int n)) s h = absurd cc
is_key_sound (some (arr vs)) s h = absurd cc
is_key_sound (some (obj fs)) s h = absurd cc

-- A Join or Leave by the member itself.
pub record IsOwn (rumor : Fields) (status member : String) : Type 0 where
  pub kind : get_field rumor "kind" ≡ some (int (pos 3306))
  pub author : get_field rumor "pubkey" ≡ some (str member)
  pub content : get_field rumor "content" ≡ some (str status)
  pub known : (status == "join" || status == "leave") ≡ true

module _ (p : Platform) (authority : Authority) where
  -- An authorized kick whose one target is the member.
  pub record IsKick (rumor : Fields) (status member : String) : Type 0 where
    pub kind : get_field rumor "kind" ≡ some (int (pos 3309))
    pub allowed : authorized authority.authorize_kick rumor ≡ true
    pub target : texts_in (values_of "p" (tags_of (get_field rumor "tags"))) ≡ member ∷ []
    pub content : get_field rumor "content" ≡ some (str "")
    pub left : status ≡ "leave"

  -- An authorized snapshot whose content lists the member.
  pub record IsListed (rumor : Fields) (status member : String) : Type 0 where
    pub members : List String
    pub kind : get_field rumor "kind" ≡ some (int (pos 3312))
    pub allowed : authorized authority.authorize_snapshot rumor ≡ true
    pub listed : keys_of (content_value p (get_field rumor "content")) ≡ some members
    pub is_in : contains members member ≡ true
    pub joined : status ≡ "join"

  abbrev pub IsSaid : Fields → String → String → Type 0
  IsSaid rumor status member =
      IsOwn rumor status member ⊎ (IsKick rumor status member ⊎ IsListed rumor status member)

  is_kind_sound :
      (kind : ℕ) (v : Option Json) → is_kind p authority kind v ≡ true → v ≡ some (int (pos kind))
  is_kind_sound kind none h = absurd cc
  is_kind_sound kind (some (int n)) h = ap (λ x. some (int x)) (eq_of_eqb_ℤ n (pos kind) h)
  is_kind_sound kind (some null) h = absurd cc
  is_kind_sound kind (some (bool b)) h = absurd cc
  is_kind_sound kind (some (str s)) h = absurd cc
  is_kind_sound kind (some (arr vs)) h = absurd cc
  is_kind_sound kind (some (obj fs)) h = absurd cc

  contains_one : (m x : String) → contains (m ∷ []) x ≡ true → m ≡ x
  unfolding contains
  contains_one m x h = (eq_iff m x).0 (ground (arith, h))

  own_claim_sound :
      (rumor : Fields) (key : Option String) (content : Option Json) (members : List String)
      (status member : String)
      → get_field rumor "kind" ≡ some (int (pos 3306))
      → is_key (get_field rumor "pubkey") ≡ key
      → get_field rumor "content" ≡ content
      → own_claim key content ≡ some (claim members status)
      → contains members member ≡ true
      → IsOwn rumor status member
  unfolding own_claim
  own_claim_sound rumor none content members status member k a c h i = absurd cc
  own_claim_sound rumor (some m) none members status member k a c h i = absurd cc
  own_claim_sound rumor (some m) (some null) members status member k a c h i = absurd cc
  own_claim_sound rumor (some m) (some (bool b)) members status member k a c h i = absurd cc
  own_claim_sound rumor (some m) (some (int n)) members status member k a c h i = absurd cc
  own_claim_sound rumor (some m) (some (arr vs)) members status member k a c h i = absurd cc
  own_claim_sound rumor (some m) (some (obj fs)) members status member k a c h i = absurd cc
  own_claim_sound rumor (some m) (some (str s)) members status member k a c h i =
      elim (Bool-cases (s == "join" || s == "leave")) [
        | inr other ↦ absurd (ground (arith, other, h))
        | inl known ↦
            let is : claim (m ∷ []) s ≡ claim members status = ground (arith, known, h) in
            let one : (m ∷ []) ≡ members = cc is in
            let same : s ≡ status = cc is in
            let named : m ≡ member =
              contains_one m member (subst (λ x. contains x member ≡ true) (sym one) i) in
            record {
              kind = k;
              author = is_key_sound (get_field rumor "pubkey") m a ∙ ap (λ x. some (str x)) named;
              content = c ∙ ap (λ x. some (str x)) same;
              known = subst (λ x. (x == "join" || x == "leave") ≡ true) same known;
            }
      ]

  kick_claim_sound :
      (rumor : Fields) (targets : List String) (content : Option Json) (members : List String)
      (status member : String)
      → get_field rumor "kind" ≡ some (int (pos 3309))
      → authorized authority.authorize_kick rumor ≡ true
      → texts_in (values_of "p" (tags_of (get_field rumor "tags"))) ≡ targets
      → get_field rumor "content" ≡ content
      → kick_claim targets content ≡ some (claim members status)
      → contains members member ≡ true
      → IsKick rumor status member
  unfolding kick_claim
  kick_claim_sound rumor [] content members status member k a t c h i = absurd cc
  kick_claim_sound rumor (m ∷ n ∷ ms) content members status member k a t c h i = absurd cc
  kick_claim_sound rumor (m ∷ []) none members status member k a t c h i = absurd cc
  kick_claim_sound rumor (m ∷ []) (some null) members status member k a t c h i = absurd cc
  kick_claim_sound rumor (m ∷ []) (some (bool b)) members status member k a t c h i = absurd cc
  kick_claim_sound rumor (m ∷ []) (some (int n)) members status member k a t c h i = absurd cc
  kick_claim_sound rumor (m ∷ []) (some (arr vs)) members status member k a t c h i = absurd cc
  kick_claim_sound rumor (m ∷ []) (some (obj fs)) members status member k a t c h i = absurd cc
  kick_claim_sound rumor (m ∷ []) (some (str s)) members status member k a t c h i =
      elim (Bool-cases (eqb (count m) 64 && s == "")) [
        | inr other ↦ absurd (ground (arith, other, h))
        | inl fits ↦
            let is : claim (m ∷ []) "leave" ≡ claim members status = ground (arith, fits, h) in
            let one : (m ∷ []) ≡ members = cc is in
            let same : "leave" ≡ status = cc is in
            let named : m ≡ member =
              contains_one m member (subst (λ x. contains x member ≡ true) (sym one) i) in
            let silent : s ≡ "" = (eq_iff s "").0 (ground (arith, fits)) in
            record {
              kind = k;
              allowed = a;
              target = t ∙ ap (λ x. x ∷ []) named;
              content = c ∙ ap (λ x. some (str x)) silent;
              left = sym same;
            }
      ]

  snapshot_claim_sound :
      (rumor : Fields) (one : Bool) (keys : Option (List String)) (members : List String)
      (status member : String)
      → get_field rumor "kind" ≡ some (int (pos 3312))
      → authorized authority.authorize_snapshot rumor ≡ true
      → keys_of (content_value p (get_field rumor "content")) ≡ keys
      → snapshot_claim one keys ≡ some (claim members status)
      → contains members member ≡ true
      → IsListed rumor status member
  unfolding snapshot_claim
  snapshot_claim_sound rumor false keys members status member k a l h i = absurd cc
  snapshot_claim_sound rumor true none members status member k a l h i = absurd cc
  snapshot_claim_sound rumor true (some names) members status member k a l h i =
      let is : claim names "join" ≡ claim members status = ground (arith, h) in
      let same : names ≡ members = cc is in
      let joined : "join" ≡ status = cc is in
      record {
        members = members;
        kind = k;
        allowed = a;
        listed = l ∙ ap some same;
        is_in = i;
        joined = sym joined;
      }

  -- What a rumor is taken to say of a member, it says.
  pub claim_of_sound :
      (rumor : Fields) (members : List String) (status : String)
      → claim_of p authority rumor ≡ some (claim members status)
      → (member : String) → contains members member ≡ true
      → IsSaid rumor status member
  unfolding claim_of
  claim_of_sound rumor members status h member i =
      let kind = get_field rumor "kind" in
      let targets = texts_in (values_of "p" (tags_of (get_field rumor "tags"))) in
      let content = get_field rumor "content" in
      elim (Bool-cases (is_kind p authority 3306 kind)) [
        | inl own ↦ inl (
            own_claim_sound rumor (is_key (get_field rumor "pubkey")) content members status member
              (is_kind_sound 3306 kind own) refl refl (ground (arith, own, h)) i)
        | inr not_own ↦ elim (Bool-cases (is_kind p authority 3309 kind)) [
          | inl kick ↦ elim (Bool-cases (authorized authority.authorize_kick rumor)) [
            | inr denied ↦ absurd (ground (arith, not_own, kick, denied, h))
            | inl allowed ↦ inr (
                inl (
                  kick_claim_sound rumor targets content members status member
                    (is_kind_sound 3309 kind kick) allowed refl refl
                    (ground (arith, not_own, kick, allowed, h)) i))
          ]
          | inr not_kick ↦ elim (Bool-cases (is_kind p authority 3312 kind)) [
            | inr other ↦ absurd (ground (arith, not_own, not_kick, other, h))
            | inl listed ↦ elim (Bool-cases (authorized authority.authorize_snapshot rumor)) [
              | inr denied ↦ absurd (ground (arith, not_own, not_kick, listed, denied, h))
              | inl allowed ↦ inr (
                  inr (
                    snapshot_claim_sound rumor
                      (one_range (snap_ranges (tags_of (get_field rumor "tags"))))
                      (keys_of (content_value p content)) members status member
                      (is_kind_sound 3312 kind listed) allowed refl
                      (ground (arith, not_own, not_kick, listed, allowed, h)) i))
            ]
          ]
        ]
      ]

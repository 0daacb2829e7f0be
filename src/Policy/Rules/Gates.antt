-- ===== src/Policy/Rules/Gates.antt =====
-- Which calls the built-in policy sends to the owner, and the hard requirements.
use yunohost_mcp.Prelude.{
  ℕ, ◌-◌, ◌≤◌, String, ◌≡◌, refl, ◌↔◌, ◌⊎◌, inl, inr, Bool, true, false, ◌||◌, ◌&&◌, not,
  Option-cases, Option, none, some, List, [], ◌∷◌, ◌==◌, arith, ltb, is_some, Bool-cases,
  if◌then◌else◌,
}
use yunohost_mcp.Prelude.Dict
use yunohost_mcp.Prelude.Dict.{Dict}
use yunohost_mcp.Prelude.Json.{Fields, get_field}
use yunohost_mcp.Prelude.Result.{ok}
use yunohost_mcp.Policy.Rules.{
  PolicyRule, default_policy, is_str, newest, user_create_policy_key, user_group_update_policy_key,
  check_free_space, check_recent_backup, is_true,
}

-- The rule asks for a confirmation and for the owner's signature.
abbrev pub is_owner_gated : Option PolicyRule → Bool
is_owner_gated none = false
is_owner_gated (some r) = r.require_confirmation && r.require_owner_signature

-- The built-in policy sends the call to the owner.
pub gated : String → Bool
gated key = is_owner_gated (Dict.get default_policy key)

by_key :
    (a b : String) → gated a ≡ true → gated b ≡ false → (t : Bool) → gated (if t then a else b) ≡ t
by_key a b x y true = x
by_key a b x y false = y

-- Creating a user is for the owner exactly when it is to be an admin, and changing a group exactly
-- when it is the group of admins.
pub user-owner_gated :
    (arguments : Fields)
    → (gated (user_create_policy_key arguments) ≡ is_true (get_field arguments "admin"))
      × (gated (user_group_update_policy_key arguments)
          ≡ is_str (get_field arguments "groupname") "admins")
unfolding gated Dict.get user_create_policy_key user_group_update_policy_key
user-owner_gated arguments = (
  by_key "users.admin_access" "users.write" refl refl _,
  by_key "users.admin_access" "users.write" refl refl _,
)

coherent : PolicyRule → Bool
coherent r =
    (not r.require_owner_signature || r.require_confirmation)
    && (not (is_some r.max_backup_age_seconds) || r.require_backup)

all_rules : (PolicyRule → Bool) → Dict PolicyRule → Bool
all_rules f [] = true
all_rules f ((k, r) ∷ d) = f r && all_rules f d

all_rules-get :
    (f : PolicyRule → Bool) (d : Dict PolicyRule) (key : String) (r : PolicyRule)
    → all_rules f d ≡ true
    → Dict.get d key ≡ some r
    → f r ≡ true
unfolding all_rules Dict.get
all_rules-get f [] key r h e = cc
all_rules-get f ((k, q) ∷ d) key r h e = elim (Bool-cases (k == key)) [
  | inl same ↦ ground (arith, same)
  | inr other ↦ all_rules-get f d key r (ground arith) (ground (arith, other))
]

-- No built-in rule asks for the owner's signature without a confirmation, which the signature needs
-- to have an effect; and none limits a backup's age without asking for a backup.
pub default_policy_coherent :
    (key : String) (r : PolicyRule)
    → Dict.get default_policy key ≡ some r
    → (r.require_owner_signature ≡ true → r.require_confirmation ≡ true)
      × (is_some r.max_backup_age_seconds ≡ true → r.require_backup ≡ true)
unfolding coherent all_rules
default_policy_coherent key r e =
    let h = all_rules-get coherent default_policy key r refl e in ground (arith, h)

-- The free space is enough, or no floor is set.
abbrev pub HasSpace : PolicyRule → ℕ → Type 0
HasSpace r free = (least : ℕ) → r.minimum_free_space_bytes ≡ some least → least ≤ free

pub check_free_space_iff :
    (r : PolicyRule) (free : ℕ) → (check_free_space r free ≡ ok tt) ↔ HasSpace r free
unfolding check_free_space
check_free_space_iff r free = (
  λ h least e. ground arith,
  λ h. elim (Option-cases r.minimum_free_space_bytes) [
    | inl e ↦ ground (arith, e)
    | inr (least, e) ↦ ground (arith, e, h least e)
  ],
)

-- An archive of this age is within the limit.
abbrev pub IsRecent : Option ℕ → ℕ → Type 0
IsRecent none age = Unit
IsRecent (some limit) age = age ≤ limit

-- Some archive is within the limit.
abbrev pub HasRecent : Option ℕ → ℕ → List (String × ℕ) → Type 0
HasRecent limit now [] = ⊥
HasRecent limit now ((name, t) ∷ rest) = IsRecent limit (now - t) ⊎ HasRecent limit now rest

newest_recent :
    (limit now best : ℕ) (rest : List (String × ℕ))
    → (now - newest best rest ≤ limit) ↔ ((now - best ≤ limit) ⊎ HasRecent (some limit) now rest)
newest_recent limit now best [] = (λ h. inl h, λ h. ground arith)
newest_recent limit now best ((name, t) ∷ rest) =
    let ih = newest_recent limit now (if ltb best t then t else best) rest in
    (λ h. join (ih.0 h), λ h. ih.1 (split h))
  where
    join :
        (now - (if ltb best t then t else best) ≤ limit) ⊎ HasRecent (some limit) now rest
        → (now - best ≤ limit) ⊎ ((now - t ≤ limit) ⊎ HasRecent (some limit) now rest)
    join (inl h) = elim (Bool-cases (ltb best t)) [
      | inl newer ↦ inr (inl (rw newer at h))
      | inr older ↦ inl (rw older at h)
    ]
    join (inr h) = inr (inr h)

    split :
        (now - best ≤ limit) ⊎ ((now - t ≤ limit) ⊎ HasRecent (some limit) now rest)
        → (now - (if ltb best t then t else best) ≤ limit) ⊎ HasRecent (some limit) now rest
    split (inl h) = inl (ground arith)
    split (inr (inl h)) = inl (ground arith)
    split (inr (inr h)) = inr h

-- A recent enough archive, where the policy asks for a backup.
abbrev pub HasBackup : PolicyRule → List (String × ℕ) → ℕ → Type 0
HasBackup r archives now = r.require_backup ≡ true → HasRecent r.max_backup_age_seconds now archives

check_recent_backup_sound :
    (r : PolicyRule) (limit : Option ℕ) (archives : List (String × ℕ)) (now : ℕ)
    → r.max_backup_age_seconds ≡ limit
    → check_recent_backup r archives now ≡ ok tt
    → r.require_backup ≡ true
    → HasRecent limit now archives
unfolding check_recent_backup
check_recent_backup_sound r limit [] now e h needed = ground (arith, needed)
check_recent_backup_sound r none ((name, t) ∷ rest) now e h needed = inl tt
check_recent_backup_sound r (some l) ((name, t) ∷ rest) now e h needed =
    (newest_recent l now t rest).0 (ground arith)

check_recent_backup_complete :
    (r : PolicyRule) (limit : Option ℕ) (archives : List (String × ℕ)) (now : ℕ)
    → r.max_backup_age_seconds ≡ limit
    → (r.require_backup ≡ true → HasRecent limit now archives)
    → check_recent_backup r archives now ≡ ok tt
unfolding check_recent_backup
check_recent_backup_complete r limit archives now e h = elim (Bool-cases r.require_backup) [
  | inr free ↦ waived archives free
  | inl needed ↦ met limit archives e needed (h needed)
]
  where
    waived :
        (archives : List (String × ℕ))
        → r.require_backup ≡ false
        → check_recent_backup r archives now ≡ ok tt
    waived [] free = ground (arith, free)
    waived ((name, t) ∷ rest) free = ground (arith, free)

    met :
        (limit : Option ℕ) (archives : List (String × ℕ))
        → r.max_backup_age_seconds ≡ limit
        → r.require_backup ≡ true
        → HasRecent limit now archives
        → check_recent_backup r archives now ≡ ok tt
    met limit [] e needed h = absurd h
    met none ((name, t) ∷ rest) e needed h = ground (arith, e)
    met (some l) ((name, t) ∷ rest) e needed h =
        let close = (newest_recent l now t rest).1 h in ground (arith, e, close)

-- The two hard requirements: the check of the free space passes exactly when the floor, if there is
-- one, is met; that of the backups exactly when no backup is asked for or some archive is within
-- the limit on its age, any archive where there is no limit.
pub hard_requirements_iff :
    (r : PolicyRule) (free : ℕ) (archives : List (String × ℕ)) (now : ℕ)
    → ((check_free_space r free ≡ ok tt) ↔ HasSpace r free)
      × ((check_recent_backup r archives now ≡ ok tt) ↔ HasBackup r archives now)
hard_requirements_iff r free archives now = (
  check_free_space_iff r free,
  (
    check_recent_backup_sound r r.max_backup_age_seconds archives now refl,
    check_recent_backup_complete r r.max_backup_age_seconds archives now refl,
  ),
)

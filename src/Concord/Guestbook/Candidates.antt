-- ===== src/Concord/Guestbook/Candidates.antt =====
-- src/yunohost_mcp/concord_guestbook.py: what the candidates of a rumor stand for.
use yunohost_mcp.Prelude.{
  ℕ, String, ◌≡◌, refl, Bool, true, false, Option, none, some, List, [], ◌∷◌, eq_refl, arith, inl,
  inr, ◌⊎◌, if◌then◌else◌,
}
use yunohost_mcp.Prelude.Int.{ℤ, pos, ltb_ℤ, ◌+ℤ◌}
use yunohost_mcp.Prelude.Texts.{contains}
use yunohost_mcp.Prelude.Json.{Fields, str, get_field}
use yunohost_mcp.Platform.{Platform}
use yunohost_mcp.Concord.Guestbook.Claims.{IsSaid, claim_of_sound, is_key_sound}
use yunohost_mcp.Concord.Guestbook.{
  GuestbookState, Authority, Claim, claim, is_key, as_int, millisecond, claim_of, states_of,
  thousandfold, timed, latest_ms, candidates,
}

-- A property of all items.
abbrev pub AllOf : {A : Type 0} → (A → Type 0) → List A → Type 0
AllOf P [] = Unit
AllOf P (x ∷ xs) = P x × AllOf P xs

-- A property of some item.
abbrev pub AnyOf : {A : Type 0} → (A → Type 0) → List A → Type 0
AnyOf P [] = ⊥
AnyOf P (x ∷ xs) = P x ⊎ AnyOf P xs

pub AllOf-map :
    {A : Type 0} (P Q : A → Type 0) (xs : List A) → ((x : A) → P x → Q x) → AllOf P xs → AllOf Q xs
AllOf-map P Q [] f h = tt
AllOf-map P Q (x ∷ xs) f h = (f x h.0, AllOf-map P Q xs f h.1)

module _ (p : Platform) (authority : Authority) where
  -- The rumor says of the state's member what the state has, at its time and under its id, and is not of
  -- the future.
  pub record Says (rumor : Fields) (state : GuestbookState) : Type 0 where
    pub said : IsSaid p authority rumor state.status state.member
    pub id : get_field rumor "id" ≡ some (str state.rumor_id)
    pub created_at : ℤ
    pub ms : ℕ
    pub made : as_int (get_field rumor "created_at") ≡ some created_at
    pub fraction : millisecond rumor ≡ some ms
    pub time : state.timestamp_ms ≡ thousandfold p authority created_at +ℤ pos ms
    pub past : ltb_ℤ (latest_ms p authority) state.timestamp_ms ≡ false

  states-Says :
      (rumor : Fields) (members : List String) (status : String) (n : ℤ) (ms : ℕ) (id : String)
      → ((member : String)
          → contains members member ≡ true
          → IsSaid p authority rumor status member)
      → get_field rumor "id" ≡ some (str id)
      → as_int (get_field rumor "created_at") ≡ some n
      → millisecond rumor ≡ some ms
      → ltb_ℤ (latest_ms p authority) (thousandfold p authority n +ℤ pos ms) ≡ false
      → AllOf
          (Says rumor)
          (states_of p authority members status (thousandfold p authority n +ℤ pos ms) id)
  unfolding contains
  states-Says rumor [] status n ms id h i c m l = tt
  states-Says rumor (x ∷ xs) status n ms id h i c m l = (
    record {
      said = h x (ground (arith, eq_refl x));
      id = i;
      created_at = n;
      ms = ms;
      made = c;
      fraction = m;
      time = refl;
      past = l;
    },
    states-Says rumor xs status n ms id (λ y k. h y (ground (arith, k))) i c m l,
  )

  timed-Says :
      (rumor : Fields) (said : Option Claim) (id : Option String) (created_at : Option ℤ)
      (ms : Option ℕ)
      → claim_of p authority rumor ≡ said
      → is_key (get_field rumor "id") ≡ id
      → as_int (get_field rumor "created_at") ≡ created_at
      → millisecond rumor ≡ ms
      → AllOf (Says rumor) (timed p authority said id created_at ms)
  unfolding timed
  timed-Says rumor none id created_at ms h i c m = tt
  timed-Says rumor (some (claim members status)) none created_at ms h i c m = tt
  timed-Says rumor (some (claim members status)) (some id) none ms h i c m = tt
  timed-Says rumor (some (claim members status)) (some id) (some n) none h i c m = tt
  timed-Says rumor (some (claim members status)) (some id) (some n) (some ms) h i c m =
      let time = thousandfold p authority n +ℤ pos ms in
      let states = states_of p authority members status time id in
      on_time (ltb_ℤ (latest_ms p authority) time) states (λ past.
        states-Says rumor members status n ms id (claim_of_sound p authority rumor members status h)
          (is_key_sound (get_field rumor "id") id i) c m past)
    where
      on_time :
          (late : Bool) (states : List GuestbookState)
          → (late ≡ false → AllOf (Says rumor) states)
          → AllOf (Says rumor) (if late then [] else states)
      on_time true states k = tt
      on_time false states k = k refl

  candidates-Says : (rumor : Fields) → AllOf (Says rumor) (candidates p authority rumor)
  unfolding candidates
  candidates-Says rumor =
      timed-Says rumor (claim_of p authority rumor) (is_key (get_field rumor "id")) _ _ refl refl
        refl refl

  -- Some rumor of the list says so.
  abbrev pub SaidIn : List Fields → GuestbookState → Type 0
  SaidIn rumors state = AnyOf (λ r. Says r state) rumors

  pub all_said :
      (rumors : List Fields) → AllOf (λ r. AllOf (SaidIn rumors) (candidates p authority r)) rumors
  all_said [] = tt
  all_said (x ∷ xs) = (
    AllOf-map (Says x) (SaidIn (x ∷ xs)) (candidates p authority x) (λ c h. inl h)
        (candidates-Says x),
    AllOf-map (λ r. AllOf (SaidIn xs) (candidates p authority r))
        (λ r. AllOf (SaidIn (x ∷ xs)) (candidates p authority r)) xs
        (λ r. AllOf-map (SaidIn xs) (SaidIn (x ∷ xs)) (candidates p authority r) (λ c h. inr h))
        (all_said xs),
  )

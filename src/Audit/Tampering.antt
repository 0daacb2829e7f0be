-- ===== src/Audit/Tampering.antt =====
-- What `verify` of src/yunohost_mcp/audit/log.py detects, and what it does not.
use yunohost_mcp.Prelude.{
  ℕ, zero, suc, String, ◌≡◌, refl, sym, ap, subst, ◌∙◌, true, false, Option, some, none, List, [],
  ◌∷◌, ◌==◌, eq_iff, arith, ◌↔◌, length, map, Bool-cases, inl, inr,
}
use yunohost_mcp.Prelude.Json.{Json, Fields, str, obj, end, field, get_field}
use yunohost_mcp.Prelude.Result.{ok, >>=-returns}
use yunohost_mcp.Platform.{Platform}
use yunohost_mcp.Audit.Log.{
  File, take, without_self, hash_of, verify_from, verify, read_all, genesis_hash,
}
use yunohost_mcp.Audit.Chain.{IsChain, empty, linked, verify_from-IsChain, chain-verify_from}

-- What the hash of an entry is over.
abbrev pub body : Json → Fields
body (obj fs) = without_self fs
body _ = end

abbrev pub get_elem? {ℓ} : {A : Type ℓ} → List A → ℕ → Option A
get_elem? [] n = none
get_elem? (x ∷ xs) zero = some x
get_elem? (x ∷ xs) (suc n) = get_elem? xs n

abbrev pub bodies : List Json → List Fields
bodies [] = []
bodies (e ∷ es) = body e ∷ bodies es

other_key :
    (j k : String) → (k == "entry_hash") ≡ false → (j == "entry_hash") ≡ true → (j == k) ≡ false
other_key j k h e = ground (arith, h, e, eq_iff j "entry_hash", eq_iff j k)

get_field-without_self :
    (fs : Fields) (k : String)
    → (k == "entry_hash") ≡ false
    → get_field (without_self fs) k ≡ get_field fs k
unfolding without_self get_field
get_field-without_self end k h = refl
get_field-without_self (field j v fs) k h =
    ground (arith, get_field-without_self fs k h, other_key j k h)

-- What an entry has under a key.
abbrev pub value_of : String → Json → Option Json
value_of k (obj fs) = get_field fs k
value_of k _ = none

-- The entry_hash of the last entry.
abbrev pub last_hash : List Json → Option Json
last_hash [] = none
last_hash (e ∷ []) = value_of "entry_hash" e
last_hash (e ∷ e' ∷ es) = last_hash (e' ∷ es)

module _ (p : Platform) where
  -- `verify` finds no problem exactly when the file is read and its entries are a chain from the
  -- genesis hash on.
  pub verify_iff :
      (file : File)
      → (verify p file ≡ ok []) ↔ (
          (entries : List Json) × (last : String) × (read_all p file ≡ ok entries)
          × IsChain p genesis_hash entries last)
  unfolding verify
  verify_iff file = (
    λ h.
        let (entries, read, found) =
          >>=-returns (read_all p file) (λ es. verify_from p genesis_hash 1 es) h in
        let (last, chain) = verify_from-IsChain p genesis_hash 1 entries found in
        (entries, last, read, chain),
    λ (entries, last, read, chain). ground (arith, read, chain-verify_from p 1 chain),
  )

  take-IsChain :
      {prev last : String} {es : List Json} (n : ℕ)
      → IsChain p prev es last
      → (last' : String) × IsChain p prev (take n es) last'
  unfolding take
  take-IsChain {prev} zero chain = (prev, empty)
  take-IsChain {prev} (suc n) empty = (prev, empty)
  take-IsChain (suc n) (linked fs h before own right rest) =
      let (last', chain) = take-IsChain n rest in (last', linked fs h before own right chain)

  -- A log that has lost its newest entries is still without problems.
  pub verify_from-take :
      (es : List Json) (n : ℕ)
      → verify_from p genesis_hash 1 es ≡ ok []
      → verify_from p genesis_hash 1 (take n es) ≡ ok []
  verify_from-take es n h =
      let (last, chain) = verify_from-IsChain p genesis_hash 1 es h in
      let (last', shorter) = take-IsChain n chain in chain-verify_from p 1 shorter

  chain-last_hash :
      {prev last : String} (e : Json) (es : List Json)
      → IsChain p prev (e ∷ es) last
      → last_hash (e ∷ es) ≡ some (str last)
  chain-last_hash e [] (linked fs h before own right empty) = own
  chain-last_hash e (e' ∷ es) (linked fs h before own right rest) = chain-last_hash e' es rest

  -- No two entries at the same place of two logs have the same hash unless what it is over is the same.
  abbrev pub NoCollision : List Json → List Json → Type 0
  NoCollision es fs =
      (n : ℕ) (a b : Fields)
      → get_elem? (bodies es) n ≡ some a
      → get_elem? (bodies fs) n ≡ some b
      → hash_of p a ≡ hash_of p b
      → a ≡ b

  same_value :
      (fs gs : Fields) (h : String)
      → get_field fs "entry_hash" ≡ some (str h)
      → get_field gs "entry_hash" ≡ some (str h)
      → without_self fs ≡ without_self gs
      → (k : String) → get_field fs k ≡ get_field gs k
  same_value fs gs h own own' equal k = elim (Bool-cases (k == "entry_hash")) [
    | inl this ↦
        let named = (eq_iff k "entry_hash").0 this in
        subst (λ x. get_field fs x ≡ get_field gs x) (sym named) (own ∙ sym own')
    | inr other ↦
        sym (get_field-without_self fs k other)
        ∙ ap (λ x. get_field x k) equal
        ∙ get_field-without_self gs k other
  ]

  chain_unique :
      {prev prev' last : String} {es fs : List Json}
      → IsChain p prev es last
      → IsChain p prev' fs last
      → length es ≡ length fs
      → NoCollision es fs
      → ((k : String) → map (value_of k) es ≡ map (value_of k) fs) × (prev ≡ prev')
  chain_unique empty empty n distinct = (λ k. refl, refl)
  chain_unique empty (linked fs h before own right rest) n distinct = absurd (ground arith)
  chain_unique (linked fs h before own right rest) empty n distinct = absurd (ground arith)
  chain_unique {prev} {prev'} (linked fs h before own right rest)
        (linked gs h' before' own' right' rest') n distinct =
      let (others, same) = chain_unique rest rest' (ground arith) (λ m. distinct (suc m)) in
      let equal =
        distinct zero (without_self fs) (without_self gs) refl refl (sym right ∙ same ∙ right') in
      let own_same : get_field gs "entry_hash" ≡ some (str h) =
        own' ∙ ap (λ x. some (str x)) (sym same) in
      let values = same_value fs gs h own own_same equal in
      let before_same : some (str prev) ≡ some (str prev') =
        sym before ∙ values "prev_hash" ∙ before' in
      (λ k. cc (values k, others k), cc before_same)

  chains_unique :
      (es fs : List Json) {last last' : String}
      → IsChain p genesis_hash es last
      → IsChain p genesis_hash fs last'
      → length es ≡ length fs
      → last_hash es ≡ last_hash fs
      → NoCollision es fs
      → (k : String) → map (value_of k) es ≡ map (value_of k) fs
  chains_unique [] [] chain chain' n same distinct k = refl
  chains_unique [] (f ∷ fs) chain chain' n same distinct k = absurd (ground arith)
  chains_unique (e ∷ es) [] chain chain' n same distinct k = absurd (ground arith)
  chains_unique (e ∷ es) (f ∷ fs) {last} {last'} chain chain' n same distinct k =
      let equal : some (str last) ≡ some (str last') =
        sym (chain-last_hash e es chain) ∙ same ∙ chain-last_hash f fs chain' in
      let ends : last' ≡ last = cc equal in
      (chain_unique chain (subst (IsChain p genesis_hash (f ∷ fs)) ends chain') n distinct).0 k

  -- Two files that `verify` finds no problem in, whose logs have as many entries and the same
  -- entry_hash in the last one, have the same value under every key of every entry, where the hash has
  -- no collision between two entries at the same place.
  pub verify_unique :
      (file file' : File) (es fs : List Json)
      → read_all p file ≡ ok es
      → read_all p file' ≡ ok fs
      → verify p file ≡ ok []
      → verify p file' ≡ ok []
      → length es ≡ length fs
      → last_hash es ≡ last_hash fs
      → NoCollision es fs
      → (k : String) → map (value_of k) es ≡ map (value_of k) fs
  unfolding verify
  verify_unique file file' es fs read read' h h' n same distinct =
      let (last, chain) = verify_from-IsChain p genesis_hash 1 es (ground (arith, read, h)) in
      let (last', chain') = verify_from-IsChain p genesis_hash 1 fs (ground (arith, read', h')) in
      chains_unique es fs chain chain' n same distinct

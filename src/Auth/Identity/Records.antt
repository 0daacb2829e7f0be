-- ===== src/Auth/Identity/Records.antt =====
-- What a record of identity.toml may do, and what a file that does not load means.
use yunohost_mcp.Prelude.{
  String, ◌≡◌, ◌≢◌, refl, none, some, List, [], ◌∷◌, ◌==◌, arith, eq_iff, any, Bool-cases, inl, inr,
  subst,
}
use yunohost_mcp.Prelude.Dict
use yunohost_mcp.Prelude.Dict.{Dict, get-put, get-nil}
use yunohost_mcp.Prelude.Result.{Result, ok, err, >>=-returns}
use yunohost_mcp.Platform.{Platform}
use yunohost_mcp.Policy.Scopes.{Scope, has, owner_approve}
use yunohost_mcp.Policy.Roles.{UnknownRole, scopes_for_roles}
use yunohost_mcp.Policy.Roles.Hierarchy.{owner_approve_iff_administrator}
use yunohost_mcp.Auth.Identity.{
  IdentityRecord, IdentityConfigError, config, date, bad_date, LoadError, Entry, IdentityFile,
  missing, invalid, tables, live, resolve_key_to_hex, resolved_scopes, expiry, armada_path,
  record_of, records_from, load_records, caught, current_records, lookup,
}

-- The record stands under its own key, and has the scopes of its roles.
pub record IsResolved (key : String) (r : IdentityRecord) : Type 0 where
  pub own_key : r.pubkey ≡ key
  pub own_scopes : scopes_for_roles r.roles ≡ ok r.scopes

module _ (p : Platform) where
  resolved_scopes_sound :
      (roles : List String) (scopes : List Scope)
      → resolved_scopes p roles ≡ ok scopes
      → scopes_for_roles roles ≡ ok scopes
  unfolding resolved_scopes
  resolved_scopes_sound roles scopes h = by_result (scopes_for_roles roles) refl
    where
      by_result :
          (s : Result UnknownRole (List Scope))
          → scopes_for_roles roles ≡ s
          → scopes_for_roles roles ≡ ok scopes
      by_result (ok s) e = ground (arith, e, h)
      by_result (err u) e = absurd (ground (arith, e, h))

  record_of_sound :
      (raw_key : String) (entry : Entry) (r : IdentityRecord)
      → record_of p raw_key entry ≡ ok r
      → IsResolved r.pubkey r
  unfolding record_of
  record_of_sound raw_key entry r h =
      let (pubkey, k, h1) = >>=-returns (resolve_key_to_hex p raw_key) _ h in
      let (scopes, s, h2) = >>=-returns (resolved_scopes p entry.roles) _ h1 in
      let (expires, e, h3) = >>=-returns (expiry p entry.expires) _ h2 in
      let (path, a, h4) = >>=-returns (armada_path p entry.armada_key_path) _ h3 in
      let known = resolved_scopes_sound entry.roles scopes s in
      record { own_key = refl; own_scopes = ground (arith, h4, known) }

  AreResolved : Dict IdentityRecord → Type 0
  AreResolved d = (key : String) (r : IdentityRecord) → Dict.get d key ≡ some r → IsResolved key r

  records_from_sound :
      (d rs : Dict IdentityRecord) (entries : List (String × Entry))
      → AreResolved d
      → records_from p d entries ≡ ok rs
      → AreResolved rs
  unfolding records_from AreResolved
  records_from_sound d rs [] good h = λ key r found. good key r (ground (arith, found, h))
  records_from_sound d rs ((raw, entry) ∷ rest) good h =
      let (r, made, later) = >>=-returns (record_of p raw entry) _ h in
      records_from_sound (Dict.put d r.pubkey r) rs rest
        (λ key q found. elim (Bool-cases (r.pubkey == key)) [
          | inl same ↦
              let put_r : r ≡ q = ground (arith, found, get-put d r.pubkey r key, same) in
              subst (λ x. IsResolved x q) ((eq_iff _ _).0 same)
                (subst (λ x. IsResolved r.pubkey x) put_r (record_of_sound raw entry r made))
          | inr other ↦ good key q (ground (arith, found, other, get-put d r.pubkey r key))
        ])
        later

  load_records_sound :
      (file : IdentityFile) (rs : Dict IdentityRecord)
      → load_records p file ≡ ok rs
      → AreResolved rs
  unfolding load_records AreResolved
  load_records_sound missing rs h =
      λ key r found. absurd (ground (arith, found, h, get-nil {V = IdentityRecord} key))
  load_records_sound invalid rs h = absurd (ground (arith, h))
  load_records_sound (tables entries) rs h =
      records_from_sound [] rs entries
        (λ key r found. absurd (ground (arith, found, get-nil {V = IdentityRecord} key))) h

  caught_sound :
      (loaded : Result LoadError (Dict IdentityRecord)) (rs : Dict IdentityRecord)
      → ((ds : Dict IdentityRecord) → loaded ≡ ok ds → AreResolved ds)
      → caught p loaded ≡ ok rs
      → AreResolved rs
  unfolding caught AreResolved
  caught_sound (ok ds) rs good h = λ key r found. good ds refl key r (ground (arith, found, h))
  caught_sound (err (config e)) rs good h =
      λ key r found. absurd (ground (arith, found, h, get-nil {V = IdentityRecord} key))
  caught_sound (err (date e)) rs good h = absurd (ground (arith, h))

  -- A record that a store over identity.toml gives for a public key is that key's own, and its scopes
  -- are those of its roles.
  pub lookup_sound :
      (file : IdentityFile) (pubkey : String) (r : IdentityRecord)
      → lookup p (live file) pubkey ≡ ok (some r)
      → IsResolved pubkey r
  unfolding lookup current_records AreResolved
  lookup_sound file pubkey r h =
      let (rs, loaded, found) = >>=-returns (caught p (load_records p file)) _ h in
      caught_sound (load_records p file) rs (load_records_sound file) loaded pubkey r
        (ground (arith, found))

  -- Only a record with the role "administrator" can approve as owner.
  pub owner_approve-administrator :
      (file : IdentityFile) (pubkey : String) (r : IdentityRecord)
      → lookup p (live file) pubkey ≡ ok (some r)
      → has r.scopes owner_approve ≡ any (λ x. "administrator" == x) r.roles
  owner_approve-administrator file pubkey r h =
      owner_approve_iff_administrator r.roles r.scopes (lookup_sound file pubkey r h).own_scopes

  -- A file with an identity that cannot be resolved, an unknown role or a bad path gives no record to
  -- anyone, and raises nothing.
  pub lookup_denies :
      (file : IdentityFile) (e : IdentityConfigError) (pubkey : String)
      → load_records p file ≡ err (config e)
      → lookup p (live file) pubkey ≡ ok none
  unfolding lookup current_records caught
  lookup_denies file e pubkey h = ground (arith, h, get-nil {V = IdentityRecord} pubkey)

  record_of_bad_date :
      (raw_key : String) (entry : Entry) (hex raw : String) (scopes : List Scope)
      → resolve_key_to_hex p raw_key ≡ ok hex
      → scopes_for_roles entry.roles ≡ ok scopes
      → entry.expires ≡ some raw
      → raw ≢ ""
      → p.fromisoformat raw ≡ none
      → record_of p raw_key entry ≡ err (date bad_date)
  unfolding record_of expiry resolved_scopes
  record_of_bad_date raw_key entry hex raw scopes key known asked some_text bad =
      ground (arith, key, known, asked, bad, some_text, eq_iff raw "")

  -- When the file's first table has a key that resolves and known roles, and its expires text is not
  -- empty and does not parse, every lookup of any key raises.
  pub lookup_bad_date :
      (raw_key : String) (entry : Entry) (rest : List (String × Entry)) (hex raw pubkey : String)
      (scopes : List Scope)
      → resolve_key_to_hex p raw_key ≡ ok hex
      → scopes_for_roles entry.roles ≡ ok scopes
      → entry.expires ≡ some raw
      → raw ≢ ""
      → p.fromisoformat raw ≡ none
      → lookup p (live (tables ((raw_key, entry) ∷ rest))) pubkey ≡ err bad_date
  unfolding lookup current_records caught load_records records_from
  lookup_bad_date raw_key entry rest hex raw pubkey scopes key known asked some_text bad =
      ground (arith, record_of_bad_date raw_key entry hex raw scopes key known asked some_text bad)

-- ===== src/Broker/Helper/Confirmed.antt =====
-- What a passed policy check has taken from the confirmation table.
use yunohost_mcp.Prelude.{
  String, ◌≡◌, refl, true, Option, none, some, List, arith, Option-cases, inl, inr,
}
use yunohost_mcp.Prelude.Dict
use yunohost_mcp.Prelude.Json.{Json, str, get_field}
use yunohost_mcp.Prelude.Result.{Result, ok, err}
use yunohost_mcp.Platform.{Platform}
use yunohost_mcp.Policy.Rules.{PolicyRule, check_free_space}
use yunohost_mcp.Policy.Confirmation.Ticket.{ConfirmationTicket}
use yunohost_mcp.Policy.Confirmation.Sqlite
use yunohost_mcp.Policy.Confirmation.Sqlite.{SqliteConfirmationStore, StoreError}
use yunohost_mcp.Broker.Protocol.{BrokerRequest}
use yunohost_mcp.Broker.Operations.{confirmation_argument_keys, policy_name_for_operation}
use yunohost_mcp.Broker.Helper.{
  Clock, Settings, Broker, Adapter, bound_arguments, usable, hard, confirm, consume_bound, consumed,
  check_rule, check_operation_policy,
}

module _ (p : Platform) (cfg : Settings) (clock : Clock) where
  -- The confirmation with this id was taken from the table for this call.
  pub record Takes (request : BrokerRequest) (pubkey key : String) (rule : PolicyRule) (b : Broker)
      (id : String) : Type 0 where
    pub named : get_field request.arguments "confirmation_id" ≡ some (str id)
    pub store : SqliteConfirmationStore
    pub table : b.confirmation_store ≡ some store
    pub keys : List String
    pub listed : Dict.get confirmation_argument_keys request.operation ≡ some keys
    pub ticket : ConfirmationTicket
    pub after : SqliteConfirmationStore
    pub taken :
        Sqlite.consume p clock.now clock.second id
          (record {
            pubkey = pubkey;
            tool = key;
            arguments = bound_arguments keys request.arguments;
          })
          rule.require_owner_signature
          true
          store
        ≡ (ok ticket, after)

  usable-store :
      (o : Option SqliteConfirmationStore) (s : SqliteConfirmationStore)
      → usable o ≡ some s
      → o ≡ some s
  usable-store none s h = cc
  usable-store (some t) s h = ground arith

  consumed_sound :
      (id : String) (answer : Result StoreError ConfirmationTicket × SqliteConfirmationStore)
      (b b' : Broker) (held : Option String)
      → consumed p cfg clock id answer b ≡ (ok held, b')
      → (t : ConfirmationTicket) × (s : SqliteConfirmationStore) × (answer ≡ (ok t, s))
        × (held ≡ some id)
  unfolding consumed
  consumed_sound id (err e, s) b b' held h = absurd (ground arith)
  consumed_sound id (ok t, s) b b' held h = (t, s, refl, ground arith)

  confirm_sound :
      (request : BrokerRequest) (pubkey key : String) (rule : PolicyRule) (given : Option Json)
      (b b' : Broker) (held : Option String)
      → get_field request.arguments "confirmation_id" ≡ given
      → confirm p cfg clock request pubkey key rule given b ≡ (ok held, b')
      → (id : String) × (held ≡ some id) × Takes request pubkey key rule b id
  unfolding confirm consume_bound
  confirm_sound request pubkey key rule (some (str id)) b b' held e h =
      elim (Option-cases (usable b.confirmation_store)) [
        | inl missing ↦ absurd (ground (arith, missing, h))
        | inr (s, found) ↦
            elim (Option-cases (Dict.get confirmation_argument_keys request.operation)) [
              | inl missing ↦ absurd (ground (arith, missing, found, h))
              | inr (keys, listed) ↦
                  let (t, s', taken, same) =
                    consumed_sound id
                      (Sqlite.consume p clock.now clock.second id
                        (record {
                          pubkey = pubkey;
                          tool = key;
                          arguments = bound_arguments keys request.arguments;
                        })
                        rule.require_owner_signature true s)
                      b b' held (ground (arith, found, listed, h)) in
                  (
                    id,
                    same,
                    record {
                      named = e;
                      store = s;
                      table = usable-store b.confirmation_store s found;
                      keys = keys;
                      listed = listed;
                      ticket = t;
                      after = s';
                      taken = taken;
                    },
                  )
            ]
      ]
  confirm_sound request pubkey key rule none b b' held e h = absurd (ground arith)
  confirm_sound request pubkey key rule (some _) b b' held e h = absurd (ground arith)

  module _ {W : Type 0} (adapter : Adapter W) (w : W) where
    -- A call whose policy key has a rule passes the policy check only if the floor of free space is
    -- met and, where the rule asks for a confirmation, one was taken for exactly this call.
    pub check_operation_policy_sound :
        (request : BrokerRequest) (pubkey key : String) (rule : PolicyRule) (b b' : Broker)
        (held : Option String)
        → policy_name_for_operation request.operation request.arguments ≡ some key
        → Dict.get cfg.policy_rules key ≡ some rule
        → check_operation_policy p cfg clock adapter w request pubkey b ≡ (ok held, b')
        → (check_free_space rule (adapter.free_space w) ≡ ok tt)
          × (rule.require_confirmation ≡ true
              → (id : String) × (held ≡ some id) × Takes request pubkey key rule b id)
    unfolding check_operation_policy check_rule hard
    check_operation_policy_sound request pubkey key rule b b' held named ruled h = (
      ground (arith, named, ruled, h),
      λ asked.
          confirm_sound request pubkey key rule (get_field request.arguments "confirmation_id") b b'
            held refl (ground (arith, named, ruled, h, asked)),
    )

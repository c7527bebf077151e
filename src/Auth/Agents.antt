-- ===== src/Auth/Agents.antt =====
-- `AgentRegistry` and `AuthService` of crates/auth/src. What the signature library recovers is a
-- parameter: the signer of a transaction, and of a nomination in a domain.
use pranklin.Base.{
  ℕ, Bool, false, ◌||◌, Option, none, some, ◌==◌, if◌then◌else◌, update, number_key,
}
use Prim.Native.String.{String}
use pranklin.Types.Transaction.{Transaction}
use pranklin.Exec.Defs.{AgentRegistry, register_agent}
use pranklin.Auth.Permissions.{grants}

pub data AuthError : Type 0 where
  invalid_signature : AuthError
  unauthorized_by : (signer account : ℕ) → AuthError

unfoldable pub get_permissions : AgentRegistry → ℕ → ℕ → Option ℕ
get_permissions r account agent = r account agent

unfoldable pub is_authorized : AgentRegistry → ℕ → ℕ → ℕ → Bool
is_authorized r account agent permission = elim (r account agent) [
  | none ↦ false
  | some perms ↦ grants perms permission
]

unfoldable pub clear_agents : ℕ → AgentRegistry → AgentRegistry
clear_agents account r = update r account (λ _. none)

pub record AgentNominationDomain : Type 0 where
  pub name : String
  pub version : String
  pub chain_id : ℕ
  pub verifying_contract : ℕ

pub record AgentNomination : Type 0 where
  pub account : ℕ
  pub agent : ℕ
  pub permissions : ℕ
  pub nonce : ℕ

pub data Verified : Type 0 where
  granted : ℕ → Verified
  denied : AuthError → Verified

module _ (recover_signer : Transaction → Option ℕ) where
  unfoldable pub verify_with_agent : AgentRegistry → Transaction → ℕ → Verified
  verify_with_agent r tx permission = elim (recover_signer tx) [
    | none ↦ denied invalid_signature
    | some signer ↦
        if signer == tx.from || is_authorized r tx.from signer permission
        then granted tx.from
        else denied (unauthorized_by signer tx.from)
  ]

module _ (recover_nominator : AgentNomination → ℕ → AgentNominationDomain → Option ℕ) where
  unfoldable pub nominate_agent :
      AgentNomination → ℕ → AgentNominationDomain → AgentRegistry → Option AuthError × AgentRegistry
  nominate_agent nomination signature domain r =
      elim (recover_nominator nomination signature domain) [
        | none ↦ (some invalid_signature, r)
        | some recovered ↦
            if recovered == nomination.account
            then (none, register_agent nomination.account nomination.agent nomination.permissions r)
            else (some (unauthorized_by recovered nomination.account), r)
      ]

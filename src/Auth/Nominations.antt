-- ===== src/Auth/Nominations.antt =====
-- What an agent may do after nominations: crates/auth/src.
use pranklin.Base.{
  ℕ, ◌<◌, ◌≡◌, ◌∙◌, ◌||◌, ◌&&◌, refl, ap, Bool, false, Option, none, some, List, [], ◌∷◌, All,
  arith, ◌==◌, if◌then◌else◌, inl, inr, Bool-cases, number_key,
}
use pranklin.Types.Transaction.{Transaction}
use pranklin.Exec.Defs.{AgentRegistry, register_agent}
use pranklin.Auth.Permissions.{grants, covers, grants-covers}
use pranklin.Auth.Agents.{
  AgentNomination, AgentNominationDomain, granted, denied, unauthorized_by, is_authorized,
  verify_with_agent, nominate_agent,
}

-- A nomination that is sent, with its signature.
pub record Request : Type 0 where
  pub nomination : AgentNomination
  pub signature : ℕ
  pub domain : AgentNominationDomain

abbrev pub covered : Option ℕ → ℕ → Bool
covered none permission = false
covered (some perms) permission = covers perms permission

-- Only known permissions.
abbrev pub IsKnown : Option ℕ → Type 0
IsKnown none = Unit
IsKnown (some perms) = perms < 32

module _ (recover_nominator : AgentNomination → ℕ → AgentNominationDomain → Option ℕ) where
  unfoldable pub nominate_all : List Request → AgentRegistry → AgentRegistry
  unfolding nominate_agent
  nominate_all [] r = r
  nominate_all (q ∷ requests) r =
      nominate_all requests (nominate_agent recover_nominator q.nomination q.signature q.domain r).1

  -- Whether a request nominates an agent for an account, which has signed it.
  abbrev pub nominates : ℕ → ℕ → Request → Bool
  nominates account agent q =
      q.nomination.account == account
      && (q.nomination.agent == agent
          && elim (recover_nominator q.nomination q.signature q.domain) [
            | none ↦ false
            | some signer ↦ signer == account
          ])

  -- The permissions of the last of these requests that nominates the agent for the account.
  abbrev pub last_nominated : ℕ → ℕ → List Request → Option ℕ → Option ℕ
  last_nominated account agent [] before = before
  last_nominated account agent (q ∷ requests) before =
      last_nominated account agent requests
        (if nominates account agent q then some q.nomination.permissions else before)

  nominate_agent-registered :
      (q : Request) (r : AgentRegistry) (account agent : ℕ)
      → (nominate_agent recover_nominator q.nomination q.signature q.domain r).1 account agent
        ≡ (if nominates account agent q then some q.nomination.permissions else r account agent)
  unfolding nominate_agent register_agent
  nominate_agent-registered q r account agent = ground arith

  nominate_all-registered :
      (requests : List Request) (r : AgentRegistry) (account agent : ℕ)
      → nominate_all requests r account agent
        ≡ last_nominated account agent requests (r account agent)
  unfolding nominate_all
  nominate_all-registered [] r account agent = refl
  nominate_all-registered (q ∷ requests) r account agent =
      nominate_all-registered requests
        (nominate_agent recover_nominator q.nomination q.signature q.domain r).1 account agent
      ∙ ap (last_nominated account agent requests) (nominate_agent-registered q r account agent)

  last_nominated-IsKnown :
      (requests : List Request) (account agent : ℕ) (before : Option ℕ)
      → All (λ q. q.nomination.permissions < 32) requests
      → IsKnown before
      → IsKnown (last_nominated account agent requests before)
  last_nominated-IsKnown [] account agent before known first = first
  last_nominated-IsKnown (q ∷ requests) account agent before known first =
      last_nominated-IsKnown requests account agent
        (if nominates account agent q then some q.nomination.permissions else before) known.1
        (elim (Bool-cases (nominates account agent q)) [
          | inl now ↦ rw now known.0
          | inr other ↦ rw other first
        ])

  granted-covered :
      (perms : Option ℕ) (permission : ℕ)
      → IsKnown perms
      → permission < 32
      → elim perms [ none ↦ false | some p ↦ grants p permission ] ≡ covered perms permission
  granted-covered none permission known small = refl
  granted-covered (some p) permission known small = grants-covers p permission known small

  -- After any nominations, a transaction that its sender signed is accepted for its sender; one that
  -- another signed is accepted exactly if each of the five permissions that it needs is among those
  -- of the last nomination of the signer that the sender has signed, or among those from before if
  -- there is none; all others are refused as not authorized (bitmaps of the five known permissions).
  pub nominate_all-verify_with_agent :
      (recover_signer : Transaction → Option ℕ) (requests : List Request) (r : AgentRegistry)
      (tx : Transaction) (signer permission : ℕ)
      → recover_signer tx ≡ some signer
      → All (λ q. q.nomination.permissions < 32) requests
      → IsKnown (r tx.from signer)
      → permission < 32
      → verify_with_agent recover_signer (nominate_all requests r) tx permission ≡ (
          if signer == tx.from
            || covered (last_nominated tx.from signer requests (r tx.from signer)) permission
          then granted tx.from
          else denied (unauthorized_by signer tx.from))
  unfolding verify_with_agent is_authorized
  nominate_all-verify_with_agent recover_signer requests r tx signer permission signed known first
        small =
      let last = last_nominated tx.from signer requests (r tx.from signer) in
      let registered = nominate_all-registered requests r tx.from signer in
      let tested : is_authorized (nominate_all requests r) tx.from signer permission
          ≡ covered last permission =
        ap (λ perms. elim perms as (λ _. Bool) [ none ↦ false | some p ↦ grants p permission ])
          registered
        ∙ granted-covered last permission
            (last_nominated-IsKnown requests tx.from signer (r tx.from signer) known first) small in
      ground (arith, signed, tested)

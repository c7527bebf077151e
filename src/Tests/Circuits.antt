-- ===== src/Tests/Circuits.antt =====
-- A circuit that opens after two failures, and agents.
use pranklin.Base.{
  List, [], ◌∷◌, ℕ, ◌≡◌, ◌<◌, ◌≤◌, ◌-◌, ◌⊎◌, refl, some, none, false, leb, ◌==◌, ◌||◌,
  if◌then◌else◌, arith, Option,
}
use pranklin.Types.Transaction.{Transaction}
use pranklin.Rpc.Circuit.{
  CircuitBreaker, closed, opened, circuit_breaker, allow_request, record_failure, Reachable, begin,
  next, fails,
}
use pranklin.Rpc.Recovery.{IsSound, Reachable-IsSound, allow_request-recovers, succeed}
use pranklin.Auth.Agents.{
  AgentNomination, AgentNominationDomain, granted, denied, unauthorized_by, verify_with_agent,
}
use pranklin.Auth.Nominations.{
  Request, covered, nominate_all, last_nominated, nominate_all-verify_with_agent,
}
use pranklin.Types.Signature.{TxSignature}
use pranklin.Tests.Nodes.{signer, payment}

abbrev breaker : CircuitBreaker
breaker = circuit_breaker 2 1 30

abbrev tripped : CircuitBreaker
tripped = record_failure 8 (record_failure 5 breaker)

trips : Reachable breaker tripped
trips = next (next begin (fails 5 breaker)) (fails 8 (record_failure 5 breaker))

Reachable-IsSound_example : IsSound 2 1 30 tripped
Reachable-IsSound_example =
    Reachable-IsSound 2 1 30 tripped (omega arith) (omega arith) (omega arith) (omega arith) trips

is_tripped : (tripped.state ≡ opened) × (tripped.last_failure_time ≡ some 8)
unfolding circuit_breaker record_failure
is_tripped = (refl, refl)

allow_request-recovers_example :
    ((allow_request 50 tripped).0 ≡ leb 30 (50 - 8))
    × (((50 - 8 < 30) × (allow_request 50 tripped ≡ (false, tripped)))
        ⊎ ((30 ≤ 50 - 8) × ((succeed 1 (allow_request 50 tripped).1).state ≡ closed)))
allow_request-recovers_example =
    allow_request-recovers 2 1 30 tripped (omega arith) (omega arith) (omega arith) (omega arith)
      trips 8 50 is_tripped.0 is_tripped.1

abbrev domain : AgentNominationDomain
domain = record { name = "PranklinPerp"; version = "1"; chain_id = 1; verifying_contract = 0 }

abbrev nomination : AgentNomination
nomination = record { account = 2; agent = 5; permissions = 3; nonce = 1 }

abbrev by_agent : Transaction
by_agent = record payment { signature = TxSignature.raw_borsh (5 ∷ []) }

-- A nomination is signed by the number that stands for its signature.
abbrev nominator : AgentNomination → ℕ → AgentNominationDomain → Option ℕ
nominator n signature d = some signature

-- The account nominates twice, and another signs a third nomination.
abbrev requests : List Request
requests =
    record { nomination = nomination; signature = 2; domain = domain }
    ∷ record { nomination = record nomination { permissions = 5 }; signature = 2; domain = domain }
    ∷ record { nomination = record nomination { permissions = 31 }; signature = 9; domain = domain }
    ∷ []

nominate_all-verify_with_agent_example :
    verify_with_agent signer (nominate_all nominator requests (λ _ _. none)) by_agent 4 ≡ (
      if 5 == by_agent.from || covered (last_nominated nominator by_agent.from 5 requests none) 4
      then granted by_agent.from
      else denied (unauthorized_by 5 by_agent.from))
nominate_all-verify_with_agent_example =
    nominate_all-verify_with_agent nominator signer requests (λ _ _. none) by_agent 5 4 refl
      (omega arith, (omega arith, (omega arith, tt))) tt (omega arith)

second_counts : last_nominated nominator 2 5 requests none ≡ some 5
second_counts = refl

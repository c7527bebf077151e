-- ===== src/Rpc/Recovery.antt =====
-- When a circuit opens, refuses and closes again: crates/rpc/src/middleware.rs.
use pranklin.Base.{
  ℕ, suc, zero, ◌+◌, ◌-◌, ◌<◌, ◌≤◌, ◌≡◌, Bool, true, false, Option, none, some, leb, arith, refl,
  Bool-cases, inl, inr, ◌⊎◌,
}
use pranklin.Base.Words.{u32_mod}
use pranklin.Rpc.Circuit.{
  CircuitState, closed, opened, half_open, CircuitBreaker, circuit_breaker, allow_request,
  record_success, record_failure, Step, asks, succeeds, fails, Reachable, begin, next,
}

abbrev pub is_some : Option ℕ → Bool
is_some none = false
is_some (some n) = true

-- What the state of a circuit says about its counts and its clock.
abbrev pub Agrees : CircuitState → CircuitBreaker → Type 0
Agrees closed b = b.failure_count < b.failure_threshold
Agrees opened b = is_some b.last_failure_time ≡ true
Agrees half_open b = b.success_count < b.success_threshold

-- The thresholds are those of the start, positive and within u32.
pub record IsSound (f s t : ℕ) (b : CircuitBreaker) : Type 0 where
  pub agrees : Agrees b.state b
  pub failures : b.failure_threshold ≡ f
  pub successes : b.success_threshold ≡ s
  pub waits : b.timeout ≡ t

allow_request-IsSound :
    (f s t now : ℕ) (b : CircuitBreaker)
    → 0 < s
    → IsSound f s t b
    → IsSound f s t (allow_request now b).1
unfolding allow_request
allow_request-IsSound f s t now b pos h = record {
  agrees = ground (arith, h.agrees);
  failures = ground (arith, h.failures);
  successes = ground (arith, h.successes);
  waits = ground (arith, h.waits);
}

record_success-IsSound :
    (f s t : ℕ) (b : CircuitBreaker)
    → 0 < f
    → 0 < s
    → s < u32_mod
    → IsSound f s t b
    → IsSound f s t (record_success b)
unfolding record_success
record_success-IsSound f s t b pf ps word h = record {
  agrees = ground (arith, h.agrees, h.failures, h.successes);
  failures = ground (arith, h.failures);
  successes = ground (arith, h.successes);
  waits = ground (arith, h.waits);
}

record_failure-IsSound :
    (f s t now : ℕ) (b : CircuitBreaker)
    → 0 < f
    → f < u32_mod
    → IsSound f s t b
    → IsSound f s t (record_failure now b)
unfolding record_failure
record_failure-IsSound f s t now b pf word h = record {
  agrees = ground (arith, h.agrees, h.failures, h.successes);
  failures = ground (arith, h.failures);
  successes = ground (arith, h.successes);
  waits = ground (arith, h.waits);
}

Step-IsSound :
    {f s t : ℕ} {b c : CircuitBreaker}
    → 0 < f
    → 0 < s
    → f < u32_mod
    → s < u32_mod
    → Step b c
    → IsSound f s t b
    → IsSound f s t c
Step-IsSound pf ps wf ws (asks now b) h = allow_request-IsSound _ _ _ now b ps h
Step-IsSound pf ps wf ws (succeeds b) h = record_success-IsSound _ _ _ b pf ps ws h
Step-IsSound pf ps wf ws (fails now b) h = record_failure-IsSound _ _ _ now b pf wf h

new-IsSound : (f s t : ℕ) → 0 < f → IsSound f s t (circuit_breaker f s t)
unfolding circuit_breaker
new-IsSound f s t pf = record { agrees = pf; failures = refl; successes = refl; waits = refl }

-- Whatever requests ask, succeed and fail, in whatever order, a breaker with positive thresholds
-- within u32 counts fewer failures than its threshold while it is closed, fewer successes than its
-- threshold while it is half open, and knows the time of the last failure while it is open.
pub Reachable-IsSound :
    (f s t : ℕ) (b : CircuitBreaker)
    → 0 < f
    → 0 < s
    → f < u32_mod
    → s < u32_mod
    → Reachable (circuit_breaker f s t) b
    → IsSound f s t b
Reachable-IsSound f s t b pf ps wf ws begin = new-IsSound f s t pf
Reachable-IsSound f s t b pf ps wf ws (next r step) =
    Step-IsSound pf ps wf ws step (Reachable-IsSound f s t _ pf ps wf ws r)

abbrev pub succeed : ℕ → CircuitBreaker → CircuitBreaker
succeed zero b = b
succeed (suc n) b = succeed n (record_success b)

abbrev pub fail : ℕ → ℕ → CircuitBreaker → CircuitBreaker
fail zero now b = b
fail (suc n) now b = fail n now (record_failure now b)

succeed-closes :
    (n : ℕ) (b : CircuitBreaker)
    → b.state ≡ half_open
    → b.success_threshold ≡ b.success_count + suc n
    → b.success_threshold < u32_mod
    → (succeed (suc n) b).state ≡ closed
unfolding record_success
succeed-closes zero b half left word = ground arith
succeed-closes (suc n) b half left word =
    succeed-closes n (record_success b) (ground arith) (ground arith) (ground arith)

closes :
    (s : ℕ) (b : CircuitBreaker)
    → 0 < s
    → b.state ≡ half_open
    → b.success_count ≡ 0
    → b.success_threshold ≡ s
    → s < u32_mod
    → (succeed s b).state ≡ closed
closes zero b pos half none_yet all word = ground arith
closes (suc n) b pos half none_yet all word =
    succeed-closes n b half (omega (arith, none_yet, all)) (omega (arith, all))

abbrev pub is_open : CircuitState → Bool
is_open closed = false
is_open opened = true
is_open half_open = false

fail-opened :
    (n now : ℕ) (b : CircuitBreaker) → b.state ≡ opened → is_open (fail n now b).state ≡ true
unfolding record_failure
fail-opened zero now b h = ground arith
fail-opened (suc n) now b h = fail-opened n now (record_failure now b) (ground arith)

fail-opens :
    (n now : ℕ) (b : CircuitBreaker)
    → b.state ≡ closed
    → b.failure_count < b.failure_threshold
    → b.failure_threshold < u32_mod
    → is_open (fail n now b).state ≡ leb b.failure_threshold (b.failure_count + n)
unfolding record_failure
fail-opens zero now b shut count word = ground arith
fail-opens (suc n) now b shut count word =
    elim (Bool-cases (leb b.failure_threshold (b.failure_count + 1))) [
      | inl trips ↦ ground (arith, fail-opened n now (record_failure now b) (ground arith))
      | inr holds ↦ ground (
        arith,
        fail-opens n now (record_failure now b) (ground arith) (ground arith) (ground arith),
      )
    ]

module _ (f s t : ℕ) (b : CircuitBreaker) (pf : 0 < f) (ps : 0 < s) (wf : f < u32_mod)
    (ws : s < u32_mod) (r : Reachable (circuit_breaker f s t) b) where
  -- After a success in the closed state, a number of failures in a row opens a breaker with positive
  -- thresholds within u32 exactly if it is at least the threshold of failures.
  pub record_failure-opens :
      (n now : ℕ) → b.state ≡ closed → is_open (fail n now (record_success b)).state ≡ leb f n
  unfolding record_success
  record_failure-opens n now shut =
      let h = Reachable-IsSound f s t b pf ps wf ws r in
      let again =
        fail-opens n now (record_success b) (ground arith) (ground (arith, h.failures))
          (ground (arith, h.failures)) in
      ground (arith, again, h.failures)

  -- An open breaker with positive thresholds within u32 refuses every request until the timeout has
  -- passed since its last failure, and does not change; the first request after that is allowed, and
  -- with as many successes as the threshold the breaker is closed again.
  pub allow_request-recovers :
      (last now : ℕ)
      → b.state ≡ opened
      → b.last_failure_time ≡ some last
      → ((allow_request now b).0 ≡ leb t (now - last))
        × (((now - last < t) × (allow_request now b ≡ (false, b)))
            ⊎ ((t ≤ now - last) × ((succeed s (allow_request now b).1).state ≡ closed)))
  unfolding allow_request
  allow_request-recovers last now is_opened at =
      let h = Reachable-IsSound f s t b pf ps wf ws r in
      elim (Bool-cases (leb t (now - last))) [
        | inr early ↦ (ground (arith, h.waits), inl (ground arith, ground (arith, h.waits)))
        | inl late ↦ (
          ground (arith, h.waits),
          inr (
            ground arith,
            closes s (allow_request now b).1 ps (ground (arith, h.waits)) (ground (arith, h.waits))
                (ground (arith, h.successes)) ws,
          ),
        )
      ]

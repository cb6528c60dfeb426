-- ===== src/Executor/Call/Attempts.antt =====
-- What a call of the model gives by the answers of its attempts.
use cliff.Common.{
  ℕ, zero, suc, ◌+◌, ◌≤◌, ◌<◌, String, ◌≡◌, refl, ap, ◌≢◌, true, Option, none, some, leb, eqb,
  arith, inl, inr, Bool-cases, is_some, ◌⊎◌,
}
use mathlib.Core.Path.{subst}
use cliff.Executor.Call.{
  assertion, Tried, done, raised, Answer, returned, timed_out, http_error, usage_limit, unexpected,
  user_error, broken, turn, obey, attempts, run_pa_call,
}

-- an answer after which the loop goes on: a rate limit or an unparseable response
pub data IsRetried {ℓ} {A : Type ℓ} : Answer A → Type ℓ where
  limited : (message whole : String) → IsRetried (http_error 429 message whole)
  unparsed : (message : String) → IsRetried (unexpected message)

-- An attempt of the `left` ones from `n` on answers, and those before it let the loop go on.
pub data Answered {ℓ} {A : Type ℓ} (answers : ℕ → Answer A) (a : A) : ℕ → ℕ → Type ℓ where
  now : {n left : ℕ} → answers n ≡ returned a → Answered answers a n (suc left)
  later :
      {n left : ℕ}
      → IsRetried (answers n)
      → Answered answers a (suc n) left
      → Answered answers a n (suc left)

-- The last rate limit is known, or each attempt so far was a re-roll.
Known : ℕ → Option String → ℕ → Type 0
Known attempt last retries = (retries ≤ 1) × ((is_some last ≡ true) ⊎ (attempt ≤ retries + 1))

pub done_injective {ℓ} : {A : Type ℓ} {a b : A} → done a ≡ done b → a ≡ b
done_injective {a} e = ap (λ t. elim t [ done x ↦ x | raised f ↦ a ]) e

module _ {ℓ} {A : Type ℓ} (agent_type : String) (seconds : ℕ) where
  turn-Known :
      (attempt : ℕ) (last : Option String) (retries : ℕ) (rest : Option String → ℕ → Tried A)
      (x : Answer A)
      → Known attempt last retries
      → ((last' : Option String) (retries' : ℕ)
          → Known (suc attempt) last' retries'
          → rest last' retries' ≢ raised assertion)
      → obey agent_type seconds rest (turn agent_type seconds attempt last retries x)
        ≢ raised assertion
  unfolding turn Known
  turn-Known attempt last retries rest (returned a) k h = λ e. cc
  turn-Known attempt last retries rest timed_out k h = λ e. cc
  turn-Known attempt last retries rest (http_error code message whole) k h =
      elim (Bool-cases (eqb code 429)) [
        | inr n ↦ rw n (λ e. cc)
        | inl y ↦ elim (Bool-cases (leb 3 attempt)) [
          | inl over ↦ rw (y, over) (λ e. cc)
          | inr more ↦ rw (y, more) (h (some whole) retries (k.0, inl refl))
        ]
      ]
  turn-Known attempt last retries rest (usage_limit words) k h = λ e. cc
  turn-Known attempt last retries rest (unexpected message) k h =
      elim (Bool-cases (leb 1 retries)) [
        | inl y ↦ rw y (λ e. cc)
        | inr n ↦
            let low : retries < 1 = ground arith in
            rw n (
              h last (retries + 1)
                (omega arith, elim k.1 [ inl l ↦ inl l | inr m ↦ inr (omega arith) ]))
      ]
  turn-Known attempt last retries rest (user_error words) k h = λ e. cc
  turn-Known attempt last retries rest (broken words) k h = λ e. cc

  attempts-Known :
      (answers : ℕ → Answer A) (left attempt : ℕ) (last : Option String) (retries : ℕ)
      → 4 ≤ left + attempt
      → Known attempt last retries
      → attempts agent_type seconds answers left attempt last retries ≢ raised assertion
  unfolding attempts Known
  attempts-Known answers zero attempt none retries le (r, inr m) = absurd (omega arith)
  attempts-Known answers zero attempt none retries le (r, inl m) = absurd (cc)
  attempts-Known answers zero attempt (some w) retries le k = λ e. cc
  attempts-Known answers (suc left) attempt last retries le k =
      turn-Known attempt last retries (attempts agent_type seconds answers left (suc attempt))
        (answers attempt) k
        (λ last' retries' k'.
          attempts-Known answers left (suc attempt) last' retries' (omega arith) k')

  -- The assertion behind the loop never fails, whatever the model answers.
  pub run_pa_call-no_assertion :
      (answers : ℕ → Answer A) → run_pa_call agent_type seconds answers ≢ raised assertion
  unfolding run_pa_call Known
  run_pa_call-no_assertion answers =
      attempts-Known answers 3 1 none 0 (omega arith) (omega arith, inr (omega arith))

  turn-Answered :
      (attempt : ℕ) (last : Option String) (retries : ℕ) (rest : Option String → ℕ → Tried A)
      (x : Answer A) (a : A)
      → obey agent_type seconds rest (turn agent_type seconds attempt last retries x) ≡ done a
      → (x ≡ returned a)
        ⊎ (IsRetried x
            × ((last' : Option String) × (retries' : ℕ) × (rest last' retries' ≡ done a)))
  unfolding turn
  turn-Answered attempt last retries rest (returned b) a e = inl (ap returned (done_injective e))
  turn-Answered attempt last retries rest timed_out a e = absurd (cc)
  turn-Answered attempt last retries rest (http_error code message whole) a e =
      elim (Bool-cases (eqb code 429)) [
        | inr n ↦ let z = rw n at e in absurd (cc)
        | inl y ↦ elim (Bool-cases (leb 3 attempt)) [
          | inl over ↦ let z = rw (y, over) at e in absurd (cc)
          | inr more ↦
              let same : 429 ≡ code = ground arith in
              inr (
                subst (λ c. IsRetried {A = A} (http_error c message whole)) same
                    (limited message whole),
                (some whole, retries, rw (y, more) at e),
              )
        ]
      ]
  turn-Answered attempt last retries rest (usage_limit words) a e = absurd (cc)
  turn-Answered attempt last retries rest (unexpected message) a e =
      elim (Bool-cases (leb 1 retries)) [
        | inl y ↦ let z = rw y at e in absurd (cc)
        | inr n ↦ inr (unparsed message, (last, retries + 1, rw n at e))
      ]
  turn-Answered attempt last retries rest (user_error words) a e = absurd (cc)
  turn-Answered attempt last retries rest (broken words) a e = absurd (cc)

  attempts-Answered :
      (answers : ℕ → Answer A) (left attempt : ℕ) (last : Option String) (retries : ℕ) (a : A)
      → attempts agent_type seconds answers left attempt last retries ≡ done a
      → Answered answers a attempt left
  unfolding attempts
  attempts-Answered answers zero attempt none retries a e = absurd (cc)
  attempts-Answered answers zero attempt (some w) retries a e = absurd (cc)
  attempts-Answered answers (suc left) attempt last retries a e =
      let rest = attempts agent_type seconds answers left (suc attempt) in
      elim (turn-Answered attempt last retries rest (answers attempt) a e) [
        | inl here ↦ now here
        | inr (on, (last', retries', e')) ↦
            later on (attempts-Answered answers left (suc attempt) last' retries' a e')
      ]

  -- A call that gives an answer has it from one of its three attempts, and each attempt before that
  -- met a rate limit or an unparseable response.
  pub run_pa_call-Answered :
      (answers : ℕ → Answer A) (a : A)
      → run_pa_call agent_type seconds answers ≡ done a
      → Answered answers a 1 3
  unfolding run_pa_call
  run_pa_call-Answered answers a e = attempts-Answered answers 3 1 none 0 a e

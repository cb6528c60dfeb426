-- ===== src/Executor/Call.antt =====
-- AgentExecutor._run_pa_call of agents/executor.py: up to three attempts at a model. What each
-- attempt gives is the argument; waiting between attempts is not modelled.
pub mod Attempts
pub mod Limits
use cliff.Common.{
  ℕ, zero, suc, ◌+◌, String, Bool, true, false, not, Option, none, some, [], ◌∷◌, leb, eqb,
  if◌then◌else◌,
}
use cliff.Common.Text.{show, format}

-- The exceptions of the executor. `assertion` is the `assert` behind the loop, and `other` is any
-- exception without a handler of its own.
pub data Failure : Type 0 where
  timeout rate_limit process other : String → Failure
  assertion : Failure

pub data Tried {ℓ} (A : Type ℓ) : Type ℓ where
  done : A → Tried A
  raised : Failure → Tried A

infixl 1 ◌>>=◌
abbrev pub ◌>>=◌ {ℓ κ} : {A : Type ℓ} {B : Type κ} → Tried A → (A → Tried B) → Tried B
done a >>= f = f a
raised e >>= f = raised e

-- What an attempt gives: the answer, or an exception of Pydantic AI. An HTTP error has its status,
-- its message, and its `str`, which also prints the body of the response.
pub data Answer {ℓ} (A : Type ℓ) : Type ℓ where
  returned : A → Answer A
  timed_out : Answer A
  http_error : ℕ → String → String → Answer A
  usage_limit : String → Answer A
  unexpected : String → Answer A
  user_error : String → Answer A
  broken : String → Answer A

abbrev pub rate_limit_max_attempts : ℕ
rate_limit_max_attempts = 3

-- What an attempt leads to: the loop's end, or another attempt with the last rate limit and the
-- number of re-rolls.
pub data Turn {ℓ} (A : Type ℓ) : Type ℓ where
  stop : Tried A → Turn A
  again : Option String → ℕ → Turn A

module _ {ℓ} {A : Type ℓ} (agent_type : String) (seconds : ℕ) where
  abbrev on_http : ℕ → ℕ → ℕ → String → String → Turn A
  on_http attempt retries code message whole =
      if not (eqb code 429)
      then stop
          (raised (process (format ("AI provider error (" ∷ show code ∷ "): " ∷ message ∷ []))))
      else if leb rate_limit_max_attempts attempt
      then stop (raised (rate_limit (format ("AI provider rate limit: " ∷ message ∷ []))))
      else again (some whole) retries

  abbrev on_unexpected : Option String → ℕ → String → Turn A
  on_unexpected last retries message =
      if leb 1 retries
      then stop
          (raised (process (format ("AI model returned an unparseable response: " ∷ message ∷ []))))
      else again last (retries + 1)

  -- the `try` block of one attempt
  unfoldable pub turn : ℕ → Option String → ℕ → Answer A → Turn A
  turn attempt last retries (returned a) = stop (done a)
  turn attempt last retries timed_out = stop (
      raised (
        timeout (
          format (
            "Pydantic AI agent '"
            ∷ agent_type
            ∷ "' did not complete within "
            ∷ show seconds
            ∷ "s."
            ∷ []))))
  turn attempt last retries (http_error code message whole) =
      on_http attempt retries code message whole
  turn attempt last retries (usage_limit words) =
      stop (raised (process (format ("Pydantic AI usage limit exceeded: " ∷ words ∷ []))))
  turn attempt last retries (unexpected message) = on_unexpected last retries message
  turn attempt last retries (user_error words) =
      stop (raised (process (format ("Pydantic AI configuration error: " ∷ words ∷ []))))
  turn attempt last retries (broken words) = stop (raised (other words))

  -- what stands behind the loop
  abbrev pub after_loop : Option String → Tried A
  after_loop none = raised assertion
  after_loop (some whole) = raised (rate_limit whole)

  abbrev pub obey : (Option String → ℕ → Tried A) → Turn A → Tried A
  obey rest (stop r) = r
  obey rest (again last retries) = rest last retries

  -- for attempt in range(attempt, attempt + left)
  unfoldable pub attempts : (ℕ → Answer A) → ℕ → ℕ → Option String → ℕ → Tried A
  unfolding turn
  attempts answers zero attempt last retries = after_loop last
  attempts answers (suc left) attempt last retries =
      obey (attempts answers left (suc attempt)) (turn attempt last retries (answers attempt))

  unfoldable pub run_pa_call : (ℕ → Answer A) → Tried A
  unfolding attempts
  run_pa_call answers = attempts answers rate_limit_max_attempts 1 none 0

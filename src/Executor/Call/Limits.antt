-- ===== src/Executor/Call/Limits.antt =====
-- How a call of the model comes to raise a rate limit.
use cliff.Common.{
  ℕ, ◌+◌, String, ◌≡◌, refl, sym, ap, ◌∙◌, true, false, [], ◌∷◌, Option, none, some, leb, eqb,
  arith, inl, inr, Bool-cases, ◌⊎◌,
}
use mathlib.Core.Path.{subst}
use cliff.Common.Text.{format}
use cliff.Common.Options.{some_injective}
use cliff.Executor.Call.{
  rate_limit, Tried, raised, Answer, returned, timed_out, http_error, usage_limit, unexpected,
  user_error, broken, turn, obey, after_loop, attempts, run_pa_call,
}
use cliff.Executor.Call.Attempts.{IsRetried, limited, unparsed}

-- A rate limit as a call raises it: the third attempt met one and the two before it let the loop go
-- on, and the words are those of its message; or the third attempt's response could not be parsed
-- after two rate limits, and the words are the whole of the second.
abbrev pub limit_words : String → String
limit_words message = format ("AI provider rate limit: " ∷ message ∷ [])

pub data Limited {ℓ} {A : Type ℓ} (answers : ℕ → Answer A) (words : String) : Type ℓ where
  third :
      (message whole : String)
      → IsRetried (answers 1)
      → IsRetried (answers 2)
      → answers 3 ≡ http_error 429 message whole
      → words ≡ limit_words message
      → Limited answers words
  unparsed_third :
      (message₁ whole₁ message₂ message₃ : String)
      → answers 1 ≡ http_error 429 message₁ whole₁
      → answers 2 ≡ http_error 429 message₂ words
      → answers 3 ≡ unexpected message₃
      → Limited answers words

limit_of {ℓ} : {A : Type ℓ} → Tried A → String
limit_of (raised (rate_limit w)) = w
limit_of _ = ""

same_limit {ℓ} :
    {A : Type ℓ} {s t : String} (r : Tried A)
    → r ≡ raised (rate_limit s)
    → r ≡ raised (rate_limit t)
    → s ≡ t
unfolding limit_of
same_limit r e f = sym (ap limit_of e) ∙ ap limit_of f

limit_code {ℓ} :
    {A : Type ℓ} (code : ℕ) (message whole : String) (x : Answer A)
    → eqb code 429 ≡ true
    → x ≡ http_error code message whole
    → x ≡ http_error 429 message whole
limit_code code message whole x y e =
    let same : code ≡ 429 = ground arith in e ∙ ap (λ c. http_error c message whole) same

module _ {ℓ} {A : Type ℓ} (agent_type : String) (seconds : ℕ) where
  -- What an attempt gave that led to a rate limit with these words.
  data Led (attempt : ℕ) (last : Option String) (retries : ℕ) (rest : Option String → ℕ → Tried A)
      (words : String) (x : Answer A) : Type ℓ where
    over :
        (message whole : String)
        → leb 3 attempt ≡ true
        → x ≡ http_error 429 message whole
        → words ≡ limit_words message
        → Led attempt last retries rest words x
    on :
        (message whole : String)
        → leb 3 attempt ≡ false
        → x ≡ http_error 429 message whole
        → rest (some whole) retries ≡ raised (rate_limit words)
        → Led attempt last retries rest words x
    reroll :
        (message : String)
        → x ≡ unexpected message
        → leb 1 retries ≡ false
        → rest last (retries + 1) ≡ raised (rate_limit words)
        → Led attempt last retries rest words x

  turn-Led :
      (attempt : ℕ) (last : Option String) (retries : ℕ) (rest : Option String → ℕ → Tried A)
      (x : Answer A) (words : String)
      → obey agent_type seconds rest (turn agent_type seconds attempt last retries x)
        ≡ raised (rate_limit words)
      → Led attempt last retries rest words x
  unfolding turn
  turn-Led attempt last retries rest (returned b) words e = absurd (cc)
  turn-Led attempt last retries rest timed_out words e = absurd (cc)
  turn-Led attempt last retries rest (http_error code message whole) words e =
      elim (Bool-cases (eqb code 429)) [
        | inr n ↦ let z = rw n at e in absurd (cc)
        | inl y ↦
            let limit = limit_code code message whole (http_error code message whole) y refl in
            elim (Bool-cases (leb 3 attempt)) [
              | inl third_one ↦
                  let same = same_limit _ refl (rw (y, third_one) at e) in
                  over message whole third_one limit (sym same)
              | inr more ↦ on message whole more limit (rw (y, more) at e)
            ]
      ]
  turn-Led attempt last retries rest (usage_limit w) words e = absurd (cc)
  turn-Led attempt last retries rest (unexpected message) words e =
      elim (Bool-cases (leb 1 retries)) [
        | inl y ↦ let z = rw y at e in absurd (cc)
        | inr n ↦ reroll message refl n (rw n at e)
      ]
  turn-Led attempt last retries rest (user_error w) words e = absurd (cc)
  turn-Led attempt last retries rest (broken w) words e = absurd (cc)

  was_limited :
      (message whole : String) (x : Answer A) → x ≡ http_error 429 message whole → IsRetried x
  was_limited message whole x e = subst (IsRetried {A = A}) (sym e) (limited message whole)

  was_unparsed : (message : String) (x : Answer A) → x ≡ unexpected message → IsRetried x
  was_unparsed message x e = subst (IsRetried {A = A}) (sym e) (unparsed message)

  after_last :
      (r : Tried A) (last : Option String) (words : String)
      → r ≡ after_loop agent_type seconds last
      → r ≡ raised (rate_limit words)
      → last ≡ some words
  after_last r none words e f = absurd (cc)
  after_last r (some w) words e f = ap some (same_limit r e f)

  -- the call from its third attempt on
  third_attempt :
      (answers : ℕ → Answer A) (last : Option String) (retries : ℕ) (words : String)
      → attempts agent_type seconds answers 1 3 last retries ≡ raised (rate_limit words)
      → ((message : String) × (whole : String) × (answers 3 ≡ http_error 429 message whole)
          × (words ≡ limit_words message))
        ⊎ ((message : String) × (answers 3 ≡ unexpected message)
            × (leb 1 retries ≡ false)
            × (last ≡ some words))
  unfolding attempts
  third_attempt answers last retries words e =
      elim (turn-Led 3 last retries (attempts agent_type seconds answers 0 4) (answers 3) words e) [
        | over message whole _ x same ↦ inl (message, whole, x, same)
        | on message whole more x r ↦ absurd (cc)
        | reroll message x n r ↦ inr (message, x, n, after_last _ last words refl r)
      ]

  -- A call raises a rate limit only in two ways. Either the third attempt met one, after two that met
  -- a rate limit or an unparseable response, and the words are those of its message. Or the third
  -- response could not be parsed after two rate limits, and the words are the whole second error, the
  -- body of the response included, and not its message alone.
  pub run_pa_call-Limited :
      (answers : ℕ → Answer A) (words : String)
      → run_pa_call agent_type seconds answers ≡ raised (rate_limit words)
      → Limited answers words
  unfolding run_pa_call attempts
  run_pa_call-Limited answers words e =
      let rest₁ = attempts agent_type seconds answers 2 2 in
      let rest₂ = attempts agent_type seconds answers 1 3 in
      elim (turn-Led 1 none 0 rest₁ (answers 1) words e) [
        | over m w z x same ↦ absurd (cc)
        | on m₁ w₁ more x₁ r₁ ↦ elim (turn-Led 2 (some w₁) 0 rest₂ (answers 2) words r₁) [
          | over m w z x same ↦ absurd (cc)
          | on m₂ w₂ more₂ x₂ r₂ ↦ elim (third_attempt answers (some w₂) 0 words r₂) [
            | inl (m, w, x, same) ↦
                third m w (was_limited m₁ w₁ _ x₁) (was_limited m₂ w₂ _ x₂) x same
            | inr (m, x, n, known) ↦
                let x₂' = x₂ ∙ ap (λ w. http_error 429 m₂ w) (some_injective known) in
                unparsed_third m₁ w₁ m₂ m x₁ x₂' x
          ]
          | reroll m₂ x₂ n₂ r₂ ↦ elim (third_attempt answers (some w₁) 1 words r₂) [
            | inl (m, w, x, same) ↦ third m w (was_limited m₁ w₁ _ x₁) (was_unparsed m₂ _ x₂) x same
            | inr (m, x, n, known) ↦ absurd (cc)
          ]
        ]
        | reroll m₁ x₁ n₁ r₁ ↦ elim (turn-Led 2 none 1 rest₂ (answers 2) words r₁) [
          | over m w z x same ↦ absurd (cc)
          | on m₂ w₂ more₂ x₂ r₂ ↦ elim (third_attempt answers (some w₂) 1 words r₂) [
            | inl (m, w, x, same) ↦ third m w (was_unparsed m₁ _ x₁) (was_limited m₂ w₂ _ x₂) x same
            | inr (m, x, n, known) ↦ absurd (cc)
          ]
          | reroll m₂ x₂ n₂ r₂ ↦ absurd (cc)
        ]
      ]

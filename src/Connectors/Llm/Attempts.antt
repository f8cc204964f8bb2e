-- ===== src/Connectors/Llm/Attempts.antt =====
-- How often the provider is called: src/backend/connectors/llm.py.
use mathlib.Core.Path.{subst}
use crucible.Base.{
  ap, ◌∙◌, Bool, false, refl, ◌⊎◌, inl, inr, Bool-cases, ℕ, zero, suc, ◌+◌, ◌≤◌, ◌<◌, ◌≡◌, String,
  true, List, Option, arith, Floats,
}
use crucible.Agents.State.{get_or}
use crucible.Connectors.Llm.{
  LlmError, rate_limit, api_connection, Reply, raised, returned, Completion, Generated, generated,
  is_transient, Message, Provider, context_window_exceeded, retry_transient_from, retry_transient,
  estimate_tokens, check_context_window, generate_once, generate,
}

module _ {A : Type 0} (call : ℕ → ℕ × Reply A) where
  -- a single attempt that ends in a transient error called the provider once
  abbrev CallsOnce : Type 0
  CallsOnce = (n : ℕ) → (call n).0 ≡ 1

  retry_transient_from-le :
      CallsOnce → (n left : ℕ) → (retry_transient_from call n left).0 ≤ suc left
  unfolding retry_transient_from
  retry_transient_from-le once n zero = omega (arith, once n)
  retry_transient_from-le once n (suc left) =
      ground (arith, once n, retry_transient_from-le once (suc n) left)

  retry_transient_from-ge : CallsOnce → (n left : ℕ) → 1 ≤ (retry_transient_from call n left).0
  unfolding retry_transient_from
  retry_transient_from-ge once n zero = omega (arith, once n)
  retry_transient_from-ge once n (suc left) = ground (arith, once n)

  -- a transient error is the answer of the last attempt only
  retry_transient_from_last :
      CallsOnce
      → (n left : ℕ) (e : LlmError) → (retry_transient_from call n left).1 ≡ raised e
      → is_transient e ≡ true
      → (retry_transient_from call n left).0 ≡ suc left
  unfolding retry_transient_from
  retry_transient_from_last once n zero e h t = ground (arith, once n)
  retry_transient_from_last once n (suc left) e h t =
      ground (arith, once n, retry_transient_from_last once (suc n) left e)

-- a rate limit or a lost connection
abbrev pub is_retried : {A : Type 0} → Reply A → Bool
is_retried (raised rate_limit) = true
is_retried (raised api_connection) = true
is_retried (raised (context_window_exceeded _ _ _)) = false
is_retried (raised (LlmError.other _)) = false
is_retried (returned a) = false

is_retried-raised : (A : Type 0) (e : LlmError) → is_retried {A = A} (raised e) ≡ is_transient e
is_retried-raised A rate_limit = refl
is_retried-raised A api_connection = refl
is_retried-raised A (context_window_exceeded _ _ _) = refl
is_retried-raised A (LlmError.other _) = refl

module _ {A : Type 0} where
  -- What attempts with the answers `answer`, from one on and with `left` more allowed, come to: the
  -- number of calls and the last answer.
  pub data Attempts (answer : ℕ → Reply A) : (attempt left : ℕ) → ℕ × Reply A → Type 0 where
    final :
        (attempt left : ℕ)
        → is_retried (answer attempt) ≡ false
        → Attempts answer attempt left (1, answer attempt)
    spent : (attempt : ℕ) → Attempts answer attempt 0 (1, answer attempt)
    again :
        (attempt left n : ℕ) (r : Reply A)
        → is_retried (answer attempt) ≡ true
        → Attempts answer (suc attempt) left (n, r)
        → Attempts answer attempt (suc left) (1 + n, r)

  Reply-cases : (r : Reply A) → ((a : A) × (r ≡ returned a)) ⊎ ((e : LlmError) × (r ≡ raised e))
  Reply-cases (returned a) = inl (a, refl)
  Reply-cases (raised e) = inr (e, refl)

  retry_transient_from-Attempts :
      (call : ℕ → ℕ × Reply A) (answer : ℕ → Reply A)
      → ((n : ℕ) → call n ≡ (1, answer n))
      → (attempt left : ℕ) → Attempts answer attempt left (retry_transient_from call attempt left)
  unfolding retry_transient_from
  retry_transient_from-Attempts call answer once attempt zero = rw (once attempt) (spent attempt)
  retry_transient_from-Attempts call answer once attempt (suc left) =
      let later = retry_transient_from-Attempts call answer once (suc attempt) left in
      elim (Reply-cases (answer attempt)) [
        | inl (a, e) ↦
            let kept : is_retried (answer attempt) ≡ false = rw e refl in
            rw (retry_transient_from, ap (λ c. c.1) (once attempt), e, ap (λ c. c.0) (once attempt))
              (subst (λ r. Attempts answer attempt (suc left) (1, r)) e
                (final attempt (suc left) kept))
        | inr (x, e) ↦ elim (Bool-cases (is_transient x)) [
          | inl transient ↦
              let retried : is_retried (answer attempt) ≡ true =
                rw e (is_retried-raised A x ∙ transient) in
              rw
                (
                  retry_transient_from,
                  ap (λ c. c.1) (once attempt),
                  e,
                  transient,
                  ap (λ c. c.0) (once attempt),
                )
                (again attempt left _ _ retried later)
          | inr lasting ↦
              let kept : is_retried (answer attempt) ≡ false =
                rw e (is_retried-raised A x ∙ lasting) in
              rw
                (
                  retry_transient_from,
                  ap (λ c. c.1) (once attempt),
                  e,
                  lasting,
                  ap (λ c. c.0) (once attempt),
                )
                (subst (λ r. Attempts answer attempt (suc left) (1, r)) e
                  (final attempt (suc left) kept))
        ]
      ]

module _ ⦃fl : Floats⦄ {P : Type 0} (provider : Provider P fl.Float) where
  open fl use {Float}
  open provider use {max_tokens, acompletion}

  -- the answer of `generate` that an answer of the provider gives
  abbrev pub generated_of : Reply (Completion P) → Reply (Generated P Float)
  generated_of (returned response) = returned (generated provider response)
  generated_of (raised e) = raised e

  module _ (model : String) (messages : List Message) (out : Option ℕ) where
    -- A request whose estimate and reserved output exceed the context of the model, 128000 tokens
    -- where it is unknown, raises, and the provider is not called.
    pub generate_refused :
        get_or (max_tokens model) 128000 < estimate_tokens provider model messages + get_or out 1024
        → generate provider model messages out ≡ (
          0,
          raised (
              context_window_exceeded
                (estimate_tokens provider model messages)
                (get_or out 1024)
                (get_or (max_tokens model) 128000)),
        )
    unfolding generate retry_transient retry_transient_from generate_once check_context_window
    generate_refused h = ground arith

    generate_once-CallsOnce :
        estimate_tokens provider model messages + get_or out 1024 ≤ get_or (max_tokens model) 128000
        → CallsOnce (generate_once provider model messages out)
    unfolding generate_once check_context_window
    generate_once-CallsOnce h n = ground arith

    module _
        (fits : estimate_tokens provider model messages + get_or out 1024
          ≤ get_or (max_tokens model) 128000) where
      -- A request that fits is sent to the provider once, twice or three times.
      pub generate_bounds :
          let calls = (generate provider model messages out).0 in (1 ≤ calls) × (calls ≤ 3)
      unfolding generate retry_transient
      generate_bounds =
          let call = generate_once provider model messages out in
          let once : CallsOnce call = generate_once-CallsOnce fits in
          (retry_transient_from-ge call once 0 2, retry_transient_from-le call once 0 2)

      -- A request that fits is answered with a rate limit or a lost connection only after three calls
      -- of the provider.
      pub generate_transient :
          (e : LlmError)
          → (generate provider model messages out).1 ≡ raised e
          → is_transient e ≡ true
          → (generate provider model messages out).0 ≡ 3
      unfolding generate retry_transient
      generate_transient =
          let call = generate_once provider model messages out in
          retry_transient_from_last call (generate_once-CallsOnce fits) 0 2

      generate_once_fits :
          (n : ℕ) → generate_once provider model messages out n ≡ (1, generated_of (acompletion n))
      unfolding generate_once check_context_window
      generate_once_fits n = ground (arith, fits)

      -- A request that fits into the context of the model is sent to the provider again after each
      -- rate limit or lost connection, up to three times in all, and after no other answer; its answer
      -- is that of the last call.
      pub generate-Attempts :
          Attempts (λ n. generated_of (acompletion n)) 0 2 (generate provider model messages out)
      unfolding generate retry_transient
      generate-Attempts =
          retry_transient_from-Attempts (generate_once provider model messages out)
            (λ n. generated_of (acompletion n)) generate_once_fits 0 2

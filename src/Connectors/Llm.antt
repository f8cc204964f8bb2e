-- ===== src/Connectors/Llm.antt =====
-- src/backend/connectors/llm.py: `LLMClient`. tiktoken and LiteLLM are parameters; a call of the
-- provider is told apart by its attempt.
pub mod Attempts
use Prim.Native.Char.{code}
use Prim.Native.String.{count}
use crucible.Base.{
  ℕ, zero, suc, ◌+◌, String, Bool, true, false, List, [], ◌∷◌, Option, none, some, ◌==◌, ltb, ◌||◌,
  has_slash, Floats, if◌then◌else◌,
}
use crucible.Agents.State.{get_or}

-- A message is a dictionary; a value that is no text counts nothing.
abbrev pub Message : Type 0
Message = List (String × Option String)

pub data LlmError : Type 0 where
  context_window_exceeded : (num_tokens max_tokens_out max_context : ℕ) → LlmError
  rate_limit api_connection : LlmError
  other : String → LlmError

pub data Reply (A : Type 0) : Type 0 where
  returned : A → Reply A
  raised : LlmError → Reply A

-- `retry_if_exception_type((RateLimitError, APIConnectionError))`
abbrev pub is_transient : LlmError → Bool
is_transient rate_limit = true
is_transient api_connection = true
is_transient (context_window_exceeded _ _ _) = false
is_transient (other _) = false

pub record Usage : Type 0 where
  pub prompt_tokens : ℕ
  pub completion_tokens : ℕ
  pub total_tokens : ℕ

-- What `acompletion` or instructor gives: the contents of the choices, and the parsed model.
pub record Completion (P : Type 0) : Type 0 where
  pub choices : List (Option String)
  pub parsed : Option P
  pub usage : Option Usage
  pub model : String

pub record Generated (P F : Type 0) : Type 0 where
  pub content : Option String
  pub parsed : Option P
  pub cost_usd : F
  pub prompt_tokens : ℕ
  pub completion_tokens : ℕ
  pub total_tokens : ℕ
  pub model_used : String

pub record Embedded (F : Type 0) : Type 0 where
  pub vector : List F
  pub cost_usd : F

-- `encoding_for_model` raises a `KeyError` for a model that it does not know; `model_cost` may lack
-- the model or its `max_tokens`; `completion_cost` may raise or give `None`.
pub record Provider (P F : Type 0) : Type 1 where
  pub Encoding : Type 0
  pub encoding_for_model : String → Option Encoding
  pub cl100k_base : Encoding
  pub encode_length : Encoding → String → ℕ
  pub max_tokens : (model : String) → Option ℕ
  pub acompletion : (attempt : ℕ) → Reply (Completion P)
  pub aembedding : (attempt : ℕ) → Reply (List F)
  pub completion_cost : Completion P → Option F
  pub embedding_cost : List F → Option F

-- `model.split("/")[-1]`: what follows the last slash
abbrev pub last_part : String → String
last_part String.[] = String.[]
last_part (String.◌∷◌ c s) =
    let rest = last_part s in
    if has_slash s then rest else if code c == 47 then s else String.◌∷◌ c s

-- a call of `generate` or `embed`: how often the provider is called, and what comes of it
module _ {A : Type 0} (call : (attempt : ℕ) → ℕ × Reply A) where
  -- tenacity's retry of a transient error with `reraise`, with `left` attempts after this one
  unfoldable pub retry_transient_from : (attempt left : ℕ) → ℕ × Reply A
  retry_transient_from attempt zero = call attempt
  retry_transient_from attempt (suc left) =
      let (n, r) = call attempt in
      let (n', r') = retry_transient_from (suc attempt) left in
      elim r [
        | returned a ↦ (n, returned a)
        | raised e ↦ if is_transient e then (n + n', r') else (n, raised e)
      ]

  -- `stop_after_attempt(3)`
  unfoldable pub retry_transient : ℕ × Reply A
  unfolding retry_transient_from
  retry_transient = retry_transient_from 0 2

module _ ⦃fl : Floats⦄ {P : Type 0} (provider : Provider P fl.Float) where
  open fl use {Float, decimal}
  open provider use {
    Encoding, encoding_for_model, cl100k_base, encode_length, max_tokens, acompletion, aembedding,
    completion_cost, embedding_cost,
  }

  abbrev pub message_tokens : Encoding → Message → ℕ
  message_tokens encoding [] = 0
  message_tokens encoding ((_, none) ∷ items) = message_tokens encoding items
  message_tokens encoding ((_, some value) ∷ items) =
      encode_length encoding value + message_tokens encoding items

  abbrev pub messages_tokens : Encoding → List Message → ℕ
  messages_tokens encoding [] = 0
  messages_tokens encoding (m ∷ ms) = 4 + message_tokens encoding m + messages_tokens encoding ms

  unfoldable pub estimate_tokens : (model : String) → List Message → ℕ
  estimate_tokens model messages =
      messages_tokens (get_or (encoding_for_model (last_part model)) cl100k_base) messages + 2

  -- the error that it raises
  unfoldable pub check_context_window :
      (model : String) → List Message → (max_tokens_out : ℕ) → Option LlmError
  unfolding estimate_tokens
  check_context_window model messages max_tokens_out =
      let num_tokens = estimate_tokens model messages in
      let max_context = get_or (max_tokens model) 128000 in
      if ltb max_context (num_tokens + max_tokens_out)
      then some (context_window_exceeded num_tokens max_tokens_out max_context)
      else none

  -- `response.choices[0].message.content if response.choices else ""`
  abbrev content_of : List (Option String) → Option String
  content_of [] = some ""
  content_of (c ∷ _) = c

  abbrev tokens_of : (Usage → ℕ) → Option Usage → ℕ
  tokens_of f none = 0
  tokens_of f (some u) = f u

  abbrev pub generated : Completion P → Generated P Float
  generated response = record {
    content = content_of response.choices;
    parsed = response.parsed;
    cost_usd = get_or (completion_cost response) (decimal 0 0);
    prompt_tokens = tokens_of (λ u. u.prompt_tokens) response.usage;
    completion_tokens = tokens_of (λ u. u.completion_tokens) response.usage;
    total_tokens = tokens_of (λ u. u.total_tokens) response.usage;
    model_used = response.model;
  }

  -- the body of `generate` at one attempt
  unfoldable pub generate_once :
      (model : String)
      → List Message
      → (max_tokens : Option ℕ) → (attempt : ℕ) → ℕ × Reply (Generated P Float)
  unfolding check_context_window
  generate_once model messages max_tokens attempt =
      elim (check_context_window model messages (get_or max_tokens 1024)) [
        | some e ↦ (0, raised e)
        | none ↦ elim (acompletion attempt) [
          | raised e ↦ (1, raised e)
          | returned response ↦ (1, returned (generated response))
        ]
      ]

  unfoldable pub generate :
      (model : String) → List Message → (max_tokens : Option ℕ) → ℕ × Reply (Generated P Float)
  unfolding generate_once retry_transient
  generate model messages max_tokens = retry_transient (generate_once model messages max_tokens)

  unfoldable pub embed_once : (attempt : ℕ) → ℕ × Reply (Embedded Float)
  embed_once attempt = elim (aembedding attempt) [
    | raised e ↦ (1, raised e)
    | returned vector ↦ (
      1,
      returned
          (record { vector = vector; cost_usd = get_or (embedding_cost vector) (decimal 0 0) }),
    )
  ]

  unfoldable pub embed : ℕ × Reply (Embedded Float)
  unfolding embed_once retry_transient
  embed = retry_transient embed_once

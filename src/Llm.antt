-- ===== src/Llm.antt =====
-- src/runtime/llm.rs: the shapes of a chat response, and the price of a call. The HTTP client is
-- not modelled: what it returns is the environment's choice.
pub mod Canary
use open_pincery.Prelude.{ℕ, ◌+◌, ◌*◌, String, Option, List}

pub record FunctionCall : Type 0 where
  pub name : String
  pub arguments : String

pub record ToolCallRequest : Type 0 where
  pub id : String
  pub call_type : String
  pub function : FunctionCall

pub record ResponseMessage : Type 0 where
  pub role : String
  pub content : Option String
  pub tool_calls : Option (List ToolCallRequest)

pub record Choice : Type 0 where
  pub message : ResponseMessage
  pub finish_reason : String

-- A negative count of the provider is read as 0, as `cost_for` reads it.
pub record Usage : Type 0 where
  pub prompt_tokens : ℕ
  pub completion_tokens : ℕ

pub record ChatResponse : Type 0 where
  pub id : String
  pub choices : List Choice
  pub usage : Option Usage

-- Prices of one token, in the smallest decimal unit of `Agent`'s money, so that the division by a
-- million of `cost_for` is exact.
pub record Pricing : Type 0 where
  pub input_per_token : ℕ
  pub output_per_token : ℕ

unfoldable pub cost_for : Pricing → Usage → ℕ
cost_for p u = u.prompt_tokens * p.input_per_token + u.completion_tokens * p.output_per_token

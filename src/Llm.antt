-- ===== src/Llm.antt =====
-- internal/platform/llm: the clients of language-model providers. A provider is a parameter: a call
-- is a function on the state of the world, which gives a response or an error. `Generate` and
-- `Stream` differ in the type of the response alone, so each decorator is modelled once for both.
pub mod Retry
pub mod Fallback
use kubeflare.Prelude.{
  Bool, false, ◌||◌, Option, none, some, leb, ◌==◌, if◌then◌else◌, ℤ, pos, negsuc,
}

-- What `errors.Is` and `errors.As` find in the chain of an error: a cancelled or an expired context,
-- and the status code of a `*ProviderError`.
pub record LlmError : Type 0 where
  pub canceled : Bool
  pub deadline_exceeded : Bool
  pub provider_status : Option ℤ

abbrev status_retryable : Option ℤ → Bool
status_retryable none = false
status_retryable (some (pos code)) = code == 0 || (code == 429 || leb 500 code)
status_retryable (some (negsuc n)) = false

unfoldable pub is_retryable : LlmError → Bool
is_retryable e =
    if e.canceled || e.deadline_exceeded then false else status_retryable e.provider_status

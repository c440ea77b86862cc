-- ===== src/Llm/Fallback.antt =====
-- internal/platform/llm/fallback.go: a chain of clients, each asked when the one before it failed in
-- a way that is worth a new try. A nil interface is `none`.
pub mod Chain
use kubeflare.Prelude.{
  Bool, true, false, not, ◌||◌, Option, none, some, List, [], ◌∷◌, String, if◌then◌else◌,
}
use kubeflare.Prelude.Dict.{lookup}
use kubeflare.Prelude.Fallible.{Fallible, ok, err}
use kubeflare.Llm.{LlmError, is_retryable}

pub data FallbackError : Type 0 where
  no_client : FallbackError
  registry_unavailable : FallbackError
  default_unavailable : FallbackError
  not_configured : String → FallbackError

abbrev is_last {ℓ} : {A : Type ℓ} → List A → Bool
is_last [] = true
is_last (c ∷ cs) = false

-- `newFallbackClient`'s filter.
unfoldable pub present {ℓ} : {A : Type ℓ} → List (Option A) → List A
present [] = []
present (none ∷ cs) = present cs
present (some c ∷ cs) = c ∷ present cs

-- `Generate` or `Stream` of a client, on the state of the world.
abbrev pub Client : Type 0 → Type 0 → Type 0
Client S A = S → Fallible LlmError A × S

-- The registry: its clients by name, and the name of the default one.
pub record Registry (S A : Type 0) : Type 0 where
  pub default_provider : String
  pub clients : List (String × Option (Client S A))

module _ {S A : Type 0} (zero_value : A) where
  abbrev after_client :
      List (Client S A) → Client S A → Fallible LlmError A × S → Fallible LlmError A × S
  after_client left again (ok response, s) = (ok response, s)
  after_client left again (err e, s) =
      if not (is_retryable e) || is_last left then (err e, s) else again s

  -- `Generate`, and `Stream`, of the clients from one index on.
  unfoldable pub ask : List (Client S A) → S → Fallible LlmError A × S
  ask [] s = (ok zero_value, s)
  ask (c ∷ cs) s = after_client cs (ask cs) (c s)

  abbrev wrap : List (Client S A) → Fallible FallbackError (Client S A)
  wrap [] = err no_client
  wrap (c ∷ []) = ok c
  wrap (c ∷ d ∷ cs) = ok (ask (c ∷ d ∷ cs))

  unfoldable pub new_fallback_client :
      List (Option (Client S A)) → Fallible FallbackError (Client S A)
  unfolding present ask
  new_fallback_client clients = wrap (present clients)

  abbrev configured :
      FallbackError → Option (Option (Client S A)) → Fallible FallbackError (Client S A)
  configured missing none = err missing
  configured missing (some none) = err missing
  configured missing (some (some c)) = ok c

  unfoldable pub default_client : Option (Registry S A) → Fallible FallbackError (Client S A)
  default_client none = err registry_unavailable
  default_client (some r) = configured default_unavailable (lookup r.default_provider r.clients)

  abbrev append_client :
      Fallible FallbackError (Client S A)
      → Fallible FallbackError (List (Option (Client S A)))
      → Fallible FallbackError (List (Option (Client S A)))
  append_client (err e) rest = err e
  append_client (ok c) (err e) = err e
  append_client (ok c) (ok cs) = ok (some c ∷ cs)

  -- The loop over the fallbacks' names: the first one that is not configured is the error.
  unfoldable pub named_clients :
      Registry S A → List String → Fallible FallbackError (List (Option (Client S A)))
  named_clients r [] = ok []
  named_clients r (name ∷ names) =
      append_client (configured (not_configured name) (lookup name r.clients))
        (named_clients r names)

  abbrev chain_of :
      Fallible FallbackError (List (Option (Client S A))) → Fallible FallbackError (Client S A)
  chain_of (err e) = err e
  chain_of (ok cs) = new_fallback_client cs

  abbrev with_fallbacks :
      Registry S A
      → List String
      → Fallible FallbackError (Client S A)
      → Fallible FallbackError (Client S A)
  with_fallbacks r names (err e) = err e
  with_fallbacks r [] (ok primary) = ok primary
  with_fallbacks r (name ∷ names) (ok primary) =
      chain_of (append_client (ok primary) (named_clients r (name ∷ names)))

  unfoldable pub fallback_client :
      Option (Registry S A) → List String → Fallible FallbackError (Client S A)
  unfolding default_client named_clients
  fallback_client none names = err registry_unavailable
  fallback_client (some r) names = with_fallbacks r names (default_client (some r))

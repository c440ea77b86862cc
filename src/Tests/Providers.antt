-- ===== src/Tests/Providers.antt =====
-- The clients of language-model providers at concrete inputs. The state of the world is the number
-- of calls so far.
use Prim.Native.Nat.{min}
use kubeflare.Prelude.{
  ℕ, ◌+◌, ◌*◌, ◌^◌, ◌≡◌, refl, false, Option, none, some, String, List, [], ◌∷◌, arith, pos, ltb,
  if◌then◌else◌,
}
use kubeflare.Prelude.Dict.{lookup}
use kubeflare.Prelude.Fallible.{ok, err}
use kubeflare.Llm.{LlmError}
use kubeflare.Llm.Retry.{backoff_delay, generate, max_retry_backoff}
use kubeflare.Llm.Retry.Delay.{backoff_delay-min}
use kubeflare.Llm.Retry.Attempts.{Outcome, generate-Outcome}
use kubeflare.Llm.Fallback.{
  Client, Registry, fallback_client, named_clients, default_client, new_fallback_client, present,
  ask,
}
use kubeflare.Llm.Fallback.Chain.{Answer, Configured, fallback_client-Answer}

abbrev overloaded : LlmError
overloaded = record {
  canceled = false;
  deadline_exceeded = false;
  provider_status = some (pos 503);
}

-- A client that is overloaded until its third call.
abbrev flaky : Client ℕ String
flaky calls = (if ltb calls 2 then err overloaded else ok "hello", calls + 1)

abbrev steady : Client ℕ String
steady calls = (ok "hi", calls + 1)

abbrev sleep : ℕ → ℕ → Option LlmError × ℕ
sleep duration calls = (none, calls)

backoff_delay-min_example : backoff_delay 500 3 ≡ min (500 * 2 ^ 3) max_retry_backoff
backoff_delay-min_example = backoff_delay-min 500 3 (omega arith)

generate-Outcome_example : Outcome "" flaky sleep 500 3 0 0 (generate "" flaky sleep (pos 3) 500 0)
generate-Outcome_example = generate-Outcome "" flaky sleep 500 3 0

abbrev registry : Registry ℕ String
registry = record {
  default_provider = "main";
  clients = ("main", some flaky) ∷ ("spare", some steady) ∷ [];
}

fallback_client-Answer_example :
    (cs : List (Client ℕ String)) × Configured registry ("main" ∷ "spare" ∷ []) cs
    × ((s : ℕ) → Answer cs s (ask "" (flaky ∷ steady ∷ []) s))
unfolding fallback_client named_clients default_client new_fallback_client present lookup
fallback_client-Answer_example =
    fallback_client-Answer "" registry ("spare" ∷ []) (ask "" (flaky ∷ steady ∷ [])) refl

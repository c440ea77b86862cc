-- ===== src/Llm/Fallback/Chain.antt =====
-- Which client of a fallback chain answers.
use kubeflare.Prelude.{
  ◌≡◌, refl, ap, ◌∙◌, sym, subst, inl, inr, true, false, Option, none, some, List, [], ◌∷◌, ◌++◌,
  String, Bool-cases, arith, length,
}
use kubeflare.Prelude.Dict.{lookup}
use kubeflare.Prelude.Fallible.{Fallible, ok, err, ok_inj, err_no_ok}
use kubeflare.Llm.{LlmError, is_retryable}
use kubeflare.Llm.Fallback.{
  Client, ask, present, new_fallback_client, Registry, named_clients, fallback_client, after_client,
  FallbackError, configured, append_client, wrap, chain_of, with_fallbacks, default_client,
}

module _ {S A : Type 0} where
  -- These clients, asked in turn, all failed in a way that is worth a new try.
  pub data Passed : List (Client S A) → S → S → Type 0 where
    nobody : {s : S} → Passed [] s s
    passed :
        {c : Client S A} {cs : List (Client S A)} {s s' t : S} {e : LlmError}
        → c s ≡ (err e, s')
        → is_retryable e ≡ true
        → Passed cs s' t
        → Passed (c ∷ cs) s t

  -- Why the loop stops at a client with this result.
  pub data Stops (after : List (Client S A)) : Fallible LlmError A × S → Type 0 where
    success : {a : A} {t : S} → Stops after (ok a, t)
    rejected : {e : LlmError} {t : S} → is_retryable e ≡ false → Stops after (err e, t)
    exhausted : {e : LlmError} {t : S} → after ≡ [] → Stops after (err e, t)

  -- The clients before the one that answers, that one, and those that were not asked.
  pub record Answer (cs : List (Client S A)) (s : S) (r : Fallible LlmError A × S) : Type 0 where
    pub before : List (Client S A)
    pub asked : Client S A
    pub after : List (Client S A)
    pub split : cs ≡ before ++ asked ∷ after
    pub at : S
    pub degraded : Passed before s at
    pub answers : asked at ≡ r
    pub stops : Stops after r

  answers_now :
      (c : Client S A) (cs : List (Client S A)) (s : S) (r : Fallible LlmError A × S)
      → c s ≡ r
      → Stops cs r
      → Answer (c ∷ cs) s r
  answers_now c cs s r called stop = record {
    before = [];
    asked = c;
    after = cs;
    split = refl;
    at = s;
    degraded = nobody;
    answers = called;
    stops = stop;
  }

  answers_later :
      (c : Client S A) (cs : List (Client S A)) (s s' : S) (e : LlmError)
      (r : Fallible LlmError A × S)
      → c s ≡ (err e, s')
      → is_retryable e ≡ true
      → Answer cs s' r
      → Answer (c ∷ cs) s r
  answers_later c cs s s' e r called retry a = record {
    before = c ∷ a.before;
    asked = a.asked;
    after = a.after;
    split = ap (λ xs. c ∷ xs) a.split;
    at = a.at;
    degraded = passed called retry a.degraded;
    answers = a.answers;
    stops = a.stops;
  }

  -- The clients registered under these names, in order.
  pub data Configured (r : Registry S A) : List String → List (Client S A) → Type 0 where
    no_names : Configured r [] []
    named :
        {name : String} {c : Client S A} {names : List String} {cs : List (Client S A)}
        → lookup name r.clients ≡ some (some c)
        → Configured r names cs
        → Configured r (name ∷ names) (c ∷ cs)

module _ {S A : Type 0} (zero_value : A) where
  nil_no_cons : {d : Client S A} {ds : List (Client S A)} → [] ≡ d ∷ ds → ⊥
  nil_no_cons e = omega (arith, ap length e)

  called-Answer :
      (c : Client S A) (cs : List (Client S A)) (s : S) (r : Fallible LlmError A × S)
      → c s ≡ r
      → ((d : Client S A) (ds : List (Client S A))
          → cs ≡ d ∷ ds
          → (t : S) → Answer cs t (ask zero_value cs t))
      → Answer (c ∷ cs) s (after_client zero_value cs (ask zero_value cs) r)
  called-Answer c cs s (ok a, t) called ih = answers_now c cs s _ called success
  called-Answer c [] s (err e, t) called ih = elim (Bool-cases (is_retryable e)) [
    | inl retry ↦ rw retry (answers_now c [] s _ called (exhausted refl))
    | inr over ↦ rw over (answers_now c [] s _ called (exhausted refl))
  ]
  called-Answer c (d ∷ ds) s (err e, t) called ih = elim (Bool-cases (is_retryable e)) [
    | inl retry ↦ rw retry (answers_later c (d ∷ ds) s t e _ called retry (ih d ds refl t))
    | inr over ↦ rw over (answers_now c (d ∷ ds) s _ called (rejected over))
  ]

  ask-Answer :
      (c : Client S A) (cs : List (Client S A)) (s : S)
      → Answer (c ∷ cs) s (ask zero_value (c ∷ cs) s)
  unfolding ask
  ask-Answer c [] s = called-Answer c [] s (c s) refl (λ d ds e. absurd (nil_no_cons e))
  ask-Answer c (d ∷ ds) s = called-Answer c (d ∷ ds) s (c s) refl (λ d' ds' e t. ask-Answer d ds t)

  configured-ok :
      (missing : FallbackError) (o : Option (Option (Client S A))) (c : Client S A)
      → configured zero_value missing o ≡ ok c
      → o ≡ some (some c)
  configured-ok missing none c e = absurd (err_no_ok e)
  configured-ok missing (some none) c e = absurd (err_no_ok e)
  configured-ok missing (some (some d)) c e = ap (λ x. some (some x)) (ok_inj e)

  append_client-ok :
      (first : Fallible FallbackError (Client S A))
      (rest : Fallible FallbackError (List (Option (Client S A))))
      (ocs : List (Option (Client S A)))
      → append_client zero_value first rest ≡ ok ocs
      → (c : Client S A) × (cs : List (Option (Client S A))) × (first ≡ ok c)
        × (rest ≡ ok cs)
        × (ocs ≡ some c ∷ cs)
  append_client-ok (err x) rest ocs e = absurd (err_no_ok e)
  append_client-ok (ok c) (err x) ocs e = absurd (err_no_ok e)
  append_client-ok (ok c) (ok cs) ocs e = (c, cs, refl, refl, sym (ok_inj e))

  named_clients-Configured :
      (r : Registry S A) (names : List String) (ocs : List (Option (Client S A)))
      → named_clients zero_value r names ≡ ok ocs
      → Configured r names (present ocs)
  unfolding named_clients present
  named_clients-Configured r [] ocs e =
      subst (λ xs. Configured r [] (present xs)) (ok_inj e) no_names
  named_clients-Configured r (name ∷ names) ocs e =
      let (c, cs, first, rest, whole) = append_client-ok _ _ ocs e in
      subst (λ xs. Configured r (name ∷ names) (present xs)) (sym whole)
        (named (configured-ok _ _ c first) (named_clients-Configured r names cs rest))

  single_by : (c : Client S A) (s : S) (r : Fallible LlmError A × S) → c s ≡ r → Answer (c ∷ []) s r
  single_by c s (ok a, t) called = answers_now c [] s _ called success
  single_by c s (err e, t) called = answers_now c [] s _ called (exhausted refl)

  single-Answer : (c : Client S A) (s : S) → Answer (c ∷ []) s (c s)
  single-Answer c s = single_by c s (c s) refl

  wrap-Answer :
      (cs : List (Client S A)) (client : Client S A)
      → wrap zero_value cs ≡ ok client
      → (s : S) → Answer cs s (client s)
  wrap-Answer [] client e s = absurd (err_no_ok e)
  wrap-Answer (c ∷ []) client e s =
      subst (λ f. Answer (c ∷ []) s (f s)) (ok_inj e) (single-Answer c s)
  wrap-Answer (c ∷ d ∷ cs) client e s =
      subst (λ f. Answer (c ∷ d ∷ cs) s (f s)) (ok_inj e) (ask-Answer c (d ∷ cs) s)

  chain-Answer :
      (r : Registry S A) (names : List String) (ocs : List (Option (Client S A)))
      (client : Client S A)
      → Configured r names (present ocs)
      → new_fallback_client zero_value ocs ≡ ok client
      → (cs : List (Client S A)) × Configured r names cs × ((s : S) → Answer cs s (client s))
  unfolding new_fallback_client
  chain-Answer r names ocs client known e = (present ocs, known, wrap-Answer (present ocs) client e)

  chained-Answer :
      (r : Registry S A) (primary : Client S A) (names : List String)
      (rest : Fallible FallbackError (List (Option (Client S A)))) (client : Client S A)
      → lookup r.default_provider r.clients ≡ some (some primary)
      → named_clients zero_value r names ≡ rest
      → chain_of zero_value (append_client zero_value (ok primary) rest) ≡ ok client
      → (cs : List (Client S A)) × Configured r (r.default_provider ∷ names) cs
        × ((s : S) → Answer cs s (client s))
  unfolding present
  chained-Answer r primary names (err x) client d n e = absurd (err_no_ok e)
  chained-Answer r primary names (ok ocs) client d n e =
      chain-Answer r _ (some primary ∷ ocs) client
        (named d (named_clients-Configured r names ocs n)) e

  with_fallbacks-Answer :
      (r : Registry S A) (names : List String) (primary : Fallible FallbackError (Client S A))
      (client : Client S A)
      → default_client zero_value (some r) ≡ primary
      → with_fallbacks zero_value r names primary ≡ ok client
      → (cs : List (Client S A)) × Configured r (r.default_provider ∷ names) cs
        × ((s : S) → Answer cs s (client s))
  unfolding default_client named_clients present
  with_fallbacks-Answer r names (err x) client d e = absurd (err_no_ok e)
  with_fallbacks-Answer r [] (ok primary) client d e =
      (client ∷ [], named (configured-ok _ _ client (d ∙ e)) no_names, single-Answer client)
  with_fallbacks-Answer r (name ∷ names) (ok primary) client d e =
      chained-Answer r primary (name ∷ names) _ client (configured-ok _ _ primary d) refl e

  -- When the registry makes a client with these fallbacks, the default provider and every fallback
  -- are registered, and every call of that client is answered by one of them, in this order: those
  -- before it all failed in a way that is worth a new try; it succeeded, or failed in a way that is
  -- not, or is the last; and its response or error is the result.
  pub fallback_client-Answer :
      (r : Registry S A) (names : List String) (client : Client S A)
      → fallback_client zero_value (some r) names ≡ ok client
      → (cs : List (Client S A)) × Configured r (r.default_provider ∷ names) cs
        × ((s : S) → Answer cs s (client s))
  unfolding fallback_client
  fallback_client-Answer r names client e = with_fallbacks-Answer r names _ client refl e

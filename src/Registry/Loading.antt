-- ===== src/Registry/Loading.antt =====
-- Loads of the registry that fail, and sources that fall back to what they gave last.
use kubeflare.Prelude.{
  ◌≡◌, refl, ap, sym, ◌∙◌, true, false, Bool-cases, inl, inr, Option, none, some, String, List, [],
  ◌∷◌, if◌then◌else◌, eq_iff, arith,
}
use kubeflare.Prelude.Fallible.{Fallible, ok, err}
use kubeflare.Prelude.Dots.{is_empty}
use kubeflare.Prelude.Dict.{lookup, insert, delete, lookup-insert}
use kubeflare.Prelude.Action.{then_read}
use kubeflare.Mcp.Tools.{ToolDefinition}
use kubeflare.Registry.{
  ToolRegistry, NamedToolProvider, Provider, Gathered, add_tools, gather, gather_if, gather_one,
  refreshed, rebuild, all_good, load_providers_graceful,
}

kept_last :
    (name : String) (own given : List ToolDefinition) (good : List (String × List ToolDefinition))
    → is_empty name ≡ false
    → lookup name (
        all_good
          (if is_empty name
            then insert "builtin" own []
            else insert name given (insert "builtin" own []))
          good)
      ≡ some given
unfolding all_good insert
kept_last name own given good named =
    rw (named, lookup-insert)
      (ap
        (λ b.
          if b
          then some given
          else lookup name (all_good (delete name (insert "builtin" own [])) good))
        ((eq_iff name name).1 refl))

abbrev after_load : String → List ToolDefinition → List ToolDefinition → ToolRegistry → ToolRegistry
after_load name own given r = rebuild (record r {
  base = add_tools given (add_tools own []);
  last_good =
      all_good
        (if is_empty name
          then insert "builtin" own []
          else insert name given (insert "builtin" own []))
        r.last_good;
})

module _ {S E : Type 0} where
  -- A critical source among the given ones that answered with the error.
  pub data CriticalFailed (e : E) : List (NamedToolProvider S E) → Type 0 where
    here :
        (spec : NamedToolProvider S E) (specs : List (NamedToolProvider S E))
        (provider : Provider S E) (s t : S)
        → spec.provider ≡ some provider
        → spec.critical ≡ true
        → provider s ≡ (err e, t)
        → CriticalFailed e (spec ∷ specs)
    there :
        (spec : NamedToolProvider S E) (specs : List (NamedToolProvider S E))
        → CriticalFailed e specs
        → CriticalFailed e (spec ∷ specs)

  gather_one-err :
      (r : ToolRegistry) (spec : NamedToolProvider S E) (g : Gathered)
      (x : Fallible E (List ToolDefinition) × S) (e : E) (t : S)
      → gather_one r spec g x ≡ (err e, t)
      → (x ≡ (err e, t)) × (spec.critical ≡ true)
  gather_one-err r spec g (ok tools, s) e t h = ground (arith, ap (λ (a, b). a) h)
  gather_one-err r spec g (err e', s) e t h = elim (Bool-cases spec.critical) [
    | inl c ↦ (ground (arith, ap (λ (a, b). a) (rw c at h), ap (λ (a, b). b) (rw c at h)), c)
    | inr c ↦ ground (arith, ap (λ (a, b). a) (rw c at h))
  ]

  gather_if-err :
      (r : ToolRegistry) (spec : NamedToolProvider S E) (specs : List (NamedToolProvider S E))
      (o : Option (Provider S E)) (g : Gathered) (s : S) (e : E) (t : S)
      → spec.provider ≡ o
      → gather_if r spec o g s ≡ (err e, t)
      → CriticalFailed e (spec ∷ specs)
  gather_if-err r spec specs none g s e t is h = ground (arith, ap (λ (a, b). a) h)
  gather_if-err r spec specs (some provider) g s e t is h =
      let (failed, critical) = gather_one-err r spec g (provider s) e t h in
      here spec specs provider s t is critical failed

  gather-CriticalFailed :
      (r : ToolRegistry) (specs : List (NamedToolProvider S E)) (g : Gathered) (s : S) (e : E)
      (t : S)
      → gather r specs g s ≡ (err e, t)
      → CriticalFailed e specs
  unfolding gather
  gather-CriticalFailed r [] g s e t h = ground (arith, ap (λ (a, b). a) h)
  gather-CriticalFailed r (spec ∷ specs) g s e t h =
      step (gather_if r spec spec.provider g s) refl
        (λ g' s'. gather-CriticalFailed r specs g' s' e t) h
    where
      step :
          (x : Fallible E Gathered × S)
          → gather_if r spec spec.provider g s ≡ x
          → ((g' : Gathered) (s' : S) → gather r specs g' s' ≡ (err e, t) → CriticalFailed e specs)
          → then_read x (λ g' s'. gather r specs g' s') ≡ (err e, t)
          → CriticalFailed e (spec ∷ specs)
      step (ok g', s') is rest h = there spec specs (rest g' s' h)
      step (err e', s') is rest h = gather_if-err r spec specs spec.provider g s e t refl (is ∙ h)

  refreshed-err :
      (r r' : ToolRegistry) (x : Fallible E Gathered × S) (e : E) (t : S)
      → refreshed r x ≡ (err e, r', t)
      → (x ≡ (err e, t)) × (r' ≡ r)
  refreshed-err r r' (err e', s) e t h =
      (ground (arith, ap (λ (a, b, c). a) h, ap (λ (a, b, c). c) h), sym (ap (λ (a, b, c). b) h))
  refreshed-err r r' (ok g, s) e t h = ground (arith, ap (λ (a, b, c). a) h)

  -- A load that fails leaves the registry as it was, and its error is that of a critical source: other
  -- sources never make a load fail.
  pub load_providers_graceful-CriticalFailed :
      (specs : List (NamedToolProvider S E)) (r r' : ToolRegistry) (s t : S) (e : E)
      → load_providers_graceful specs r s ≡ (err e, r', t)
      → (r' ≡ r) × CriticalFailed e specs
  unfolding load_providers_graceful
  load_providers_graceful-CriticalFailed specs r r' s t e h =
      let (failed, same) = refreshed-err r r' _ e t h in
      (same, gather-CriticalFailed r specs _ s e t failed)

  -- What a source gave last, where it gave something and where it failed.
  abbrev pub builtin_spec : Provider S E → NamedToolProvider S E
  builtin_spec provider = record { name = "builtin"; provider = some provider; critical = true }

  abbrev pub external_spec : String → Provider S E → NamedToolProvider S E
  external_spec name provider = record { name = name; provider = some provider; critical = false }

  loaded :
      (name : String) (builtin external : Provider S E) (own given : List ToolDefinition)
      (r : ToolRegistry) (s s1 s2 : S)
      → builtin s ≡ (ok own, s1)
      → external s1 ≡ (ok given, s2)
      → load_providers_graceful (builtin_spec builtin ∷ external_spec name external ∷ []) r s
        ≡ (ok [], after_load name own given r, s2)
  unfolding load_providers_graceful gather
  loaded name builtin external own given r s s1 s2 h k = rw (h, k) refl

  fallen_back :
      (name : String) (builtin external : Provider S E) (own given : List ToolDefinition) (e : E)
      (r : ToolRegistry) (s s1 s2 : S)
      → builtin s ≡ (ok own, s1)
      → external s1 ≡ (err e, s2)
      → lookup name r.last_good ≡ some given
      → load_providers_graceful (builtin_spec builtin ∷ external_spec name external ∷ []) r s ≡ (
        ok (name ∷ []),
        rebuild (record r {
          base = add_tools given (add_tools own []);
          last_good = all_good (insert "builtin" own []) r.last_good;
        }),
        s2,
      )
  unfolding load_providers_graceful gather
  fallen_back name builtin external own given e r s s1 s2 h k last = rw (h, k, last) refl

  -- An external source that loaded once and fails at the next load, while the built-in tools are the
  -- same, leaves the tools as they were: the load succeeds, names the source as fallen back, and the
  -- registry shows what it showed before.
  pub load_providers_graceful-falls_back :
      (name : String) (builtin external builtin' external' : Provider S E)
      (own given : List ToolDefinition) (e : E) (r : ToolRegistry) (s s1 s2 t t1 t2 : S)
      → is_empty name ≡ false
      → builtin s ≡ (ok own, s1)
      → external s1 ≡ (ok given, s2)
      → builtin' t ≡ (ok own, t1)
      → external' t1 ≡ (err e, t2)
      → let (_, before, _) =
          load_providers_graceful (builtin_spec builtin ∷ external_spec name external ∷ []) r s in
        let (answer, after, _) =
          load_providers_graceful
            (builtin_spec builtin' ∷ external_spec name external' ∷ [])
            before
            t in
        (answer ≡ ok (name ∷ [])) × (after.base ≡ before.base) × (after.tools ≡ before.tools)
  unfolding rebuild
  load_providers_graceful-falls_back name builtin external builtin' external' own given e r s s1 s2
        t t1 t2 named h k h' k' =
      rw
        (
          loaded name builtin external own given r s s1 s2 h k,
          fallen_back name builtin' external' own given e (after_load name own given r) t t1 t2 h'
              k' (kept_last name own given r.last_good named),
        )
        (refl, refl, refl)

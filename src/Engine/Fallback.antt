-- ===== src/Engine/Fallback.antt =====
-- internal/engine/fallback.go: the providers that are tried for a request, and the first that is
-- usable. Building a client and asking whether it is ready are actions on a state that stands for
-- all that is outside; they may fail. Logging is left out.
mod Extend
mod Order
mod Resolve
mod Tests
use domour.Common.{
  ℕ, ◌+◌, Bool, true, false, not, ◌&&◌, ◌||◌, ◌⊎◌, inl, inr, Option, none, some, List, [], ◌∷◌,
  ◌++◌, ◌==◌, if◌then◌else◌,
}
use domour.Common.Text.{Str, equal}
use domour.Common.Assoc.{Assoc, lookup}
use domour.Common.Sort.{has, sort_strings}
use domour.Common.Unicode.{Unicode, to_lower, trim_space}
use domour.Config.{ProviderConfig, DomourConfig, no_provider}
use domour.Config.Selection.{
  read, provider_model, entry_provider, entry_model, default_provider_name, default_model_name,
}

pub record Candidate : Type 0 where
  pub provider : Str
  pub model : Str

-- `seen` and `out` of fallbackCandidates
pub record Found : Type 0 where
  pub seen : List Str
  pub out : List Candidate

abbrev pub first_or : Str → List Str → Str
first_or default [] = default
first_or default (m ∷ ms) = m

module _ (u : Unicode) where
  -- the closure `add`
  unfoldable pub add : Str → Str → Found → Found
  add p m s =
      let p' = trim_space u p in
      if equal p' [] || has s.seen p' then s else record {
        seen = s.seen ++ (p' ∷ []);
        out = s.out ++ (record { provider = p'; model = trim_space u m } ∷ []);
      }

  -- out[0].model, when it is empty
  unfoldable pub fill_first : DomourConfig → Found → Found
  fill_first c s = record s {
    out = elim s.out [
      | [] ↦ []
      | cand ∷ cands ↦
          (if equal cand.model []
            then record cand { model = provider_model u c cand.provider }
            else cand)
          ∷ cands
    ];
  }

  -- Steps 2 and 3: a provider that is configured, with a model or else its own one.
  unfoldable pub add_configured : DomourConfig → Str → Str → Found → Found
  unfolding add
  add_configured c p m s =
      if not (equal p []) && not (has s.seen p)
      then add p (if equal m [] then provider_model u c p else m) s
      else s

  abbrev pub is_usable : ProviderConfig → Bool
  is_usable pc =
      pc.enabled && not (equal (trim_space u pc.api_key) [] && equal (trim_space u pc.base_url) [])

  -- the loop over cfg.Providers
  unfoldable pub rest_names : List Str → Assoc ProviderConfig → List Str
  rest_names seen [] = []
  rest_names seen ((name, pc) ∷ m) =
      let rest = rest_names seen m in
      let norm = to_lower u (trim_space u name) in
      if has seen norm then rest else if not (is_usable pc) then rest else norm ∷ rest

  unfoldable pub add_rest : DomourConfig → List Str → Found → Found
  unfolding add lookup
  add_rest c [] s = s
  add_rest c (name ∷ names) s =
      let pc = read no_provider name c.providers in
      add_rest c names (add name (first_or pc.model pc.models) s)

  -- fallbackCandidates
  unfoldable pub fallback_candidates : Str → Str → Str → DomourConfig → List Candidate
  unfolding add fill_first add_configured rest_names add_rest
  fallback_candidates entry requested_provider requested_model c =
      let s1 =
        fill_first c (add requested_provider requested_model (record { seen = []; out = [] })) in
      let e = to_lower u (trim_space u entry) in
      let s2 = add_configured c (entry_provider u c e) (entry_model u c e) s1 in
      let s3 = add_configured c (default_provider_name u c) (default_model_name u c) s2 in
      (add_rest c (sort_strings (rest_names s3.seen c.providers)) s3).out

-- The errors of resolveWithFallback: of building the first candidate, or that nothing was usable.
pub data ResolveError (E : Type 0) : Type 0 where
  primary : E → ResolveError E
  no_usable : Str → ResolveError E

module _ {S Client E : Type 0} (build : Str → Str → Str → S → (E ⊎ Client) × S)
    (ready : Client → S → (Bool × Option E) × S) (entry : Str) where
  abbrev pub is_ready : Bool × Option E → Bool
  is_ready (ok, none) = ok
  is_ready (ok, some err) = false

  -- The loop of resolveWithFallback, from candidate `i` on.
  unfoldable pub resolve_loop : ℕ → List Candidate → Option E → S → (ResolveError E ⊎ Client) × S
  resolve_loop i [] primary_err s =
      (elim primary_err [ none ↦ inl (no_usable entry) | some err ↦ inl (primary err) ], s)
  resolve_loop i (cand ∷ cands) primary_err s =
      let (built, s1) = build entry cand.provider cand.model s in
      elim built [
        | inl err ↦ resolve_loop (i + 1) cands (if i == 0 then some err else primary_err) s1
        | inr cl ↦
            let (r, s2) = ready cl s1 in
            let rest = resolve_loop (i + 1) cands primary_err s2 in
            if i == 0 then (inr cl, s1) else if is_ready r then (inr cl, s2) else rest
      ]

  -- resolveWithFallback
  unfoldable pub resolve_with_fallback :
      Unicode → Str → Str → DomourConfig → S → (ResolveError E ⊎ Client) × S
  unfolding resolve_loop
  resolve_with_fallback u requested_provider requested_model c s =
      resolve_loop 0 (fallback_candidates u entry requested_provider requested_model c) none s

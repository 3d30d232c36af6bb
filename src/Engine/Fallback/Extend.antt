-- ===== src/Engine/Fallback/Extend.antt =====
-- internal/engine/fallback.go: the steps of fallbackCandidates as one operation on lists.
use domour.Common.{
  Bool, true, false, not, ◌&&◌, ◌||◌, ◌≡◌, refl, ap, ap₂, sym, ◌∙◌, inl, inr, arith, List, [], ◌∷◌,
  ◌++◌, map, map-append, append_assoc, append-nil, all, filter, if◌then◌else◌, Bool-cases,
}
use domour.Common.Text.{Str, equal, equal_iff}
use domour.Common.Sort.{has, sort_strings}
use domour.Common.Unicode.{Unicode, to_lower, trim_space}
use domour.Common.Trim.{trim_space_twice}
use domour.Config.{DomourConfig, no_provider}
use domour.Config.Selection.{
  read, provider_model, provider_config, entry_provider, entry_model, default_provider_name,
  default_model_name,
}
use domour.Engine.Fallback.{Candidate, Found, first_or, add, add_configured, is_usable, add_rest}

abbrev pub providers_of : List Candidate → List Str
providers_of cands = map (λ cand. cand.provider) cands

-- Each candidate that names a provider, at the first place where its provider stands; those in
-- `seen` are left out.
abbrev pub firsts : List Str → List Candidate → List Candidate
firsts seen [] = []
firsts seen (cand ∷ cands) =
    let here = firsts (seen ++ (cand.provider ∷ [])) cands in
    let later = firsts seen cands in
    if equal cand.provider [] || has seen cand.provider then later else cand ∷ here

taken_not : (a b : Bool) → (a || b) ≡ true → (not a && not b) ≡ false
taken_not a b h = ground arith

free_not : (a b : Bool) → (a || b) ≡ false → (not a && not b) ≡ true
free_not a b h = ground arith

module _ (u : Unicode) where
  -- a provider with a model, or else with its own one
  abbrev pub with_default : DomourConfig → Str → Str → Candidate
  with_default c p m = record {
    provider = p;
    model = if equal m [] then provider_model u c p else m;
  }

  -- the requested provider, that of the entry, and the default one
  abbrev pub wanted : Str → Str → Str → DomourConfig → List Candidate
  wanted entry provider model c =
      with_default c (trim_space u provider) (trim_space u model)
      ∷ with_default c (entry_provider u c entry) (entry_model u c entry)
      ∷ with_default c (default_provider_name u c) (default_model_name u c)
      ∷ []

  -- the name of a provider of the configuration, with its first model
  abbrev pub of_name : DomourConfig → Str → Candidate
  of_name c name =
      let pc = read no_provider name c.providers in
      record { provider = name; model = trim_space u (first_or pc.model pc.models) }

  -- the names of the usable providers that are not in `seen`, in the order of strings
  abbrev pub others : List Str → DomourConfig → List Str
  others seen c = sort_strings (
      filter (λ n. not (has seen n))
        (map (λ e. to_lower u (trim_space u (e.0))) (filter (λ e. is_usable u (e.1)) c.providers)))

  -- a state of the code after more candidates
  abbrev pub extend : Found → List Candidate → Found
  extend s cands = record {
    seen = s.seen ++ providers_of (firsts s.seen cands);
    out = s.out ++ firsts s.seen cands;
  }

  abbrev pub found : List Str → List Candidate → Found
  found seen out = record { seen = seen; out = out }

  extend-nil : (s : Found) → s ≡ found (s.seen ++ []) (s.out ++ [])
  extend-nil s = ap₂ found (sym (append-nil s.seen)) (sym (append-nil s.out))

  abbrev one : Str → Str → List Candidate
  one p m = record { provider = p; model = m } ∷ []

  add-extend :
      (p m : Str) (s : Found) → add u p m s ≡ extend s (one (trim_space u p) (trim_space u m))
  unfolding add
  add-extend p m s = elim (Bool-cases (equal (trim_space u p) [] || has s.seen (trim_space u p))) [
    | inl e ↦ rw (e, add) (extend-nil s)
    | inr e ↦ rw (e, add) refl
  ]

  firsts-append :
      (seen : List Str) (xs ys : List Candidate)
      → firsts seen (xs ++ ys) ≡ firsts seen xs ++ firsts (seen ++ providers_of (firsts seen xs)) ys
  firsts-append seen [] ys = ap (λ t. firsts t ys) (sym (append-nil seen))
  firsts-append seen (x ∷ xs) ys = elim (Bool-cases (equal x.provider [] || has seen x.provider)) [
    | inl e ↦ rw e (firsts-append seen xs ys)
    | inr e ↦
        let seen' = seen ++ (x.provider ∷ []) in
        let later = firsts seen' xs in
        rw e (
          ap (◌∷◌ x) (
            firsts-append seen' xs ys
            ∙ ap (λ t. later ++ firsts t ys)
                (append_assoc seen (x.provider ∷ []) (providers_of later))))
  ]

  pub extend-append :
      (s : Found) (xs ys : List Candidate) → extend (extend s xs) ys ≡ extend s (xs ++ ys)
  extend-append s xs ys =
      let first = firsts s.seen xs in
      let next = firsts (s.seen ++ providers_of first) ys in
      ap₂ found
        (append_assoc s.seen (providers_of first) (providers_of next)
          ∙ ap (◌++◌ s.seen) (
              sym (map-append (λ cand. cand.provider) first next)
              ∙ ap providers_of (sym (firsts-append s.seen xs ys))))
        (append_assoc s.out first next ∙ ap (◌++◌ s.out) (sym (firsts-append s.seen xs ys)))

  provider_model_trimmed :
      (c : DomourConfig) (p : Str) → trim_space u (provider_model u c p) ≡ provider_model u c p
  unfolding provider_model
  provider_model_trimmed c p = trim_space_twice u ((provider_config u c p).model)

  pub add_configured-extend :
      (c : DomourConfig) (p m : Str) (s : Found)
      → trim_space u p ≡ p
      → trim_space u m ≡ m
      → add_configured u c p m s ≡ extend s (with_default c p m ∷ [])
  unfolding add_configured
  add_configured-extend c p m s tp tm = elim (Bool-cases (equal p [] || has s.seen p)) [
    | inl e ↦ rw (taken_not (equal p []) (has s.seen p) e, e, add_configured) (extend-nil s)
    | inr e ↦
        rw (free_not (equal p []) (has s.seen p) e, add_configured)
          (add-extend p ((with_default c p m).model) s
            ∙ ap₂ (λ q n. extend s (one q n)) tp (ground (arith, provider_model_trimmed c p, tm)))
  ]

  pub add_rest-extend :
      (c : DomourConfig) (names : List Str) (s : Found)
      → all (λ n. equal (trim_space u n) n) names ≡ true
      → add_rest u c names s ≡ extend s (map (of_name c) names)
  unfolding add_rest
  add_rest-extend c [] s h = extend-nil s
  add_rest-extend c (n ∷ names) s h =
      let pc = read no_provider n c.providers in
      ap (add_rest u c names) (
        add-extend n (first_or pc.model pc.models) s
        ∙ ap (λ q. extend s (one q (trim_space u (first_or pc.model pc.models))))
            ((equal_iff (trim_space u n) n).0 (ground arith)))
      ∙ add_rest-extend c names (extend s (of_name c n ∷ [])) (ground arith)
      ∙ extend-append s (of_name c n ∷ []) (map (of_name c) names)

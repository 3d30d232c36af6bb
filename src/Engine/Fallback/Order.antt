-- ===== src/Engine/Fallback/Order.antt =====
-- internal/engine/fallback.go: the candidates against a description of their order.
use domour.Common.{true, not, ◌≡◌, refl, ap, ap₂, ◌∙◌, arith, List, [], ◌∷◌, ◌++◌, map, all, filter}
use domour.Common.Text.{Str, equal, equal_iff}
use domour.Common.Assoc.{Assoc}
use domour.Common.Sort.{has, sort_strings, all-sort_strings}
use domour.Common.Unicode.{Unicode, to_lower, trim_space}
use domour.Common.Trim.{CaseLaws, trim_space_twice, Trimmed-trim_space}
use domour.Config.{ProviderConfig, DomourConfig, no_entry}
use domour.Config.Selection.{
  read, entry_provider, entry_model, normalize_provider_key, normalize_entry_key,
  default_provider_name, default_model_name,
}
use domour.Config.Selection.Keys.{normalize_provider_key-Trimmed, lowered-Trimmed, lower-trim_twice}
use domour.Engine.Fallback.{
  Candidate, Found, add, fill_first, add_configured, is_usable, rest_names, add_rest,
  fallback_candidates,
}
use domour.Engine.Fallback.Extend.{
  firsts, with_default, wanted, of_name, others, extend, found, extend-append,
  add_configured-extend, add_rest-extend,
}

module _ (u : Unicode) where
  fill_first-extend :
      (c : DomourConfig) (p m : Str)
      → fill_first u c (add u p m (found u [] []))
        ≡ extend u (found u [] []) (with_default u c (trim_space u p) (trim_space u m) ∷ [])
  unfolding fill_first add
  fill_first-extend c p m = ground arith

  rest_names-filter :
      (seen : List Str) (m : Assoc ProviderConfig)
      → rest_names u seen m
        ≡ filter
            (λ n. not (has seen n))
            (map (λ e. to_lower u (trim_space u (e.0))) (filter (λ e. is_usable u (e.1)) m))
  unfolding rest_names
  rest_names-filter seen [] = refl
  rest_names-filter seen ((name, pc) ∷ m) = ground (arith, rest_names-filter seen m)

  rest_names-trimmed :
      CaseLaws u
      → (seen : List Str) (m : Assoc ProviderConfig)
      → all (λ n. equal (trim_space u n) n) (rest_names u seen m) ≡ true
  unfolding rest_names
  rest_names-trimmed laws seen [] = refl
  rest_names-trimmed laws seen ((name, pc) ∷ m) =
      let n = to_lower u (trim_space u name) in
      ground (
        arith,
        rest_names-trimmed laws seen m,
        equal_iff (trim_space u n) n,
        Trimmed-trim_space u n (lowered-Trimmed u laws name),
      )

  entry_twice :
      CaseLaws u
      → (c : DomourConfig) (entry : Str)
      → let e = to_lower u (trim_space u entry) in
        (entry_provider u c e ≡ entry_provider u c entry)
        × (entry_model u c e ≡ entry_model u c entry)
  unfolding entry_provider entry_model normalize_entry_key
  entry_twice laws c entry = (
    ap (λ k. normalize_provider_key u ((read no_entry k c.entries).provider))
        (lower-trim_twice u laws entry),
    ap (λ k. trim_space u ((read no_entry k c.entries).model)) (lower-trim_twice u laws entry),
  )

  normalized_trimmed :
      CaseLaws u
      → (s : Str) → trim_space u (normalize_provider_key u s) ≡ normalize_provider_key u s
  normalized_trimmed laws s =
      Trimmed-trim_space u (normalize_provider_key u s) (normalize_provider_key-Trimmed u laws s)

  add_configured-wanted :
      CaseLaws u
      → (entry provider model : Str) (c : DomourConfig)
      → add_configured u c (default_provider_name u c) (default_model_name u c) (
          add_configured u c
            (entry_provider u c entry)
            (entry_model u c entry)
            (fill_first u c (add u provider model (found u [] []))))
        ≡ extend u (found u [] []) (wanted u entry provider model c)
  unfolding entry_provider entry_model default_provider_name default_model_name
  add_configured-wanted laws entry provider model c =
      let none_yet = found u [] [] in
      let first = with_default u c (trim_space u provider) (trim_space u model) ∷ [] in
      let ep = entry_provider u c entry in
      let em = entry_model u c entry in
      let dp = default_provider_name u c in
      let dm = default_model_name u c in
      let second = with_default u c ep em ∷ [] in
      let third = with_default u c dp dm ∷ [] in
      let config = read no_entry (normalize_entry_key u entry) c.entries in
      ap (λ s. add_configured u c dp dm (add_configured u c ep em s))
        (fill_first-extend c provider model)
      ∙ ap (add_configured u c dp dm) (
          add_configured-extend u c ep em (extend u none_yet first)
            (normalized_trimmed laws (config.provider)) (trim_space_twice u (config.model))
          ∙ extend-append u none_yet first second)
      ∙ add_configured-extend u c dp dm (extend u none_yet (first ++ second))
          (normalized_trimmed laws c.default_provider) (trim_space_twice u c.default_model)
      ∙ extend-append u none_yet (first ++ second) third

  add_rest-others :
      CaseLaws u
      → (c : DomourConfig) (s : Found)
      → (add_rest u c (sort_strings (rest_names u s.seen c.providers)) s).out
        ≡ s.out ++ firsts s.seen (map (of_name u c) (others u s.seen c))
  add_rest-others laws c s =
      let names = rest_names u s.seen c.providers in
      ap (λ t. t.out)
        (add_rest-extend u c (sort_strings names) s (
          all-sort_strings (λ n. equal (trim_space u n) n) names
          ∙ rest_names-trimmed laws s.seen c.providers))
      ∙ ap (λ ns. s.out ++ firsts s.seen (map (of_name u c) (sort_strings ns)))
          (rest_names-filter s.seen c.providers)

  -- The candidates are the requested provider, that of the entry and the default one, each once, if
  -- it is named, and then the other providers of the configuration that are enabled and have a key
  -- or an address, in the order of their names, each once. The first three have the model that goes
  -- with them, or else the provider's own one, and the others their first model. The provider of
  -- the entry and the default one need not be enabled.
  pub fallback_candidates-order :
      CaseLaws u
      → (entry provider model : Str) (c : DomourConfig)
      → let chosen = firsts [] (wanted u entry provider model c) in
        let seen = map (λ cand. cand.provider) chosen in
        fallback_candidates u entry provider model c
        ≡ chosen ++ firsts seen (map (of_name u c) (others u seen c))
  unfolding fallback_candidates
  fallback_candidates-order laws entry provider model c =
      let (same_provider, same_model) = entry_twice laws c entry in
      let with_rest : Found → List Candidate =
        λ s. (add_rest u c (sort_strings (rest_names u s.seen c.providers)) s).out in
      ap
        (λ s. with_rest (add_configured u c (default_provider_name u c) (default_model_name u c) s))
        (ap₂ (λ p m. add_configured u c p m (fill_first u c (add u provider model (found u [] []))))
          same_provider same_model)
      ∙ ap with_rest (add_configured-wanted laws entry provider model c)
      ∙ add_rest-others laws c (extend u (found u [] []) (wanted u entry provider model c))

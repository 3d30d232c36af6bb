-- ===== src/Config/Selection/Setters.antt =====
-- internal/config/config.go: what the getters return after a setter.
use domour.Common.{false, not, ◌&&◌, ◌≡◌, ◌≢◌, refl, ap, ◌∙◌, arith, if◌then◌else◌, []}
use domour.Common.Text.{Str, equal, equal_iff}
use domour.Common.Assoc.{Assoc, insert, lookup-insert}
use domour.Common.Unicode.{Unicode, trim_space}
use domour.Common.Trim.{CaseLaws, trim_space_twice}
use domour.Config.{EntryConfig, DomourConfig, no_provider, no_entry}
use domour.Config.Selection.{
  read, normalize_provider_key, normalize_entry_key, provider_config, provider_model,
  entry_provider, entry_model, set_provider_model, set_entry_selection,
}
use domour.Config.Selection.Keys.{normalize_provider_key_twice}

read-insert :
    {V : Type 0} (d v : V) (k j : Str) (m : Assoc V)
    → read d j (insert k v m) ≡ (if equal k j then v else read d j m)
read-insert d v k j m = ground (arith, lookup-insert k j v m)

module _ (u : Unicode) where
  provider_model-set :
      (c : DomourConfig) (provider model q : Str)
      → provider_model u (set_provider_model u c provider model) q ≡ (
          if equal (normalize_provider_key u provider) (normalize_provider_key u q)
            && not (equal (normalize_provider_key u provider) [])
          then trim_space u model
          else provider_model u c q)
  unfolding provider_model provider_config set_provider_model
  provider_model-set c provider model q =
      let key = normalize_provider_key u provider in
      ground (
        arith,
        trim_space_twice u model,
        read-insert no_provider
            (record (read no_provider key c.providers) { model = trim_space u model }) key
            (normalize_provider_key u q) c.providers,
      )

  set_provider_model-entries :
      (c : DomourConfig) (provider model : Str)
      → (set_provider_model u c provider model).entries ≡ c.entries
  unfolding set_provider_model
  set_provider_model-entries c provider model = ground arith

  module _ (c : DomourConfig) (entry provider model : Str) where
    -- the provider's own model, if both are given
    abbrev with_model : DomourConfig
    with_model =
        if not (equal (normalize_provider_key u provider) []) && not (equal (trim_space u model) [])
        then set_provider_model u c (normalize_provider_key u provider) model
        else c

    abbrev chosen : EntryConfig
    chosen = record {
      provider =
          if equal (normalize_provider_key u provider) []
          then (read no_entry (normalize_entry_key u entry) c.entries).provider
          else normalize_provider_key u provider;
      model = trim_space u model;
    }

    with_model-entries : with_model.entries ≡ c.entries
    with_model-entries =
        ground (arith, set_provider_model-entries c (normalize_provider_key u provider) model)

    after_selection :
        normalize_entry_key u entry ≢ []
        → set_entry_selection u c entry provider model ≡ record with_model {
          entries = insert (normalize_entry_key u entry) chosen with_model.entries;
        }
    unfolding set_entry_selection
    after_selection named =
        let e : equal (normalize_entry_key u entry) [] ≡ false =
          ground (arith, named, equal_iff (normalize_entry_key u entry) []) in
        rw (e, set_entry_selection) refl

  -- After a selection for an entry with a name: the entry has the provider, in its normal form and
  -- if one is named, and the model without the white space around it; the provider's own model is
  -- this one too, if both are given; all other entries and providers keep theirs.
  pub set_entry_selection-selected :
      CaseLaws u
      → (c : DomourConfig) (entry provider model e q : Str) → normalize_entry_key u entry ≢ []
      → let after = set_entry_selection u c entry provider model in
        let p = normalize_provider_key u provider in
        let here = equal (normalize_entry_key u entry) (normalize_entry_key u e) in
        (entry_provider u after e ≡ (if here && not (equal p []) then p else entry_provider u c e))
        × (entry_model u after e ≡ (if here then trim_space u model else entry_model u c e))
        × (provider_model u after q ≡ (
            if equal p (normalize_provider_key u q)
              && not (equal p [])
              && not (equal (trim_space u model) [])
            then trim_space u model
            else provider_model u c q))
  unfolding entry_provider entry_model provider_model provider_config
  set_entry_selection-selected laws c entry provider model e q named =
      let p = normalize_provider_key u provider in
      let here = equal (normalize_entry_key u entry) (normalize_entry_key u e) in
      let entries =
        insert (normalize_entry_key u entry) (chosen c entry provider model) c.entries in
      let same : set_entry_selection u c entry provider model
          ≡ record (with_model c entry provider model) { entries = entries } =
        after_selection c entry provider model named
        ∙ ap
            (λ es. record (with_model c entry provider model) {
              entries = insert (normalize_entry_key u entry) (chosen c entry provider model) es;
            })
            (with_model-entries c entry provider model) in
      let found =
        read-insert no_entry (chosen c entry provider model) (normalize_entry_key u entry)
          (normalize_entry_key u e) c.entries in
      (
        ap (λ c'. entry_provider u c' e) same
            ∙ ap (λ x. normalize_provider_key u (x.provider)) found
            ∙ ground (
              arith,
              normalize_provider_key_twice u laws provider,
              equal_iff (normalize_entry_key u entry) (normalize_entry_key u e),
            ),
        ap (λ c'. entry_model u c' e) same
            ∙ ap (λ x. trim_space u (x.model)) found
            ∙ ground (arith, trim_space_twice u model),
        ap (λ c'. provider_model u c' q) same
            ∙ ground (
              arith,
              provider_model-set c p model q,
              normalize_provider_key_twice u laws provider,
            ),
      )

-- ===== src/Config/Selection/Keys.antt =====
-- internal/config/config.go: a key that is normalised is its own normal form.
use domour.Common.{
  Bool, true, ◌&&◌, [], ◌∷◌, ◌≡◌, ◌⊎◌, subst, refl, ap, sym, ◌∙◌, inl, inr, arith, all,
}
use domour.Common.Text.{Str, equal, equal_iff}
use domour.Common.Assoc.{Assoc, lookup}
use domour.Common.Unicode.{Unicode, to_lower, trim_space, lower_rune, space_rune, trim_left}
use domour.Common.Trim.{
  CaseLaws, Trimmed, trim_space-Trimmed, Trimmed-trim_space, to_lower-Trimmed, to_lower_twice,
}
use domour.Config.Selection.{read, provider_aliases, canonical, normalize_provider_key}

module _ (u : Unicode) where
  -- lowering what is trimmed leaves it trimmed
  pub lowered-Trimmed : CaseLaws u → (s : Str) → Trimmed u (to_lower u (trim_space u s))
  lowered-Trimmed laws s = to_lower-Trimmed u laws (trim_space u s) (trim_space-Trimmed u s)

  pub lower-trim_twice :
      CaseLaws u
      → (s : Str)
      → to_lower u (trim_space u (to_lower u (trim_space u s))) ≡ to_lower u (trim_space u s)
  lower-trim_twice laws s =
      ap (to_lower u) (Trimmed-trim_space u (to_lower u (trim_space u s)) (lowered-Trimmed laws s))
      ∙ to_lower_twice u laws (trim_space u s)

  abbrev settled : Str → Bool
  settled s = equal (normalize_provider_key u s) s && equal (trim_space u s) s

  all-settled : all (λ e. settled (e.1)) provider_aliases ≡ true
  unfolding normalize_provider_key canonical lookup to_lower trim_space lower_rune space_rune
      trim_left equal
  all-settled = refl

  read-all :
      (p : Str → Bool) (m : Assoc Str) (d k : Str)
      → all (λ e. p (e.1)) m ≡ true
      → (read d k m ≡ d) ⊎ (p (read d k m) ≡ true)
  unfolding lookup
  read-all p [] d k h = inl refl
  read-all p ((j, w) ∷ m) d k h = ground (arith, read-all p m d k)

  canonical-cases : (k : Str) → (canonical k ≡ k) ⊎ (settled (canonical k) ≡ true)
  unfolding canonical
  canonical-cases k = read-all settled provider_aliases k k all-settled

  pub normalize_provider_key_twice :
      CaseLaws u
      → (s : Str)
      → normalize_provider_key u (normalize_provider_key u s) ≡ normalize_provider_key u s
  unfolding normalize_provider_key
  normalize_provider_key_twice laws s =
      let key = to_lower u (trim_space u s) in
      elim (canonical-cases key) [
        | inl e ↦ ap (normalize_provider_key u) e ∙ ap canonical (lower-trim_twice laws s)
        | inr h ↦
            ground (arith, equal_iff (normalize_provider_key u (canonical key)) (canonical key))
      ]

  pub normalize_provider_key-Trimmed :
      CaseLaws u → (s : Str) → Trimmed u (normalize_provider_key u s)
  unfolding normalize_provider_key
  normalize_provider_key-Trimmed laws s =
      let key = to_lower u (trim_space u s) in
      elim (canonical-cases key) [
        | inl e ↦ subst (Trimmed u) (sym e) (lowered-Trimmed laws s)
        | inr h ↦
            subst (Trimmed u)
              (ground (arith, equal_iff (trim_space u (canonical key)) (canonical key)))
              (trim_space-Trimmed u (canonical key))
      ]

-- ===== src/Copilot/Veto/Levels.antt =====
-- What each level of the engine lets through.
use mathlib.Core.List.{Memᴰ}
use domour.Common.{
  ◌≡◌, ◌↔◌, refl, sym, subst, true, false, List, [], ◌∷◌, none, arith, inl, inr, Bool-cases,
}
use domour.Common.Text.{Str, equal, equal_iff, index, contains}
use domour.Common.Unicode.{Unicode, to_lower}
use domour.Copilot.Veto.{
  Json, Engine, block_dangerous, strict, allow, dangerous_patterns, first_match,
  extract_command_string, is_shell, check_dangerous_command, check_deny_list, deny_match,
  in_allow_list, decide,
}

-- No dangerous pattern stands in the lowered command of a shell tool.
abbrev pub IsHarmless : Unicode → Str → Json → Type 0
IsHarmless u tool args =
    is_shell tool ≡ true
    → (p : Str) → Memᴰ p dangerous_patterns
    → contains (to_lower u (extract_command_string args)) p ≡ false

-- No entry of the deny list stands in the command, both lowered.
abbrev pub IsUndenied : Unicode → Engine → Json → Type 0
IsUndenied u e args =
    (d : Str)
    → Memᴰ d e.deny_list
    → contains (to_lower u (extract_command_string args)) (to_lower u d) ≡ false

first_match-none :
    (ps : List Str) (s : Str)
    → first_match ps s ≡ none
    → (p : Str) → Memᴰ p ps
    → contains s p ≡ false
unfolding first_match
first_match-none [] s e p m = elim m [ ]
first_match-none (q ∷ ps) s e p (Memᴰ.head h) =
    subst (λ x. contains s x ≡ false) (sym h) (ground arith)
first_match-none (q ∷ ps) s e p (Memᴰ.tail m) = first_match-none ps s (ground arith) p m

first_match-of_none :
    (ps : List Str) (s : Str)
    → ((p : Str) → Memᴰ p ps → contains s p ≡ false)
    → first_match ps s ≡ none
unfolding first_match
first_match-of_none [] s h = refl
first_match-of_none (q ∷ ps) s h =
    rw (h q (Memᴰ.head refl)) (first_match-of_none ps s (λ p m. h p (Memᴰ.tail m)))

module _ (u : Unicode) where
  deny_match-none :
      (ds : List Str) (s : Str)
      → deny_match u ds s ≡ none
      → (d : Str) → Memᴰ d ds
      → contains s (to_lower u d) ≡ false
  unfolding deny_match
  deny_match-none [] s e p m = elim m [ ]
  deny_match-none (q ∷ ps) s e p (Memᴰ.head h) =
      subst (λ x. contains s (to_lower u x) ≡ false) (sym h) (ground arith)
  deny_match-none (q ∷ ps) s e p (Memᴰ.tail m) = deny_match-none ps s (ground arith) p m

  deny_match-of_none :
      (ds : List Str) (s : Str)
      → ((d : Str) → Memᴰ d ds → contains s (to_lower u d) ≡ false)
      → deny_match u ds s ≡ none
  unfolding deny_match
  deny_match-of_none [] s h = refl
  deny_match-of_none (q ∷ ps) s h =
      rw (h q (Memᴰ.head refl)) (deny_match-of_none ps s (λ p m. h p (Memᴰ.tail m)))

  -- The early return for an empty command agrees with the search.
  empty_harmless : first_match dangerous_patterns (to_lower u []) ≡ none
  unfolding first_match contains index to_lower
  empty_harmless = refl

  check_dangerous-none :
      (tool : Str) (args : Json)
      → check_dangerous_command u tool args ≡ none
      → IsHarmless u tool args
  unfolding check_dangerous_command
  check_dangerous-none tool args e shell =
      let cmd = extract_command_string args in
      elim (Bool-cases (equal cmd [])) [
        | inl is_empty ↦ first_match-none dangerous_patterns (to_lower u cmd) (
            subst {A = Str} (λ c. first_match dangerous_patterns (to_lower u c) ≡ none)
              (sym ((equal_iff (extract_command_string args) []).0 is_empty)) empty_harmless)
        | inr filled ↦ first_match-none dangerous_patterns (to_lower u cmd) (ground arith)
      ]

  check_dangerous-of_none :
      (tool : Str) (args : Json)
      → IsHarmless u tool args
      → check_dangerous_command u tool args ≡ none
  unfolding check_dangerous_command
  check_dangerous-of_none tool args h = elim (Bool-cases (is_shell tool)) [
    | inl shell ↦
        rw
          (first_match-of_none dangerous_patterns (to_lower u (extract_command_string args))
            (h shell))
          (ground arith)
    | inr other_tool ↦ ground arith
  ]

  check_deny-none :
      (e : Engine) (args : Json) → check_deny_list u e args ≡ none → IsUndenied u e args
  unfolding check_deny_list
  check_deny-none e args n =
      deny_match-none e.deny_list (to_lower u (extract_command_string args)) (ground arith)

  check_deny-of_none :
      (e : Engine) (args : Json) → IsUndenied u e args → check_deny_list u e args ≡ none
  unfolding check_deny_list
  check_deny-of_none e args h =
      rw
        (
          deny_match-of_none e.deny_list (to_lower u (extract_command_string args)) h,
          check_deny_list,
        )
        refl

  -- At the level BlockDangerous a call is allowed exactly when no dangerous pattern stands in the
  -- lowered command of a shell tool and no entry of the deny list stands in the lowered command of
  -- any tool.
  pub block_dangerous-allows :
      (e : Engine) (tool : Str) (args : Json)
      → (decide u block_dangerous e tool args ≡ allow)
        ↔ (IsHarmless u tool args × IsUndenied u e args)
  unfolding decide
  block_dangerous-allows e tool args = (
    λ ok. (check_dangerous-none tool args (ground arith), check_deny-none e args (ground arith)),
    λ (harmless, undenied).
        rw (check_dangerous-of_none tool args harmless, check_deny-of_none e args undenied, decide)
          refl,
  )

  -- At the level Strict a call is allowed exactly when some entry of the allow list equals the
  -- tool's name up to case and no dangerous pattern stands in the lowered command of a shell tool:
  -- the deny list has no say.
  pub strict-allows :
      (e : Engine) (tool : Str) (args : Json)
      → (decide u strict e tool args ≡ allow)
        ↔ ((in_allow_list u e tool ≡ true) × IsHarmless u tool args)
  unfolding decide
  strict-allows e tool args = (
    λ ok. (ground arith, check_dangerous-none tool args (ground arith)),
    λ (allowed, harmless). rw (allowed, check_dangerous-of_none tool args harmless, decide) refl,
  )

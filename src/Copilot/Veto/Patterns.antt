-- ===== src/Copilot/Veto/Patterns.antt =====
-- Which of the dangerous patterns can stop a command: the command is lowered before it is searched.
use domour.Common.{
  ℕ, ◌≡◌, refl, true, false, List, [], ◌∷◌, arith, any, inl, inr, Bool-cases, Option-cases,
  if◌then◌else◌,
}
use domour.Common.Text.{Str, codes, index, contains}
use domour.Common.Text.Match.{any-index}
use domour.Common.Unicode.{Unicode, is_upper, to_lower, to_lower-not-upper}
use domour.Copilot.Veto.{dangerous_patterns, first_match}

abbrev live : List Str → List Str
live [] = []
live (p ∷ ps) = if any is_upper p then live ps else p ∷ live ps

module _ (u : Unicode) (lowers : (c : ℕ) → is_upper (u.lower c) ≡ false) where
  upper-never : (cmd p : Str) → any is_upper p ≡ true → contains (to_lower u cmd) p ≡ false
  unfolding contains
  upper-never cmd p up = elim (Option-cases (index (to_lower u cmd) p)) [
    | inl miss ↦ rw (miss, contains)
    | inr (i, hit) ↦
        absurd
          (cc (any-index is_upper (to_lower u cmd) p i hit up, to_lower-not-upper u lowers cmd))
  ]

  first_match-live :
      (ps : List Str) (cmd : Str)
      → first_match ps (to_lower u cmd) ≡ first_match (live ps) (to_lower u cmd)
  unfolding first_match
  first_match-live [] cmd = refl
  first_match-live (p ∷ ps) cmd = elim (Bool-cases (any is_upper p)) [
    | inl up ↦ rw (up, live, upper-never cmd p up) (first_match-live ps cmd)
    | inr low ↦ rw (low, live) (ground (arith, first_match-live ps cmd))
  ]

  -- The patterns "chmod -R 777 /" and "chown -R root /" have no effect: whatever the command, the
  -- search finds in the lowered text what it finds without them. (No letter that lowering yields
  -- from a code point outside ASCII is a capital of ASCII.)
  pub two_patterns-dead :
      (cmd : Str)
      → first_match dangerous_patterns (to_lower u cmd)
        ≡ first_match
            (codes "rm -rf /"
              ∷ codes "rm -rf /*"
              ∷ codes "rm -rf ~"
              ∷ codes "rm -fr /"
              ∷ codes ":(){ :|:& };:"
              ∷ codes "mkfs"
              ∷ codes "dd if="
              ∷ codes "> /dev/sda"
              ∷ codes "> /dev/disk"
              ∷ codes "shred /dev"
              ∷ codes "chmod 000 /"
              ∷ [])
            (to_lower u cmd)
  two_patterns-dead cmd = first_match-live dangerous_patterns cmd

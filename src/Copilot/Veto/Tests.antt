-- ===== src/Copilot/Veto/Tests.antt =====
-- Calls that the engine allows and denies.
use domour.Common.{◌≡◌, ◌↔◌, refl, [], ◌∷◌, none}
use domour.Common.Text.{Str, codes, equal, index, contains}
use domour.Common.Unicode.{ascii, ascii-lowers, to_lower, lower_rune, equal_fold, fold_rune}
use domour.Copilot.Veto.{
  Json, obj, field, end, str, Engine, block_dangerous, strict, allow, deny, deny_list_entry,
  dangerous_patterns, first_match, extract_command_string, command_in, member, is_shell,
  check_dangerous_command, check_deny_list, deny_match, in_allow_list, decide,
}
use domour.Copilot.Veto.Patterns.{two_patterns-dead}
use domour.Copilot.Veto.Levels.{IsHarmless, IsUndenied, block_dangerous-allows}

abbrev command : Str → Json
command s = obj (field (codes "command") (str s) end)

abbrev engine : Engine
engine = record { level = strict; allow_list = codes "Bash" ∷ []; deny_list = codes "curl" ∷ [] }

abbrev wide_open : Str
wide_open = codes "chmod -R 777 /"

wide_open-allowed : decide ascii strict engine (codes "bash") (command wide_open) ≡ allow
unfolding decide in_allow_list equal_fold fold_rune equal check_dangerous_command is_shell
    extract_command_string command_in member first_match contains index to_lower lower_rune
wide_open-allowed = refl

curl-denied :
    decide ascii block_dangerous engine (codes "fetch") (command (codes "CURL x"))
    ≡ deny (deny_list_entry (codes "curl"))
unfolding decide equal check_dangerous_command check_deny_list deny_match is_shell
    extract_command_string command_in member contains index to_lower lower_rune
curl-denied = refl

curl-allowed : decide ascii strict engine (codes "bash") (command (codes "curl x")) ≡ allow
unfolding decide in_allow_list equal_fold fold_rune equal check_dangerous_command is_shell
    extract_command_string command_in member first_match contains index to_lower lower_rune
curl-allowed = refl

block_dangerous-allows_example :
    (decide ascii block_dangerous engine (codes "bash") (command wide_open) ≡ allow) ↔ (
      IsHarmless ascii (codes "bash") (command wide_open)
      × IsUndenied ascii engine (command wide_open))
block_dangerous-allows_example =
    block_dangerous-allows ascii engine (codes "bash") (command wide_open)

two_patterns-dead_example : first_match dangerous_patterns (to_lower ascii wide_open) ≡ none
unfolding first_match contains index to_lower lower_rune equal
two_patterns-dead_example = two_patterns-dead ascii ascii-lowers wide_open

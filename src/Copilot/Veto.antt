-- ===== src/Copilot/Veto.antt =====
-- internal/bionic/tool/copilot/veto.go: the engine that allows or denies each tool call. Texts are
-- lists of code points. A `toolArgs any` is a decoded JSON value; numbers are never looked at.
pub mod Levels
pub mod Patterns
mod Tests
use domour.Common.{
  ℕ, Bool, true, false, not, ◌&&◌, ◌||◌, Option, none, some, List, [], ◌∷◌, if◌then◌else◌, any,
}
use domour.Common.Text.{Str, codes, equal, contains}
use domour.Common.Unicode.{Unicode, to_lower, equal_fold, trim_space}

mutual
  pub data Json : Type 0 where
    null : Json
    bool : Bool → Json
    num : ℕ → Json
    str : Str → Json
    arr : Items → Json
    obj : Fields → Json

  pub data Items : Type 0 where
    nil : Items
    cons : Json → Items → Items

  pub data Fields : Type 0 where
    end : Fields
    field : Str → Json → Fields → Fields

-- The iota constants, and every other int.
pub data Level : Type 0 where
  allow_all block_dangerous strict : Level
  other : ℕ → Level

-- HookPayload, the fields that the engine reads; a missing `any` is `null`.
pub record Payload : Type 0 where
  pub tool_name : Str
  pub tool_args : Json
  pub tool_name_snake : Str
  pub tool_input_snake : Json

-- The texts that `fmt` makes for PermissionDecisionReason, with what they quote.
pub data Reason : Type 0 where
  dangerous_pattern : Str → Reason
  deny_list_entry : Str → Reason
  not_in_allow_list : Str → Reason

-- VetoDecision; ModifiedArgs is never set.
pub data Decision : Type 0 where
  allow : Decision
  deny : Reason → Decision

pub record Engine : Type 0 where
  pub level : Level
  pub allow_list : List Str
  pub deny_list : List Str

unfoldable pub effective_tool_name : Payload → Str
unfolding equal
effective_tool_name p = if not (equal p.tool_name []) then p.tool_name else p.tool_name_snake

unfoldable pub effective_tool_args : Payload → Json
effective_tool_args p = elim p.tool_args [ null ↦ p.tool_input_snake | args ↦ args ]

abbrev pub dangerous_patterns : List Str
dangerous_patterns =
    codes "rm -rf /"
    ∷ codes "rm -rf /*"
    ∷ codes "rm -rf ~"
    ∷ codes "rm -fr /"
    ∷ codes ":(){ :|:& };:"
    ∷ codes "mkfs"
    ∷ codes "dd if="
    ∷ codes "> /dev/sda"
    ∷ codes "> /dev/disk"
    ∷ codes "shred /dev"
    ∷ codes "chmod -R 777 /"
    ∷ codes "chmod 000 /"
    ∷ codes "chown -R root /"
    ∷ []

-- m[key]; a later entry of an object replaces an earlier one.
unfoldable pub member : Str → Fields → Option Json
member key end = none
member key (field k v fs) = elim (member key fs) [
  | some w ↦ some w
  | none ↦ if equal k key then some v else none
]

abbrev as_string : Option Json → Option Str
as_string (some (str s)) = some s
as_string _ = none

-- The loop over the key names: the first that has a string.
unfoldable pub command_in : List Str → Fields → Option Str
unfolding member
command_in [] fs = none
command_in (key ∷ keys) fs = elim (as_string (member key fs)) [
  | some s ↦ some s
  | none ↦ command_in keys fs
]

abbrev command_keys : List Str
command_keys = codes "command" ∷ codes "cmd" ∷ codes "input" ∷ codes "bash" ∷ []

-- The value encoded and decoded again, as a map.
unfoldable pub reencoded : Json → Str
unfolding command_in
reencoded (obj fs) = elim (command_in command_keys fs) [ some s ↦ s | none ↦ [] ]
reencoded _ = []

unfoldable pub extract_command_string : Json → Str
unfolding command_in reencoded
extract_command_string null = []
extract_command_string (str s) = s
extract_command_string (obj fs) = elim (command_in command_keys fs) [
  | some s ↦ s
  | none ↦ reencoded (obj fs)
]
extract_command_string v = reencoded v

-- The first of the patterns that stands in the text.
unfoldable pub first_match : List Str → Str → Option Str
first_match [] s = none
first_match (p ∷ ps) s = if contains s p then some p else first_match ps s

unfoldable pub is_shell : Str → Bool
unfolding equal
is_shell t = equal t (codes "bash") || equal t (codes "shell") || equal t (codes "powershell")

module _ (u : Unicode) where
  unfoldable pub check_dangerous_command : Str → Json → Option Reason
  check_dangerous_command tool args =
      if not (is_shell tool)
      then none
      else let cmd = extract_command_string args in
        if equal cmd [] then none else elim (first_match dangerous_patterns (to_lower u cmd)) [
          | some p ↦ some (dangerous_pattern p)
          | none ↦ none
        ]

  -- The loop over the deny list; an entry is lowered, and quoted as it stands in the list.
  unfoldable pub deny_match : List Str → Str → Option Str
  deny_match [] cmd = none
  deny_match (d ∷ ds) cmd = if contains cmd (to_lower u d) then some d else deny_match ds cmd

  unfoldable pub check_deny_list : Engine → Json → Option Reason
  unfolding deny_match
  check_deny_list e args =
      elim (deny_match e.deny_list (to_lower u (extract_command_string args))) [
        | some d ↦ some (deny_list_entry d)
        | none ↦ none
      ]

  unfoldable pub in_allow_list : Engine → Str → Bool
  in_allow_list e tool = any (λ allowed. equal_fold u allowed tool) e.allow_list

  -- The body of Evaluate, on the effective name and arguments.
  unfoldable pub decide : Level → Engine → Str → Json → Decision
  decide allow_all e tool args = allow
  decide block_dangerous e tool args = elim (check_dangerous_command tool args) [
    | some r ↦ deny r
    | none ↦ elim (check_deny_list e args) [ some r ↦ deny r | none ↦ allow ]
  ]
  decide strict e tool args =
      if not (in_allow_list e tool)
      then deny (not_in_allow_list tool)
      else elim (check_dangerous_command tool args) [ some r ↦ deny r | none ↦ allow ]
  decide (other n) e tool args = allow

  unfoldable pub evaluate : Engine → Payload → Decision
  unfolding effective_tool_name effective_tool_args
  evaluate e p = decide e.level e (effective_tool_name p) (effective_tool_args p)

  -- EvaluateJSON; `none` is a payload that does not parse.
  unfoldable pub evaluate_json : Engine → Option Payload → Decision
  evaluate_json e none = allow
  evaluate_json e (some p) = evaluate e p

  unfoldable pub parse_veto_level : Str → Level
  parse_veto_level s =
      let t = to_lower u (trim_space u s) in
      if equal t (codes "block_dangerous") || equal t (codes "block-dangerous")
      then block_dangerous
      else if equal t (codes "strict")
      then strict
      else allow_all

-- VetoLevel.String
unfoldable pub level_name : Level → Str
level_name block_dangerous = codes "block_dangerous"
level_name strict = codes "strict"
level_name _ = codes "allow_all"

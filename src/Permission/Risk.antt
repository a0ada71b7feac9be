-- ===== src/Permission/Risk.antt =====
-- ClassifyCommand of internal/tools/permission.go: the advisory label of a command.
use eino_local_assistant.Prelude.{
  ℕ, Bool, false, ◌&&◌, ◌||◌, Option, none, some, List, [], ◌∷◌, ◌==◌, any, if◌then◌else◌, Text,
  codes, text_eq, to_lower, equal_fold,
}
use eino_local_assistant.Permission.Shell.{shell_command_parts}

pub data RiskLevel : Type 0 where
  low medium high : RiskLevel

-- strings.HasPrefix with one character, and strings.Contains of one.
abbrev starts_with : ℕ → Text → Bool
starts_with c [] = false
starts_with c (d ∷ ds) = d == c

abbrev contains : ℕ → Text → Bool
contains c = any (λ d. d == c)

unfoldable pub is_redirection : Text → Bool
is_redirection o =
    starts_with b'>' o || starts_with b'<' o || text_eq o (codes "$(") || text_eq o (codes "`")

-- An argument of rm that may recurse or force.
abbrev forceful : Text → Bool
forceful a = contains b'r' a || contains b'R' a || contains b'f' a || contains b'F' a

-- The part of the test that looks at what follows the command.
unfoldable pub destroys : Text → List Text → Bool
destroys command arguments =
    (text_eq command (codes "rm") && any forceful arguments) || (elim arguments [
      | [] ↦ text_eq command (codes "chmod") || text_eq command (codes "chown")
      | subcommand ∷ _ ↦
          if text_eq command (codes "git")
          then (let lowered = to_lower subcommand in
              text_eq lowered (codes "reset")
              || text_eq lowered (codes "clean")
              || text_eq lowered (codes "restore"))
          else text_eq command (codes "chmod") || text_eq command (codes "chown")
    ])

unfoldable pub command_is_high_risk : List Text → Bool
command_is_high_risk [] = false
command_is_high_risk (name ∷ arguments) =
    let command = to_lower name in
    text_eq command (codes "sudo")
    || text_eq command (codes "mkfs")
    || text_eq command (codes "dd")
    || destroys command arguments

abbrev pub readers : List Text
readers =
    codes "pwd"
    ∷ codes "ls"
    ∷ codes "cat"
    ∷ codes "head"
    ∷ codes "tail"
    ∷ codes "rg"
    ∷ codes "grep"
    ∷ codes "find"
    ∷ []

abbrev pub git_readers : List Text
git_readers = codes "status" ∷ codes "diff" ∷ codes "log" ∷ codes "show" ∷ []

-- The first argument, compared without regard to case, under the given command.
abbrev subcommand_in : Text → Text → List Text → List Text → Bool
subcommand_in command name [] names = false
subcommand_in command name (a ∷ _) names = text_eq command name && any (equal_fold a) names

unfoldable pub command_is_read_only : List Text → Bool
command_is_read_only [] = false
command_is_read_only (name ∷ arguments) =
    let command = to_lower name in
    any (text_eq command) readers
    || subcommand_in command (codes "git") arguments git_readers
    || subcommand_in command (codes "go") arguments (codes "test" ∷ codes "vet" ∷ [])

unfoldable pub has_pipe : List Text → Bool
has_pipe = any (λ o. text_eq o (codes "|"))

abbrev pub shells : List Text
shells = codes "sh" ∷ codes "bash" ∷ codes "zsh" ∷ codes "fish" ∷ codes "dash" ∷ []

unfoldable pub last_command_is_shell : List (List Text) → Bool
last_command_is_shell [] = false
last_command_is_shell ([] ∷ []) = false
last_command_is_shell ((name ∷ _) ∷ []) = any (text_eq (to_lower name)) shells
last_command_is_shell (_ ∷ rest) = last_command_is_shell rest

-- The label of a command that was split.
unfoldable pub classify_parts : List (List Text) → List Text → RiskLevel
classify_parts [] operators = medium
classify_parts (segment ∷ rest) operators =
    if any is_redirection operators
    then high
    else if any command_is_high_risk (segment ∷ rest)
    then high
    else if has_pipe operators && last_command_is_shell (segment ∷ rest)
    then high
    else elim rest [
      | [] ↦ elim operators [
        | [] ↦ if command_is_read_only segment then low else medium
        | _ ∷ _ ↦ medium
      ]
      | _ ∷ _ ↦ medium
    ]

abbrev pub by_parts : Option (List (List Text) × List Text) → RiskLevel
by_parts none = medium
by_parts (some (segments, operators)) = classify_parts segments operators

unfoldable pub classify_command : Text → RiskLevel
classify_command command = by_parts (shell_command_parts command)

-- ===== src/Shell/Tests.antt =====
-- Concrete lines for src/shell.c.
use nycu_osdi.Prelude.{◌≡◌, refl, none, some, List, ℕ, [], ◌∷◌, arith}
use nycu_osdi.Strings.{strtok, strtok_from}
use nycu_osdi.Shell.{Command, parse_cmd, parse_args}
use nycu_osdi.Shell.Words.{parse_cmd-Words}

abbrev no_command : Command
no_command = record { name = none; args = [] }

-- "ls a b"
abbrev words : List (List ℕ)
words = (97 ∷ []) ∷ (98 ∷ []) ∷ []

parse_cmd-Words_example :
    parse_cmd 2 (some (108 ∷ 115 ∷ 32 ∷ 97 ∷ 32 ∷ 98 ∷ [])) none no_command
    ≡ some (record { result = 0; cmd = record { name = some (108 ∷ 115 ∷ []); args = words } })
parse_cmd-Words_example =
    parse_cmd-Words 2 (108 ∷ 115 ∷ []) words none no_command (omega arith)
      (refl, (λ e. cc), (refl, (λ e. cc), (refl, (λ e. cc), tt)))

-- An empty line leaves the name NULL, which the shell then compares.
empty_line : parse_cmd 1 (some []) none no_command ≡ some (record { result = 0; cmd = no_command })
unfolding parse_cmd parse_args strtok strtok_from
empty_line = refl

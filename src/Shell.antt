-- ===== src/Shell.antt =====
-- src/shell.c: `parse_cmd`, over `strtok` of src/string.c.
pub mod Words
mod Tests
use nycu_osdi.Prelude.{
  ℕ, zero, suc, ◌+◌, Option, none, some, List, [], ◌∷◌, ◌++◌, leb, length, if◌then◌else◌,
}
use nycu_osdi.Strings.{strtok}

abbrev pub max_args : ℕ
max_args = 8

-- ' '
abbrev pub space : ℕ
space = 32

-- `struct Command`: the name, none for NULL, and the first `argc` entries of `args`.
pub record Command : Type 0 where
  pub name : Option (List ℕ)
  pub args : List (List ℕ)

-- The result and the command.
pub record ParseResult : Type 0 where
  pub result : ℕ
  pub cmd : Command

-- What `parse_cmd` does with what `strtok(NULL, ' ')` returns, and the loop behind it; none is rounds
-- that do not suffice. The static pointer of `strtok` is `p`.
unfoldable pub parse_args :
    (rounds : ℕ) → Option (List ℕ) × Option (List ℕ) → Command → Option ParseResult
parse_args n (none, p) cmd = some (record { result = 0; cmd = cmd })
parse_args zero (some arg, p) cmd = none
parse_args (suc n) (some arg, p) cmd =
    let rest = parse_args n (strtok none space p) (record cmd { args = cmd.args ++ (arg ∷ []) }) in
    if leb max_args (length cmd.args) then some (record { result = 2; cmd = cmd }) else rest

-- `p` is the static pointer before the call; a call with NULL leaves the command.
unfoldable pub parse_cmd :
    (rounds : ℕ) → Option (List ℕ) → (p : Option (List ℕ)) → Command → Option ParseResult
parse_cmd n none p cmd = some (record { result = 1; cmd = cmd })
parse_cmd n (some str) p cmd =
    let first = strtok (some str) space p in
    parse_args n (strtok none space first.1) (record { name = first.0; args = [] })

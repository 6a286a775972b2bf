-- ===== src/Shell/Words.antt =====
-- src/shell.c: `parse_cmd` takes a line apart into its words.
use nycu_osdi.Prelude.{
  Bool-cases, inl, inr, take, ℕ, zero, suc, ◌≤◌, ◌≡◌, ◌≢◌, ◌∙◌, refl, ap, false, true, Option, none,
  some, List, [], ◌∷◌, ◌++◌, arith, leb, length, length-append, append_assoc, append_nil, has,
  if◌then◌else◌,
}
use nycu_osdi.Strings.{strtok}
use nycu_osdi.Strings.Tokens.{joined, rest_of, strtok_lem, strtok-done}
use nycu_osdi.Shell.{max_args, space, Command, ParseResult, parse_args, parse_cmd}

-- Words with one space between them, none for no words.
abbrev pub line : List (List ℕ) → Option (List ℕ)
line [] = none
line (w ∷ words) = some (joined w space (line words))

abbrev pub Words : List (List ℕ) → Type 0
Words [] = Unit {0}
Words (w ∷ words) = (has space w ≡ false) × (w ≢ []) × Words words

joined-ne : (w : List ℕ) (rest : Option (List ℕ)) → w ≢ [] → joined w space rest ≢ []
joined-ne [] rest ne = absurd (ne refl)
joined-ne (c ∷ w) none ne = λ e. cc
joined-ne (c ∷ w) (some rest) ne = λ e. cc

-- The next call of `strtok`, by the words that are left.
abbrev next : List (List ℕ) → Option (List ℕ) × Option (List ℕ)
next words = strtok none space (some (rest_of (line words)))

next_nil : next [] ≡ (none, some [])
next_nil = (strtok-done space).0

next_cons :
    (w : List ℕ) (words : List (List ℕ))
    → Words (w ∷ words)
    → next (w ∷ words) ≡ (some w, some (rest_of (line words)))
next_cons w words ok = (strtok_lem space w (line words) none ok.0 (joined-ne w (line words) ok.1)).1

abbrev with_args : Option (List ℕ) → List (List ℕ) → Command
with_args name args = record { name = name; args = args }

parse_args-nil :
    (n : ℕ) (name : Option (List ℕ)) (args : List (List ℕ))
    → parse_args n (next []) (with_args name args)
      ≡ some (record { result = 0; cmd = with_args name args })
unfolding parse_args
parse_args-nil zero name args = rw next_nil refl
parse_args-nil (suc n) name args = rw next_nil refl

parse_args-cons :
    (n : ℕ) (w : List ℕ) (words : List (List ℕ)) (name : Option (List ℕ)) (args : List (List ℕ))
    → Words (w ∷ words)
    → parse_args (suc n) (next (w ∷ words)) (with_args name args) ≡ (
        if leb max_args (length args)
        then some (record { result = 2; cmd = with_args name args })
        else parse_args n (next words) (with_args name (args ++ (w ∷ []))))
unfolding parse_args
parse_args-cons n w words name args ok =
    ap (λ r. parse_args (suc n) r (with_args name args)) (next_cons w words ok) ∙ refl

-- What is parsed of the arguments: all of them, or the first eight and the result 2.
abbrev pub parsed : Option (List ℕ) → (args words : List (List ℕ)) → ParseResult
parsed name args [] = record { result = 0; cmd = with_args name args }
parsed name args (w ∷ words) =
    if leb max_args (length args)
    then record { result = 2; cmd = with_args name args }
    else parsed name (args ++ (w ∷ [])) words

parse_args_lem :
    (n : ℕ) (words : List (List ℕ)) (name : Option (List ℕ)) (args : List (List ℕ))
    → length words ≤ n
    → Words words
    → parse_args n (next words) (with_args name args) ≡ some (parsed name args words)
parse_args_lem n [] name args le ok = parse_args-nil n name args
parse_args_lem zero (w ∷ words) name args le ok = absurd (omega (arith, le))
parse_args_lem (suc n) (w ∷ words) name args le ok =
    parse_args-cons n w words name args ok
    ∙ ground (arith, parse_args_lem n words name (args ++ (w ∷ [])) (omega (arith, le)) ok.2)

take-append : (n : ℕ) (xs ys : List (List ℕ)) → length xs ≡ n → take n (xs ++ ys) ≡ xs
take-append zero [] ys e = refl
take-append zero (x ∷ xs) ys e = absurd (omega (arith, e))
take-append (suc n) [] ys e = absurd (omega (arith, e))
take-append (suc n) (x ∷ xs) ys e = ap (λ l. x ∷ l) (take-append n xs ys (omega (arith, e)))

take-all : (n : ℕ) (xs : List (List ℕ)) → length xs ≤ n → take n xs ≡ xs
take-all zero [] le = refl
take-all zero (x ∷ xs) le = absurd (omega (arith, le))
take-all (suc n) [] le = refl
take-all (suc n) (x ∷ xs) le = ap (λ l. x ∷ l) (take-all n xs (omega (arith, le)))

-- Zero and all words if they fit, else 2 and the first eight.
abbrev pub outcome : Option (List ℕ) → List (List ℕ) → ParseResult
outcome name words = record {
  result = if leb (length words) max_args then 0 else 2;
  cmd = with_args name (take max_args words);
}

parsed_lem :
    (name : Option (List ℕ)) (args words : List (List ℕ))
    → length args ≤ max_args
    → parsed name args words ≡ outcome name (args ++ words)
parsed_lem name args [] le =
    let fits : leb (length (args ++ [])) max_args ≡ true = ground (arith, append_nil args, le) in
    rw (fits, append_nil args, take-all 8 args le) refl
parsed_lem name args (w ∷ words) le = elim (Bool-cases (leb max_args (length args))) [
  | inl full ↦
      (let n : length args ≡ 8 = ground arith in
        let long : leb (length (args ++ (w ∷ words))) max_args ≡ false =
          ground (arith, length-append args (w ∷ words)) in
        rw (full, long, take-append 8 args (w ∷ words) n) refl)
  | inr room ↦ rw room (
      parsed_lem name (args ++ (w ∷ [])) words (ground (arith, length-append args (w ∷ [])))
      ∙ ap (outcome name) (append_assoc args (w ∷ []) words))
]

-- Of a line of words with one space between them, `parse_cmd`, with as many rounds as there are words,
-- ends, and gives the first as the name and the others as the arguments; of more than eight arguments
-- it gives the first eight and the result 2.
pub parse_cmd-Words :
    (n : ℕ) (name : List ℕ) (words : List (List ℕ)) (p : Option (List ℕ)) (cmd : Command)
    → length words ≤ n
    → Words (name ∷ words)
    → parse_cmd n (line (name ∷ words)) p cmd ≡ some (outcome (some name) words)
unfolding parse_cmd
parse_cmd-Words n name words p cmd le ok =
    let first = (strtok_lem space name (line words) p ok.0 (joined-ne name (line words) ok.1)).0 in
    ap (λ r. parse_args n (strtok none space r.1) (with_args r.0 [])) first
    ∙ parse_args_lem n words (some name) [] le ok.2
    ∙ ap (λ r. some r) (parsed_lem (some name) [] words (omega arith))

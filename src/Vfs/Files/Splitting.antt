-- ===== src/Vfs/Files/Splitting.antt =====
-- src/fs_vfs.c: how `vfs_open` and `vfs_mkdir` split a path at its last slash.
use nycu_osdi.Prelude.{
  ℕ, zero, suc, ◌+◌, ◌≡◌, ◌≢◌, ◌∙◌, refl, sym, ap, true, false, none, some, List, [], ◌∷◌, ◌++◌,
  arith, ◌==◌, has, length, length-append, get_or, take, drop,
}
use nycu_osdi.Vfs.Files.{last_slash, basename}

get_or-has : (xs : List ℕ) (j : ℕ) → has 47 xs ≡ false → get_or xs j 0 ≢ 47
get_or-has [] j h = ground arith
get_or-has (x ∷ xs) zero h = ground arith
get_or-has (x ∷ xs) (suc j) h = get_or-has xs j (ground arith)

-- Without a slash the loop runs to the end.
pub last_slash-none : (n : ℕ) (path : List ℕ) → has 47 path ≡ false → last_slash n path ≡ none
unfolding last_slash
last_slash-none zero path h = refl
last_slash-none (suc n) path h =
    let other : (get_or path n 0 == 47) ≡ false = ground (arith, get_or-has path n h) in
    rw other (last_slash-none n path h)

get_or-append : (xs ys : List ℕ) (k : ℕ) → get_or (xs ++ ys) (k + length xs) 0 ≡ get_or ys k 0
get_or-append [] ys k = ap (λ i. get_or ys i 0) (omega arith)
get_or-append (x ∷ xs) ys k =
    let e : k + suc (length xs) ≡ suc (k + length xs) = omega arith in
    ap (λ i. get_or (x ∷ (xs ++ ys)) i 0) e ∙ get_or-append xs ys k

-- One round of the loop.
last_slash-found : (n : ℕ) (path : List ℕ) → get_or path n 0 ≡ 47 → last_slash (suc n) path ≡ some n
unfolding last_slash
last_slash-found n path h = let here : (get_or path n 0 == 47) ≡ true = ground arith in rw here refl

last_slash-on :
    (n : ℕ) (path : List ℕ) → get_or path n 0 ≢ 47 → last_slash (suc n) path ≡ last_slash n path
unfolding last_slash
last_slash-on n path h = let other : (get_or path n 0 == 47) ≡ false = ground arith in rw other refl

-- The slash before `name`, from any place behind it.
last_slash-behind :
    (k : ℕ) (dir name : List ℕ)
    → has 47 name ≡ false
    → last_slash (suc (k + length dir)) (dir ++ (47 ∷ name)) ≡ some (length dir)
last_slash-behind zero dir name h =
    let e : 0 + length dir ≡ length dir = omega arith in
    rw e (
      last_slash-found (length dir) (dir ++ (47 ∷ name))
        (ap (λ i. get_or (dir ++ (47 ∷ name)) i 0) (sym e) ∙ get_or-append dir (47 ∷ name) 0))
last_slash-behind (suc k) dir name h =
    let e : suc k + length dir ≡ suc (k + length dir) = omega arith in
    last_slash-on (suc k + length dir) (dir ++ (47 ∷ name))
      (λ q. get_or-has name k h (sym (get_or-append dir (47 ∷ name) (suc k)) ∙ q))
    ∙ (ap (λ i. last_slash i (dir ++ (47 ∷ name))) e ∙ last_slash-behind k dir name h)

-- `vfs_open` and `vfs_mkdir` find the slash before the last part of a path.
pub last_slash_lem :
    (dir name : List ℕ)
    → has 47 name ≡ false
    → last_slash (length (dir ++ (47 ∷ name))) (dir ++ (47 ∷ name)) ≡ some (length dir)
last_slash_lem dir name h =
    let e : length (dir ++ (47 ∷ name)) ≡ suc (length name + length dir) =
      omega (arith, length-append dir (47 ∷ name)) in
    ap (λ n. last_slash n (dir ++ (47 ∷ name))) e ∙ last_slash-behind (length name) dir name h

pub take-append : (xs ys : List ℕ) → take (length xs) (xs ++ ys) ≡ xs
take-append [] ys = refl
take-append (x ∷ xs) ys = ap (λ l. x ∷ l) (take-append xs ys)

drop-append : (xs ys : List ℕ) (y : ℕ) → drop (suc (length xs)) (xs ++ (y ∷ ys)) ≡ ys
drop-append [] ys y = refl
drop-append (x ∷ xs) ys y = drop-append xs ys y

pub basename-append : (dir name : List ℕ) → basename (some (length dir)) (dir ++ (47 ∷ name)) ≡ name
basename-append dir name =
    let one : length dir + 1 ≡ suc (length dir) = omega arith in
    ap (λ i. drop i (dir ++ (47 ∷ name))) one ∙ drop-append dir name 47

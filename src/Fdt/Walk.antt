-- ===== src/Fdt/Walk.antt =====
-- What `fdt_parse_node` of src/devicetree.c calls for a device tree.
use mathlib.Core.Path.{fun_ext}
use nycu_osdi.Prelude.{
  ℕ, zero, suc, ◌+◌, ◌^◌, ◌<◌, ◌≡◌, ◌∙◌, refl, sym, ap, subst, false, Option, none, some, List, [],
  ◌∷◌, ◌++◌, arith, ◌==◌, length, drop, drop-add, drop-length, append_assoc, length-append,
  if◌then◌else◌, ◌>>=◌,
}
use nycu_osdi.Prelude.Int.{pos, negsuc}
use nycu_osdi.Strings.Compare.{IsString}
use nycu_osdi.Numbers.{be2le_u32}
use nycu_osdi.Cpio.{align, c_string}
use nycu_osdi.Cpio.Archive.{padding}
use nycu_osdi.Cpio.Entries.{length-padding}
use nycu_osdi.Fdt.{
  load_u32, load_be, Call, Callback, Visit, call, skip, ended, visit_begin, visit_prop, visit_token,
  visit, called, Parsed, fdt_parse_node,
}
use nycu_osdi.Fdt.Blob.{
  Piece, begin, finish, prop, nop, WellFormed, be32, piece_bytes, structure, AllWellFormed,
}

pub load_be-be32 : (v : ℕ) (rest : List ℕ) → v < 2 ^ 32 → load_be (be32 v rest) ≡ some v
unfolding load_be load_u32 be2le_u32
load_be-be32 v rest h = ap some (omega (arith, h))

-- What the callback gets for the parts of a tree.
abbrev pub begin_call : List ℕ → Call
begin_call name = record { kind = 1; name = some name; payload = none; size = 0 }

abbrev pub finish_call : Call
finish_call = record { kind = 2; name = none; payload = none; size = 0 }

abbrev pub prop_call : (strings : List ℕ) → (nameoff : ℕ) → (content rest : List ℕ) → Call
prop_call strings nameoff content rest = record {
  kind = 3;
  name = some (c_string (drop nameoff strings));
  payload = some (content ++ (padding (length content) ++ rest));
  size = length content;
}

abbrev pub visit_of : (strings : List ℕ) → Piece → List ℕ → Visit
visit_of strings (begin name) rest = call (begin_call name) rest
visit_of strings finish rest = call finish_call rest
visit_of strings (prop nameoff content) rest = call (prop_call strings nameoff content rest) rest
visit_of strings nop rest = skip rest

pub c_string-zero : (name rest : List ℕ) → IsString name → c_string (name ++ (0 ∷ rest)) ≡ name
unfolding c_string
c_string-zero [] rest s = refl
c_string-zero (c ∷ name) rest s =
    let other : (c == 0) ≡ false = ground (arith, s.0) in
    rw other (ap (λ l. c ∷ l) (c_string-zero name rest s.1))

-- A part and its padding are passed.
drop-padding :
    (xs rest : List ℕ)
    → length xs < 2 ^ 31 + 1
    → drop (align (length xs) 4) (xs ++ (padding (length xs) ++ rest)) ≡ rest
drop-padding xs rest h =
    let e : align (length xs) 4 ≡ length (xs ++ padding (length xs)) =
      omega (arith, length-padding (length xs), length-append xs (padding (length xs)), h) in
    ap (λ n. drop n (xs ++ (padding (length xs) ++ rest))) e
    ∙ (ap (drop (length (xs ++ padding (length xs))))
          (sym (append_assoc xs (padding (length xs)) rest))
        ∙ drop-length (xs ++ padding (length xs)) rest)

visit_begin_lem :
    (name rest : List ℕ)
    → IsString name
    → length name < 2 ^ 31
    → visit_begin (name ++ (0 ∷ (padding (length name + 1) ++ rest))) ≡ call (begin_call name) rest
unfolding visit_begin
visit_begin_lem name rest s h =
    let tail = padding (length name + 1) ++ rest in
    let e : length (name ++ (0 ∷ [])) ≡ length name + 1 =
      omega (arith, length-append name (0 ∷ [])) in
    let passed : drop (align (length name + 1) 4) (name ++ (0 ∷ tail)) ≡ rest =
      ap (drop (align (length name + 1) 4)) (sym (append_assoc name (0 ∷ []) tail))
      ∙ subst (λ k. drop (align k 4) ((name ++ (0 ∷ [])) ++ (padding k ++ rest)) ≡ rest) e
          (drop-padding (name ++ (0 ∷ [])) rest (omega (arith, e, h))) in
    ap (λ n. call (begin_call n) (drop (align (length n + 1) 4) (name ++ (0 ∷ tail))))
      (c_string-zero name tail s)
    ∙ ap (call (begin_call name)) passed

visit_prop_lem :
    (strings content rest : List ℕ) (nameoff : ℕ)
    → nameoff < 2 ^ 32
    → length content < 2 ^ 31
    → visit_prop strings
        (be32 (length content) (be32 nameoff (content ++ (padding (length content) ++ rest))))
      ≡ some (call (prop_call strings nameoff content rest) rest)
unfolding visit_prop
visit_prop_lem strings content rest nameoff small h =
    let tail = content ++ (padding (length content) ++ rest) in
    let len : load_be (be32 (length content) (be32 nameoff tail)) ≡ some (length content) =
      load_be-be32 (length content) (be32 nameoff tail) (omega (arith, h)) in
    let off : load_be (be32 nameoff tail) ≡ some nameoff = load_be-be32 nameoff tail small in
    let passed : drop (8 + align (length content) 4) (be32 (length content) (be32 nameoff tail))
        ≡ rest =
      drop-add 8 (align (length content) 4) (be32 (length content) (be32 nameoff tail))
      ∙ drop-padding content rest (omega (arith, h)) in
    rw (len, off) (ap (λ t. some (call (prop_call strings nameoff content rest) t)) passed)

visit_lem :
    (strings rest : List ℕ) (p : Piece)
    → WellFormed p
    → visit strings (piece_bytes p rest) ≡ some (visit_of strings p rest)
unfolding visit visit_token
visit_lem strings rest (begin name) w =
    rw (load_be-be32 1 (name ++ (0 ∷ (padding (length name + 1) ++ rest))) (omega arith))
      (ap some (visit_begin_lem name rest w.0 w.1))
visit_lem strings rest finish w = rw (load_be-be32 2 rest (omega arith)) refl
visit_lem strings rest (prop nameoff content) w =
    let tail = content ++ (padding (length content) ++ rest) in
    rw (load_be-be32 3 (be32 (length content) (be32 nameoff tail)) (omega arith))
      (visit_prop_lem strings content rest nameoff w.0 w.1)
visit_lem strings rest nop w = rw (load_be-be32 4 rest (omega arith)) refl

-- A callback that fails stops the walk with the rest of the tree in `*ptr`.
abbrev pub next :
    {S : Type 0}
    → Option (Callback S)
    → Call
    → List ℕ
    → S
    → (S → Option (Parsed S))
    → Option (Parsed S)
next callback c rest s walk = called callback c s >>= λ r.
    if r.0 then some (record { result = negsuc 0; ptr = rest; state = r.1 }) else walk r.1

module _ {S : Type 0} (strings : List ℕ) (callback : Option (Callback S)) where
  -- The parts of a tree, handed to the callback in order.
  abbrev pub walked : List Piece → List ℕ → S → Option (Parsed S)
  walked [] rest s = some (record { result = pos 0; ptr = rest; state = s })
  walked (begin name ∷ ps) rest s =
      next callback (begin_call name) (structure ps rest) s (walked ps rest)
  walked (finish ∷ ps) rest s = next callback finish_call (structure ps rest) s (walked ps rest)
  walked (prop nameoff content ∷ ps) rest s =
      next callback (prop_call strings nameoff content (structure ps rest)) (structure ps rest) s
        (walked ps rest)
  walked (nop ∷ ps) rest s = walked ps rest s

  fdt_parse_node-call :
      (n : ℕ) (c : Call) (p p' : List ℕ) (s : S)
      → visit strings p ≡ some (call c p')
      → fdt_parse_node (suc n) strings callback p s
        ≡ next callback c p' s (fdt_parse_node n strings callback p')
  unfolding fdt_parse_node
  fdt_parse_node-call n c p p' s e = rw (e, fdt_parse_node) refl

  fdt_parse_node-skip :
      (n : ℕ) (p p' : List ℕ) (s : S)
      → visit strings p ≡ some (skip p')
      → fdt_parse_node (suc n) strings callback p s ≡ fdt_parse_node n strings callback p' s
  unfolding fdt_parse_node
  fdt_parse_node-skip n p p' s e = rw (e, fdt_parse_node) refl

  fdt_parse_node-ended :
      (n : ℕ) (p p' : List ℕ) (s : S)
      → visit strings p ≡ some (ended p')
      → fdt_parse_node (suc n) strings callback p s
        ≡ some (record { result = pos 0; ptr = p'; state = s })
  unfolding fdt_parse_node
  fdt_parse_node-ended n p p' s e = rw (e, fdt_parse_node) refl

  visit_end : (rest : List ℕ) → visit strings (be32 9 rest) ≡ some (ended rest)
  unfolding visit visit_token
  visit_end rest = rw (load_be-be32 9 rest (omega arith)) refl

  -- With more rounds than parts, `fdt_parse_node` ends on a well-formed tree: it calls the callback
  -- for every part but the NOPs, in order, with its name and its content, until one fails; it
  -- returns 0 with `*ptr` behind the tree, or -1 with `*ptr` behind the part that failed.
  pub fdt_parse_node-structure :
      (n : ℕ) (ps : List Piece) (rest : List ℕ) (s : S)
      → length ps < n
      → AllWellFormed ps
      → fdt_parse_node n strings callback (structure ps rest) s ≡ walked ps rest s
  fdt_parse_node-structure zero ps rest s lt w = absurd (omega (arith, lt))
  fdt_parse_node-structure (suc n) [] rest s lt w =
      fdt_parse_node-ended n (be32 9 rest) rest s (visit_end rest)
  fdt_parse_node-structure (suc n) (begin name ∷ ps) rest s lt w =
      let more = structure ps rest in
      fdt_parse_node-call n (begin_call name) (piece_bytes (begin name) more) more s
        (visit_lem strings more (begin name) w.0)
      ∙ ap (next callback (begin_call name) more s)
          (fun_ext λ t. fdt_parse_node-structure n ps rest t (omega (arith, lt)) w.1)
  fdt_parse_node-structure (suc n) (finish ∷ ps) rest s lt w =
      let more = structure ps rest in
      fdt_parse_node-call n finish_call (piece_bytes finish more) more s
        (visit_lem strings more finish w.0)
      ∙ ap (next callback finish_call more s)
          (fun_ext λ t. fdt_parse_node-structure n ps rest t (omega (arith, lt)) w.1)
  fdt_parse_node-structure (suc n) (prop nameoff content ∷ ps) rest s lt w =
      let more = structure ps rest in
      let c = prop_call strings nameoff content more in
      fdt_parse_node-call n c (piece_bytes (prop nameoff content) more) more s
        (visit_lem strings more (prop nameoff content) w.0)
      ∙ ap (next callback c more s)
          (fun_ext λ t. fdt_parse_node-structure n ps rest t (omega (arith, lt)) w.1)
  fdt_parse_node-structure (suc n) (nop ∷ ps) rest s lt w =
      let more = structure ps rest in
      fdt_parse_node-skip n (piece_bytes nop more) more s (visit_lem strings more nop w.0)
      ∙ fdt_parse_node-structure n ps rest s (omega (arith, lt)) w.1

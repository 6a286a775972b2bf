-- ===== src/Cpio/Entries.antt =====
-- What src/cpio.c reads at the header of a well-formed entry.
use nycu_osdi.Prelude.{
  ℕ, zero, suc, ◌+◌, ◌-◌, ◌^◌, ◌<◌, ◌≡◌, ◌∙◌, refl, sym, ap, true, false, List, [], ◌∷◌, ◌++◌,
  arith, ◌==◌, ltb, length, take, drop, if◌then◌else◌, take-length, drop_part,
}
use nycu_osdi.Prelude.Int.{pos, eq_ℤ}
use nycu_osdi.Strings.{strcmp}
use nycu_osdi.Strings.Compare.{IsString, strcmp_self}
use nycu_osdi.Numbers.{uart_hex, hex_to_uint}
use nycu_osdi.Numbers.Hex.{hex_to_uint-uart_hex}
use nycu_osdi.Cpio.{
  ended, entry, align, magic, trailer, c_string, filesize_of, namesize_of, name_of, data_of,
  next_header, visit,
}
use nycu_osdi.Cpio.Archive.{File, WellFormed, zeros, padding, name_part, entry_bytes}

pub c_string-name :
    (name rest : List ℕ)
    → IsString name
    → c_string (take (length name + 1) (name ++ (0 ∷ rest))) ≡ name
unfolding c_string
c_string-name [] rest s = refl
c_string-name (c ∷ name) rest s =
    let other : (c == 0) ≡ false = ground (arith, s.0) in
    let e : suc (length name) + 1 ≡ suc (length name + 1) = omega arith in
    ap (λ n. c_string (take n (c ∷ (name ++ (0 ∷ rest))))) e
    ∙ (rw other (ap (λ l. c ∷ l) (c_string-name name rest s.1)))

pub length-zeros : (n : ℕ) → length (zeros n) ≡ n
length-zeros zero = refl
length-zeros (suc n) = ap suc (length-zeros n)

pub length-padding : (n : ℕ) → n < 2 ^ 31 + 512 → n + length (padding n) ≡ align n 4
unfolding align
length-padding n h = omega (arith, length-zeros (align n 4 - n), h)

length-uart_hex : (n : ℕ) → length (uart_hex n) ≡ 8
unfolding uart_hex
length-uart_hex n = refl

module _ (f : File) (w : WellFormed f) (rest : List ℕ) where
  abbrev h : List ℕ
  h = entry_bytes f rest

  abbrev behind_size : List ℕ
  behind_size = f.devices ++ (uart_hex (length f.name + 1) ++ (f.check ++ name_part f rest))

  at_54 : drop 54 h ≡ uart_hex (length f.content) ++ behind_size
  at_54 = drop_part 6 48 h f.ids _ refl w.ids

  at_94 : drop 94 h ≡ uart_hex (length f.name + 1) ++ (f.check ++ name_part f rest)
  at_94 =
      drop_part 62 32 h f.devices _
        (drop_part 54 8 h (uart_hex (length f.content)) _ at_54
          (length-uart_hex (length f.content)))
        w.devices

  at_110 : drop 110 h ≡ name_part f rest
  at_110 =
      drop_part 102 8 h f.check _
        (drop_part 94 8 h (uart_hex (length f.name + 1)) _ at_94
          (length-uart_hex (length f.name + 1)))
        w.check

  hex_at :
      (n a : ℕ) (ys : List ℕ)
      → n < 2 ^ 32
      → drop a h ≡ uart_hex n ++ ys
      → hex_to_uint (take 8 (drop a h)) ≡ n
  hex_at n a ys lt e =
      ap (λ l. hex_to_uint (take 8 l)) e
      ∙ (ap (λ m. hex_to_uint (take m (uart_hex n ++ ys))) (sym (length-uart_hex n))
          ∙ (ap hex_to_uint (take-length (uart_hex n) ys) ∙ hex_to_uint-uart_hex n lt))

  pub filesize_of_lem : filesize_of h ≡ length f.content
  filesize_of_lem = hex_at (length f.content) 54 behind_size (omega (arith, w.small)) at_54

  pub namesize_of_lem : namesize_of h ≡ length f.name + 1
  namesize_of_lem = hex_at (length f.name + 1) 94 _ (omega (arith, w.short)) at_94

  pub name_of_lem : name_of h ≡ f.name
  name_of_lem =
      ap (λ n. c_string (take n (drop 110 h))) namesize_of_lem
      ∙ (ap (λ l. c_string (take (length f.name + 1) l)) at_110 ∙ c_string-name f.name _ w.name)

  abbrev before : List ℕ
  before = padding (110 + (length f.name + 1))

  abbrev data_at : ℕ
  data_at = align (110 + (length f.name + 1)) 4

  at_data : drop data_at h ≡ f.content ++ (padding (length f.content) ++ rest)
  at_data =
      let at_nul = drop_part 110 (length f.name) h f.name _ at_110 refl in
      let at_pad = drop_part (110 + length f.name) 1 h (0 ∷ []) _ at_nul refl in
      let e : 110 + length f.name + 1 + length before ≡ data_at =
        omega (arith, length-padding (110 + (length f.name + 1)) (omega (arith, w.short))) in
      ap (λ n. drop n h) (sym e)
      ∙ drop_part (110 + length f.name + 1) (length before) h before _ at_pad refl

  pub data_of_lem : data_of h ≡ f.content ++ (padding (length f.content) ++ rest)
  data_of_lem = ap (λ n. drop (align (110 + n) 4) h) namesize_of_lem ∙ at_data

  pub content_lem : take (filesize_of h) (data_of h) ≡ f.content
  content_lem =
      ap (λ n. take n (data_of h)) filesize_of_lem
      ∙ (ap (take (length f.content)) data_of_lem
          ∙ take-length f.content (padding (length f.content) ++ rest))

  pub next_header_lem : next_header h ≡ rest
  next_header_lem =
      let behind = drop_part data_at (length f.content) h f.content _ at_data refl in
      let last =
        drop_part (data_at + length f.content) (length (padding (length f.content))) h
          (padding (length f.content)) rest behind refl in
      let e : 110 + (data_at - 110) + align (length f.content) 4
          ≡ data_at + length f.content + length (padding (length f.content)) =
        omega (
          arith,
          length-padding (length f.content) (omega (arith, w.small)),
          length-padding (110 + (length f.name + 1)) (omega (arith, w.short)),
        ) in
      ap (λ n. drop (110 + (align (110 + n) 4 - 110) + align (filesize_of h) 4) h) namesize_of_lem
      ∙ (ap (λ n. drop (110 + (data_at - 110) + align n 4) h) filesize_of_lem
          ∙ (ap (λ n. drop n h) e ∙ last))

  -- A round of the loops on a well-formed entry.
  pub visit_lem : visit h ≡ (if eq_ℤ (strcmp f.name trailer) (pos 0) then ended else entry)
  unfolding visit
  visit_lem =
      let good : eq_ℤ (strcmp magic (take 6 h)) (pos 0) ≡ true =
        ap (λ e. eq_ℤ e (pos 0)) (strcmp_self magic) in
      let fits : ltb 256 (namesize_of h) ≡ false =
        ap (λ n. ltb 256 n) namesize_of_lem ∙ ground (arith, w.short) in
      rw (good, fits)
        (ap (λ s. if eq_ℤ (strcmp s trailer) (pos 0) then ended else entry) name_of_lem)

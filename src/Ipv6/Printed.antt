-- ===== src/Ipv6/Printed.antt =====
-- `IPv6Param::setAddress(const string &)` of src/sparam.cpp on what `getAddress` prints.
use pparam.Prelude.{
  ℕ, suc, ◌+◌, ◌≤◌, ◌≡◌, refl, ap, ◌∙◌, true, false, none, some, List, [], ◌∷◌, ◌++◌, Text, length,
  All, map, arith,
}
use pparam.Prelude.Hex.{
  is_hex, IsHexText, print_hex, read_hex-print_hex, print_hex-IsHexText, print_hex_nonempty,
}
use pparam.Ip.{contains, validate_string}
use pparam.Ip.Cuts.{joined, Without, split-joined}
use pparam.Ipv4.{empty}
use pparam.Ipv4.Printed.{nonempty}
use pparam.Ipv6.{
  Ipv6Param, done, allowed_ipv6, strtol16, words, find_empty, fix_box, fix_boxes, fix_last,
  set_parts, set_address,
}

hex-Without : (c : ℕ) (s : Text) → is_hex c ≡ false → IsHexText s → Without c s
unfolding contains
hex-Without c [] h d = refl
hex-Without c (x ∷ s) h d = ground (arith, hex-Without c s h d.1)

pub word-Without : (n : ℕ) → Without b':' (print_hex n)
word-Without n = hex-Without b':' (print_hex n) refl (print_hex-IsHexText n)

hex_allowed : (c : ℕ) → is_hex c ≡ true → contains c allowed_ipv6 ≡ true
unfolding contains
hex_allowed c h = ground arith

hex_valid : (s : Text) → IsHexText s → validate_string s allowed_ipv6 ≡ true
unfolding validate_string
hex_valid [] d = refl
hex_valid (c ∷ s) d = rw (hex_allowed c d.0) (hex_valid s d.1)

valid-append :
    (a s : Text)
    → validate_string a allowed_ipv6 ≡ true
    → validate_string s allowed_ipv6 ≡ true
    → validate_string (a ++ s) allowed_ipv6 ≡ true
unfolding validate_string
valid-append [] s h k = k
valid-append (c ∷ a) s h k = ground (arith, valid-append a s)

-- Boxes that are empty or numbers are allowed, also with colons between them.
unfoldable pub AreValid : List Text → Type 0
AreValid ss = All (λ s. validate_string s allowed_ipv6 ≡ true) ss

pub joined_valid :
    (s : Text) (ss : List Text)
    → validate_string s allowed_ipv6 ≡ true
    → AreValid ss
    → validate_string (joined b':' s ss) allowed_ipv6 ≡ true
unfolding AreValid validate_string contains
joined_valid s [] h v = h
joined_valid s (t ∷ ss) h v =
    valid-append s (b':' ∷ joined b':' t ss) h (ground (arith, joined_valid t ss v.0 v.1))

pub word_valid : (n : ℕ) → validate_string (print_hex n) allowed_ipv6 ≡ true
word_valid n = hex_valid (print_hex n) (print_hex-IsHexText n)

strtol16-print : (n : ℕ) → n ≤ 65535 → strtol16 (print_hex n) ≡ n
unfolding strtol16
strtol16-print n h = rw (read_hex-print_hex n) (ground arith)

pub word_full : (n : ℕ) → empty (print_hex n) ≡ false
word_full n = nonempty (print_hex n) (print_hex_nonempty n)

pub words-print : (ns : List ℕ) → All (λ n. n ≤ 65535) ns → words (map print_hex ns) ≡ some ns
unfolding words
words-print [] h = refl
words-print (n ∷ ns) h = rw (words-print ns h.1, strtol16-print n h.0) (ground arith)

pub find_empty_none : (i : ℕ) (ns : List ℕ) → find_empty i none (map print_hex ns) ≡ some none
unfolding find_empty
find_empty_none i [] = refl
find_empty_none i (n ∷ ns) = rw (word_full n) (find_empty_none (i + 1) ns)

pub fix_last-print : (ns : List ℕ) → fix_last (map print_hex ns) ≡ map print_hex ns
fix_last-print [] = refl
fix_last-print (n ∷ []) = rw (word_full n) refl
fix_last-print (n ∷ m ∷ ns) = ap (λ k. print_hex n ∷ k) (fix_last-print (m ∷ ns))

pub fix_box-print : (n : ℕ) → fix_box (print_hex n) ≡ print_hex n
fix_box-print n = rw (word_full n) refl

fix_boxes-print : (ns : List ℕ) → fix_boxes (map print_hex ns) ≡ map print_hex ns
fix_boxes-print [] = refl
fix_boxes-print (n ∷ ns) =
    ap (λ k. fix_last (k ∷ map print_hex ns)) (fix_box-print n) ∙ fix_last-print (n ∷ ns)

pub words_Without : (ns : List ℕ) → All (Without b':') (map print_hex ns)
words_Without [] = tt
words_Without (n ∷ ns) = (word-Without n, words_Without ns)

pub words_valid : (ns : List ℕ) → AreValid (map print_hex ns)
unfolding AreValid
words_valid [] = tt
words_valid (n ∷ ns) = (word_valid n, words_valid ns)

pub length-map : (ns : List ℕ) → length (map print_hex ns) ≡ length ns
length-map [] = refl
length-map (n ∷ ns) = ap suc (length-map ns)

full_parts :
    (p : Ipv6Param) (ns : List ℕ)
    → length (map print_hex ns) ≡ 8
    → All (λ n. n ≤ 65535) ns
    → set_parts p (some (map print_hex ns)) ≡ done (record p { address = ns })
full_parts p ns e w = rw (e, fix_boxes-print ns, find_empty_none 0 ns, e, words-print ns w) refl

-- Eight numbers in hexadecimal, with colons between them.
abbrev pub full_text : ℕ → List ℕ → Text
full_text a more = joined b':' (print_hex a) (map print_hex more)

-- The full form of an address is read: eight numbers of 16 bits in hexadecimal, with colons between
-- them, become the address; name and netmask stay.
set_address-full_text :
    (p : Ipv6Param) (a : ℕ) (more : List ℕ)
    → length more ≡ 7
    → a ≤ 65535
    → All (λ n. n ≤ 65535) more
    → set_address p (full_text a more) ≡ done (record p { address = a ∷ more })
unfolding set_address
set_address-full_text p a [] h l w = absurd (omega arith)
set_address-full_text p a (b ∷ more) h l w =
    let valid =
      joined_valid (print_hex a) (map print_hex (b ∷ more)) (word_valid a)
        (words_valid (b ∷ more)) in
    let cut =
      split-joined b':' (print_hex a) (print_hex b) (map print_hex more) (word-Without a)
        (word-Without b) (words_Without more) in
    let eight : length (map print_hex (a ∷ b ∷ more)) ≡ 8 =
      omega (arith, length-map (a ∷ b ∷ more)) in
    rw (valid, cut) (full_parts p (a ∷ b ∷ more) eight (l, w))

-- ===== src/Ipv6/Compressed.antt =====
-- `IPv6Param::setAddress(const string &)` of src/sparam.cpp on texts with `::`.
use pparam.Prelude.{
  ℕ, suc, ◌+◌, ◌-◌, ◌≤◌, ◌≡◌, refl, ap, ◌∙◌, none, some, List, [], ◌∷◌, ◌++◌, Text, length, All,
  map, take, drop, arith,
}
use pparam.Prelude.Hex.{print_hex}
use pparam.Ip.{contains, validate_string, split}
use pparam.Ip.Cuts.{joined, Without, split-joined}
use pparam.Ipv6.{
  Ipv6Param, replicate, done, words, find_empty, fix_boxes, fix_last, put_address, filled,
  set_boxes, set_parts, set_address,
}
use pparam.Ipv6.Printed.{
  AreValid, word-Without, joined_valid, word_valid, words-print, fix_last-print, fix_box-print,
  words_Without, words_valid, length-map, word_full,
}

-- The boxes of two lists of numbers with an empty box between them.
abbrev boxes : List ℕ → List ℕ → List Text
boxes front back = map print_hex front ++ ([] ∷ map print_hex back)

boxes-Without : (front back : List ℕ) → All (Without b':') (boxes front back)
unfolding contains
boxes-Without [] back = (refl, words_Without back)
boxes-Without (n ∷ front) back = (word-Without n, boxes-Without front back)

boxes_valid : (front back : List ℕ) → AreValid (boxes front back)
unfolding AreValid validate_string
boxes_valid [] back = (refl, words_valid back)
boxes_valid (n ∷ front) back = (word_valid n, boxes_valid front back)

length-boxes : (front back : List ℕ) → length (boxes front back) ≡ length front + 1 + length back
length-boxes [] back = omega (arith, length-map back)
length-boxes (n ∷ front) back = omega (arith, length-boxes front back)

fix_last-boxes :
    (front : List ℕ) (a : ℕ) (back : List ℕ)
    → fix_last (boxes front (a ∷ back)) ≡ boxes front (a ∷ back)
fix_last-boxes [] a back = ap (λ k. [] ∷ k) (fix_last-print (a ∷ back))
fix_last-boxes (n ∷ []) a back = ap (λ k. print_hex n ∷ k) (fix_last-boxes [] a back)
fix_last-boxes (n ∷ m ∷ front) a back =
    ap (λ k. print_hex n ∷ k) (fix_last-boxes (m ∷ front) a back)

find_empty_behind :
    (i b : ℕ) (back : List ℕ) → find_empty i (some b) (map print_hex back) ≡ some (some b)
unfolding find_empty
find_empty_behind i b [] = refl
find_empty_behind i b (n ∷ back) = rw (word_full n) (find_empty_behind (i + 1) b back)

find_empty-boxes :
    (i : ℕ) (front back : List ℕ)
    → find_empty i none (boxes front back) ≡ some (some (i + length front))
unfolding find_empty
find_empty-boxes i [] back =
    find_empty_behind (i + 1) i back ∙ ap (λ k. some (some k)) (omega arith)
find_empty-boxes i (n ∷ front) back =
    rw (word_full n) (find_empty-boxes (i + 1) front back ∙ ap (λ k. some (some k)) (omega arith))

take-boxes : (front back : List ℕ) → take (length front) (boxes front back) ≡ map print_hex front
take-boxes [] back = refl
take-boxes (n ∷ front) back = ap (λ k. print_hex n ∷ k) (take-boxes front back)

drop-boxes :
    (front back : List ℕ) → drop (suc (length front)) (boxes front back) ≡ map print_hex back
drop-boxes [] back = refl
drop-boxes (n ∷ front) back = drop-boxes front back

abbrev AreWords : List ℕ → Type 0
AreWords ns = All (λ n. n ≤ 65535) ns

parts_inside :
    (p : Ipv6Param) (ss : List Text)
    → 3 ≤ length ss
    → length ss ≤ 8
    → set_parts p (some ss) ≡ set_boxes p (fix_boxes ss) (find_empty 0 none (fix_boxes ss))
parts_inside p ss low high = ground arith

set_boxes-boxes :
    (p : Ipv6Param) (n : ℕ) (front : List ℕ) (a : ℕ) (back : List ℕ)
    → length front + length back ≤ 5
    → AreWords (n ∷ front)
    → AreWords (a ∷ back)
    → set_boxes p (boxes (n ∷ front) (a ∷ back)) (some (some (suc (length front))))
      ≡ done (record p {
        address = (n ∷ front) ++ (replicate (6 - (length front + length back)) ++ (a ∷ back));
      })
set_boxes-boxes p n front a back h wf wb =
    let bs = boxes (n ∷ front) (a ∷ back) in
    let next : suc (length front) + 1 ≡ suc (length (n ∷ front)) = omega arith in
    let ahead : words (take (suc (length front)) bs) ≡ some (n ∷ front) =
      ap words (take-boxes (n ∷ front) (a ∷ back)) ∙ words-print (n ∷ front) wf in
    let behind : words (drop (suc (length front) + 1) bs) ≡ some (a ∷ back) =
      ap (λ k. words (drop k bs)) next
      ∙ ap words (drop-boxes (n ∷ front) (a ∷ back))
      ∙ words-print (a ∷ back) wb in
    let room : 8 - length bs + 1 ≡ 6 - (length front + length back) =
      omega (arith, length-boxes (n ∷ front) (a ∷ back)) in
    ap
      (λ k.
        put_address p
          (filled (length bs) (suc (length front)) k (words (drop (suc (length front) + 1) bs))))
      ahead
    ∙ ap (λ k. put_address p (filled (length bs) (suc (length front)) (some (n ∷ front)) k)) behind
    ∙ ap (λ k. done (record p { address = (n ∷ front) ++ (replicate k ++ (a ∷ back)) })) room

set_parts-boxes :
    (p : Ipv6Param) (n : ℕ) (front : List ℕ) (a : ℕ) (back : List ℕ)
    → length front + length back ≤ 5
    → AreWords (n ∷ front)
    → AreWords (a ∷ back)
    → set_parts p (some (boxes (n ∷ front) (a ∷ back)))
      ≡ done (record p {
        address = (n ∷ front) ++ (replicate (6 - (length front + length back)) ++ (a ∷ back));
      })
set_parts-boxes p n front a back h wf wb =
    let bs = boxes (n ∷ front) (a ∷ back) in
    let count : length bs ≡ length front + length back + 3 =
      omega (arith, length-boxes (n ∷ front) (a ∷ back)) in
    let fixed : fix_boxes bs ≡ bs =
      ap (λ k. fix_last (k ∷ boxes front (a ∷ back))) (fix_box-print n)
      ∙ fix_last-boxes (n ∷ front) a back in
    let found : find_empty 0 none bs ≡ some (some (suc (length front))) =
      find_empty-boxes 0 (n ∷ front) (a ∷ back) ∙ ap (λ k. some (some k)) (omega arith) in
    parts_inside p bs (omega (arith, count)) (omega (arith, count))
    ∙ ap (λ k. set_boxes p k (find_empty 0 none k)) fixed
    ∙ ap (set_boxes p bs) found
    ∙ set_boxes-boxes p n front a back h wf wb

-- Numbers in hexadecimal with colons between them, then two colons, then such numbers again.
abbrev pub compressed_text : ℕ → List ℕ → ℕ → List ℕ → Text
compressed_text n front a back =
    joined b':' (print_hex n) (map print_hex front ++ ([] ∷ map print_hex (a ∷ back)))

-- The compressed form of an address is read: one number of 16 bits or more, two colons, and one
-- number or more, at most seven in all, become the address with zeros between the two parts to make
-- eight; name and netmask stay.
pub set_address-compressed_text :
    (p : Ipv6Param) (n : ℕ) (front : List ℕ) (a : ℕ) (back : List ℕ)
    → length front + length back ≤ 5
    → AreWords (n ∷ front)
    → AreWords (a ∷ back)
    → set_address p (compressed_text n front a back)
      ≡ done (record p {
        address = (n ∷ front) ++ (replicate (6 - (length front + length back)) ++ (a ∷ back));
      })
unfolding set_address contains
set_address-compressed_text p n front a back h wf wb =
    rw
      (
        joined_valid (print_hex n) (boxes front (a ∷ back)) (word_valid n)
            (boxes_valid front (a ∷ back)),
        cut front,
      )
      (set_parts-boxes p n front a back h wf wb)
  where
    cut :
        (front : List ℕ)
        → split (joined b':' (print_hex n) (boxes front (a ∷ back))) b':'
          ≡ some (boxes (n ∷ front) (a ∷ back))
    cut [] =
        split-joined b':' (print_hex n) [] (map print_hex (a ∷ back)) (word-Without n) refl
          (words_Without (a ∷ back))
    cut (m ∷ front) =
        split-joined b':' (print_hex n) (print_hex m) (boxes front (a ∷ back)) (word-Without n)
          (word-Without m) (boxes-Without front (a ∷ back))

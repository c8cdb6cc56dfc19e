-- ===== src/Shell/Words.antt =====
-- What the tokenizer of src/kernel/Shell.cpp makes of a line.
use swish_kernel.Prelude.{
  ℕ, zero, suc, ◌≤◌, ◌<◌, ◌≡◌, refl, sym, ap, ◌∙◌, inl, inr, true, false, arith, List, [], ◌∷◌,
  ◌++◌, ltb, ◌==◌, if◌then◌else◌, length, take, Bool-cases, beq→eq, ltb→lt, le_of_not_ltb,
  length-append,
}
use mathlib.Core.List.{append_assoc, append-nil}
use swish_kernel.Text.{Bytes}
use swish_kernel.Shell.Tokens.{max_args, max_token, Scan, is_break, finish, scan, scan_all, tokens}

-- The words of a line, without any limit: the first one, which the line may be in the middle of, and
-- the others.
unfoldable pub words_from : Bytes → Bytes → List Bytes
words_from [] word = if length word == 0 then [] else word ∷ []
words_from (c ∷ str) word =
    let ended = words_from str [] in
    let longer = words_from str (word ++ c ∷ []) in
    if is_break c then (if length word == 0 then ended else word ∷ ended) else longer

-- Every word cut to what the buffer holds.
unfoldable pub cut : List Bytes → List Bytes
cut [] = []
cut (w ∷ ws) = take max_token w ∷ cut ws

abbrev scanning : List Bytes → Bytes → Scan
scanning args buffer = record { args = args; buffer = buffer }

take_nothing : {A : Type 0} (n : ℕ) → ◌≡◌ {A = List A} (take n []) []
take_nothing zero = refl
take_nothing (suc n) = refl

take_snoc :
    {A : Type 0} (n : ℕ) (xs : List A) (x : A)
    → (if ltb (length (take n xs)) n then take n xs ++ x ∷ [] else take n xs)
      ≡ take n (xs ++ x ∷ [])
take_snoc zero xs x = refl
take_snoc (suc n) [] x =
    let room : ltb 0 (suc n) ≡ true = ground arith in
    rw room (ap (λ zs. x ∷ zs) (sym (take_nothing n)))
take_snoc (suc n) (y ∷ xs) x = elim (Bool-cases (ltb (length (take n xs)) n)) [
  | inl room ↦
      let more : ltb (suc (length (take n xs))) (suc n) ≡ true = ground arith in
      rw more (
        ap (λ zs. y ∷ zs)
          (sym (ap (λ b. if b then take n xs ++ x ∷ [] else take n xs) room) ∙ take_snoc n xs x))
  | inr full ↦
      let none_left : ltb (suc (length (take n xs))) (suc n) ≡ false = ground arith in
      rw none_left (
        ap (λ zs. y ∷ zs)
          (sym (ap (λ b. if b then take n xs ++ x ∷ [] else take n xs) full) ∙ take_snoc n xs x))
]

take_all : {A : Type 0} (n : ℕ) (xs ys : List A) → length xs ≡ n → take n (xs ++ ys) ≡ xs
take_all zero [] ys h = refl
take_all zero (x ∷ xs) ys h = absurd (omega (arith, h))
take_all (suc n) [] ys h = absurd (omega (arith, h))
take_all (suc n) (x ∷ xs) ys h = ap (λ zs. x ∷ zs) (take_all n xs ys (omega (arith, h)))

take_within : {A : Type 0} (n : ℕ) (xs : List A) → length xs ≤ n → take n xs ≡ xs
take_within zero [] h = refl
take_within zero (x ∷ xs) h = absurd (omega arith)
take_within (suc n) [] h = refl
take_within (suc n) (x ∷ xs) h = ap (λ zs. x ∷ zs) (take_within n xs (omega arith))

take_nil : (word : Bytes) → length word ≡ 0 → take max_token word ≡ []
take_nil [] h = refl
take_nil (c ∷ word) h = absurd (omega (arith, h))

length_snoc :
    (args : List Bytes) (word : Bytes)
    → length args < max_args
    → length (args ++ word ∷ []) ≤ max_args
length_snoc args word h = omega (arith, length-append args (word ∷ []))

suc-beq : (n : ℕ) → (suc n == 0) ≡ false
suc-beq n = ground arith

length-take_zero : (word : Bytes) → (length (take max_token word) == 0) ≡ (length word == 0)
length-take_zero [] = refl
length-take_zero (c ∷ word) = suc-beq (length (take 254 word)) ∙ sym (suc-beq (length word))

-- The words with the one that ends here.
abbrev with_word : Bytes → List Bytes → List Bytes
with_word word ws = if length word == 0 then ws else word ∷ ws

-- What `finish` leaves, seen with any words that still follow.
finish-words :
    (args : List Bytes) (word : Bytes) (ws : List Bytes)
    → length args ≤ max_args
    → (finish (scanning args (take max_token word))
        ≡ scanning (finish (scanning args (take max_token word))).args [])
      × (length (finish (scanning args (take max_token word))).args ≤ max_args)
      × (take max_args ((finish (scanning args (take max_token word))).args ++ cut ws)
          ≡ take max_args (args ++ cut (with_word word ws)))
unfolding finish cut
finish-words args word ws h = elim (Bool-cases (length word == 0)) [
  | inl blank ↦
      rw (length-take_zero word ∙ blank, blank)
        (ap (scanning args) (take_nil word (beq→eq (length word) 0 blank)), h, refl)
  | inr there ↦ elim (Bool-cases (ltb (length args) max_args)) [
    | inl room ↦
        rw (length-take_zero word ∙ there, there, room)
          (
            refl,
            length_snoc args (take max_token word) (ltb→lt (length args) max_args room),
            ap (take max_args) (append_assoc args (take max_token word ∷ []) (cut ws)),
          )
    | inr full ↦
        let is_full : length args ≡ max_args =
          omega (arith, h, le_of_not_ltb (length args) max_args full) in
        rw (length-take_zero word ∙ there, there, full)
          (
            refl,
            h,
            take_all max_args args (cut ws) is_full
                ∙ sym (take_all max_args args (take max_token word ∷ cut ws) is_full),
          )
  ]
]

scan_break : (c : ℕ) (s : Scan) → is_break c ≡ true → scan c s ≡ finish s
unfolding scan
scan_break c s h = rw h

scan_more :
    (c : ℕ) (args : List Bytes) (word : Bytes)
    → is_break c ≡ false
    → scan c (scanning args (take max_token word)) ≡ scanning args (take max_token (word ++ c ∷ []))
unfolding scan
scan_more c args word h = elim (Bool-cases (ltb (length (take max_token word)) max_token)) [
  | inl room ↦
      rw (h, room)
        (ap (scanning args) (
          sym (ap (λ b. if b then take max_token word ++ c ∷ [] else take max_token word) room)
          ∙ take_snoc max_token word c))
  | inr full ↦
      rw (h, full)
        (ap (scanning args) (
          sym (ap (λ b. if b then take max_token word ++ c ∷ [] else take max_token word) full)
          ∙ take_snoc max_token word c))
]

-- The scan of a line behind some words and in the middle of another one.
scan_all-words :
    (str : Bytes) (args : List Bytes) (word : Bytes)
    → length args ≤ max_args
    → (scan_all (str ++ 0 ∷ []) (scanning args (take max_token word))).args
      ≡ take max_args (args ++ cut (words_from str word))
unfolding scan_all words_from cut
scan_all-words [] args word h =
    let (shape, few, same) = finish-words args word [] h in
    ap (λ s. s.args) (scan_break 0 (scanning args (take max_token word)) refl)
    ∙ sym (take_within max_args (finish (scanning args (take max_token word))).args few)
    ∙ ap (take max_args) (sym (append-nil (finish (scanning args (take max_token word))).args))
    ∙ same
scan_all-words (c ∷ str) args word h = elim (Bool-cases (is_break c)) [
  | inl ends ↦
      let (shape, few, same) = finish-words args word (words_from str []) h in
      ap (λ s. (scan_all (str ++ 0 ∷ []) s).args)
        (scan_break c (scanning args (take max_token word)) ends ∙ shape)
      ∙ scan_all-words str (finish (scanning args (take max_token word))).args [] few
      ∙ same
      ∙ ap
          (λ b. take max_args (
            args
            ++ cut (
                if b then with_word word (words_from str []) else words_from str (word ++ c ∷ []))))
          (sym ends)
  | inr goes_on ↦
      ap (λ s. (scan_all (str ++ 0 ∷ []) s).args) (scan_more c args word goes_on)
      ∙ scan_all-words str args (word ++ c ∷ []) h
      ∙ ap
          (λ b. take max_args (
            args
            ++ cut (
                if b then with_word word (words_from str []) else words_from str (word ++ c ∷ []))))
          (sym goes_on)
]

-- The tokenizer answers the words of the line between spaces, the first 16 of them, each cut to its
-- first 255 bytes.
pub tokens-words : (raw : Bytes) → tokens raw ≡ take max_args (cut (words_from raw []))
unfolding tokens
tokens-words raw = scan_all-words raw [] [] (omega arith)

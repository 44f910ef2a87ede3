-- ===== src/Logger/Names.antt =====
-- The names of functions that core/util/logger.cpp prints.
use mathlib.Core.List.{append_assoc, append-nil}
use mydak_server.Base.{
  ℕ, zero, suc, ◌+◌, ◌%◌, ◌≤◌, ◌<◌, ◌≡◌, ◌≢◌, refl, ap, sym, ◌∙◌, inl, inr, [], ◌∷◌, ◌++◌, some,
  Option-cases, arith, Bytes, length, take, drop, word, All, length-append, take-append,
  drop-append, take-append-drop,
}
use mydak_server.Logger.{find_char, substr, between, cut_name, get_func_name}

find_char-lt : (c : ℕ) (text : Bytes) (i : ℕ) → find_char c text ≡ some i → i < length text
unfolding find_char
find_char-lt c [] i h = cc
find_char-lt c (b ∷ bs) i h = elim (Option-cases (find_char c bs)) [
  | inl missing ↦ ground arith
  | inr (j, found) ↦ ground (arith, find_char-lt c bs j found)
]

-- The first of a character is behind text without it.
find_char-append :
    (c : ℕ) (text rest : Bytes)
    → All (λ (b : ℕ). b ≢ c) text
    → find_char c (text ++ c ∷ rest) ≡ some (length text)
unfolding find_char
find_char-append c [] rest h = ground arith
find_char-append c (b ∷ bs) rest h = ground (arith, find_char-append c bs rest h.1, h.0)

-- `part` stands in `whole`, in one piece.
abbrev pub IsPart : Bytes → Bytes → Type 0
IsPart part whole = (before : Bytes) × (after : Bytes) × (whole ≡ before ++ (part ++ after))

substr-IsPart :
    (text : Bytes) (pos count : ℕ)
    → pos ≤ length text
    → (part : Bytes) × (substr text pos count ≡ some part) × IsPart part text
unfolding substr
substr-IsPart text pos count inside =
    let rest = drop pos text in
    (
      take count rest,
      ground arith,
      (
        take pos text,
        drop count rest,
        sym (take-append-drop pos text)
            ∙ ap (◌++◌ (take pos text)) (sym (take-append-drop count rest)),
      ),
    )

-- For any text shorter than 2^64, whatever the order of its first space and its first bracket,
-- get_func_name throws no exception and returns a contiguous part of the text.
pub get_func_name-IsPart :
    (func : Bytes)
    → length func < word
    → (name : Bytes) × (get_func_name func ≡ some name) × IsPart name func
unfolding get_func_name cut_name
get_func_name-IsPart func room = elim (Option-cases (find_char 40 func)) [
  | inl no_bracket ↦
      (func, rw (no_bracket, get_func_name, cut_name) refl, ([], [], sym (append-nil func)))
  | inr (i, bracket) ↦ elim (Option-cases (find_char 32 func)) [
    | inl no_space ↦
        let (name, cut, part) = substr-IsPart func 0 i (omega arith) in
        (name, rw (bracket, get_func_name, cut_name, no_space) cut, part)
    | inr (j, space) ↦
        let inside = find_char-lt 32 func j space in
        let (name, cut, part) = substr-IsPart func ((j + 1) % word) (between i j) (omega arith) in
        (name, rw (bracket, get_func_name, cut_name, space) cut, part)
  ]
]

-- A character that a text does not have is not found before what follows the text.
find_char-append_later :
    (c : ℕ) (text rest : Bytes) (i : ℕ)
    → All (λ (b : ℕ). b ≢ c) text
    → find_char c rest ≡ some i
    → find_char c (text ++ rest) ≡ some (length text + i)
unfolding find_char
find_char-append_later c [] rest i h found = found ∙ ground arith
find_char-append_later c (b ∷ bs) rest i h found =
    ground (arith, find_char-append_later c bs rest i h.1 found, h.0)

substr-append :
    (before part after : Bytes)
    → substr (before ++ (part ++ after)) (length before) (length part) ≡ some part
unfolding substr
substr-append before part after = ground (
  arith,
  length-append before (part ++ after),
  drop-append before (part ++ after),
  take-append part after,
)

-- The name of a function with a type in front of it.
get_func_name_early :
    (type_name name arguments : Bytes)
    → length type_name + length name + 2 < word
    → All (λ (b : ℕ). b ≢ 32) type_name
    → All (λ (b : ℕ). b ≢ 40) type_name
    → All (λ (b : ℕ). b ≢ 40) name
    → get_func_name (type_name ++ 32 ∷ (name ++ 40 ∷ arguments)) ≡ some name
unfolding get_func_name cut_name
get_func_name_early type_name name arguments room plain solid bare =
    let text = type_name ++ 32 ∷ (name ++ 40 ∷ arguments) in
    let n = length type_name in
    let space : find_char 32 text ≡ some n = find_char-append 32 type_name _ plain in
    let bracket : find_char 40 text ≡ some (n + (1 + length name)) =
      find_char-append_later 40 type_name (32 ∷ (name ++ 40 ∷ arguments)) (1 + length name) solid (
        find_char-append_later 40 (32 ∷ []) (name ++ 40 ∷ arguments) (length name) (omega arith)
          (find_char-append 40 name arguments bare)) in
    let start : (n + 1) % word ≡ length (type_name ++ 32 ∷ []) =
      omega (arith, length-append type_name (32 ∷ [])) in
    let count : between (n + (1 + length name)) n ≡ length name = omega arith in
    rw (space, get_func_name, cut_name, bracket, start, count)
      (ap (λ t. substr t (length (type_name ++ 32 ∷ [])) (length name))
          (sym (append_assoc type_name (32 ∷ []) (name ++ 40 ∷ arguments)))
        ∙ substr-append (type_name ++ 32 ∷ []) name (40 ∷ arguments))

take_all : (n : ℕ) (xs : Bytes) → length xs ≤ n → take n xs ≡ xs
take_all zero [] h = refl
take_all (suc n) [] h = refl
take_all zero (x ∷ xs) h = absurd (omega arith)
take_all (suc n) (x ∷ xs) h = ap (◌∷◌ x) (take_all n xs (omega arith))

substr-suffix :
    (before after : Bytes) (count : ℕ)
    → length after ≤ count
    → substr (before ++ after) (length before) count ≡ some after
unfolding substr
substr-suffix before after count h =
    ground (arith, length-append before after, drop-append before after, take_all count after h)

-- The name of a function without one.
get_func_name_late :
    (name argument rest : Bytes)
    → length name + length argument + length rest + 2 < word
    → All (λ (b : ℕ). b ≢ 40) name
    → All (λ (b : ℕ). b ≢ 32) name
    → All (λ (b : ℕ). b ≢ 32) argument
    → get_func_name (name ++ 40 ∷ (argument ++ 32 ∷ rest)) ≡ some rest
unfolding get_func_name cut_name
get_func_name_late name argument rest room bare plain solid =
    let text = name ++ 40 ∷ (argument ++ 32 ∷ rest) in
    let n = length name in
    let a = length argument in
    let bracket : find_char 40 text ≡ some n = find_char-append 40 name _ bare in
    let space : find_char 32 text ≡ some (n + (1 + a)) =
      find_char-append_later 32 name (40 ∷ (argument ++ 32 ∷ rest)) (1 + a) plain (
        find_char-append_later 32 (40 ∷ []) (argument ++ 32 ∷ rest) a (omega arith)
          (find_char-append 32 argument rest solid)) in
    let before = name ++ 40 ∷ (argument ++ 32 ∷ []) in
    let start : (n + (1 + a) + 1) % word ≡ length before =
      omega (
        arith,
        length-append name (40 ∷ (argument ++ 32 ∷ [])),
        length-append argument (32 ∷ []),
      ) in
    let enough : length rest ≤ between n (n + (1 + a)) = omega arith in
    rw (bracket, get_func_name, cut_name, space, start)
      (ap (λ t. substr t (length before) (between n (n + (1 + a)))) (regroup name argument rest)
        ∙ substr-suffix before rest (between n (n + (1 + a))) enough)
  where
    regroup : (x y z : Bytes) → x ++ 40 ∷ (y ++ 32 ∷ z) ≡ (x ++ 40 ∷ (y ++ 32 ∷ [])) ++ z
    regroup x y z = simp append_assoc

-- Take two texts without spaces and brackets and any third, together with two more characters
-- shorter than 2^64. With a space between the first two and a bracket behind the second,
-- get_func_name returns the second, the name between the type and the arguments; with the bracket
-- first and the space behind the second, it returns the third, all that follows the space, and not
-- the name in front of the bracket.
pub get_func_name_lem :
    (front middle rest : Bytes)
    → length front + length middle + length rest + 2 < word
    → All (λ (b : ℕ). b ≢ 32) front
    → All (λ (b : ℕ). b ≢ 40) front
    → All (λ (b : ℕ). b ≢ 32) middle
    → All (λ (b : ℕ). b ≢ 40) middle
    → (get_func_name (front ++ 32 ∷ (middle ++ 40 ∷ rest)) ≡ some middle)
      × (get_func_name (front ++ 40 ∷ (middle ++ 32 ∷ rest)) ≡ some rest)
get_func_name_lem front middle rest room plain bare plain' bare' = (
  get_func_name_early front middle rest (omega arith) plain bare bare',
  get_func_name_late front middle rest room bare plain plain',
)

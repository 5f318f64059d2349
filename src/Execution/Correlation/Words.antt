-- ===== src/Execution/Correlation/Words.antt =====
-- The tokens of an identifier are words.
use algo_trading.Common.{
  ℕ, zero, suc, ◌≡◌, refl, true, not, List, [], ◌∷◌, ◌++◌, length, arith, ◌==◌, if-holds,
}
use algo_trading.Models.{Result, ok, err}
use algo_trading.Execution.Correlation.{
  Text, is_alphanumeric, lower, all_of, sanitised, first, cut, token, parts_from, some_parts, heads,
  shortened, initials, is_word,
}
use algo_trading.Execution.Correlation.Numerals.{and_parts, and_true, all_of-append}

sanitised-all_of : (cs : Text) → all_of is_alphanumeric (sanitised cs) ≡ true
unfolding sanitised all_of
sanitised-all_of [] = refl
sanitised-all_of (c ∷ cs) =
    let rest = sanitised cs in
    if-holds (λ t. all_of is_alphanumeric t ≡ true) (is_alphanumeric (lower c)) (lower c ∷ rest)
      rest (λ kept. and_true (is_alphanumeric (lower c)) _ kept (sanitised-all_of cs))
      (λ _. sanitised-all_of cs)

first-all_of :
    (n : ℕ) (cs : Text)
    → all_of is_alphanumeric cs ≡ true
    → all_of is_alphanumeric (first n cs) ≡ true
unfolding first all_of
first-all_of zero cs h = refl
first-all_of (suc n) [] h = refl
first-all_of (suc n) (c ∷ cs) h =
    let parts = and_parts (is_alphanumeric c) (all_of is_alphanumeric cs) h in
    and_true (is_alphanumeric c) _ parts.0 (first-all_of n cs parts.1)

-- The start of a text of letters and digits is a word.
first-is_word :
    (n c : ℕ) (cs : Text)
    → all_of is_alphanumeric (c ∷ cs) ≡ true
    → is_word (first (suc n) (c ∷ cs)) ≡ true
unfolding is_word
first-is_word n c cs h =
    and_true (not (length (first (suc n) (c ∷ cs)) == 0)) _ (unfold first in ground arith)
      (first-all_of (suc n) (c ∷ cs) h)

-- What holds of a text, if there is one.
abbrev pub IfText : Result Text → Type 0
IfText (err e) = Unit
IfText (ok s) = is_word s ≡ true

cut-is_word : (n : ℕ) (cs : Text) → all_of is_alphanumeric cs ≡ true → IfText (cut (suc n) cs)
unfolding cut
cut-is_word n [] h = tt
cut-is_word n (c ∷ cs) h = first-is_word n c cs h

pub token-is_word : (n : ℕ) (value : Text) → IfText (token (suc n) value)
unfolding token
token-is_word n value = cut-is_word n (sanitised value) (sanitised-all_of value)

abbrev AllWords : List Text → Type 0
AllWords [] = Unit
AllWords (p ∷ ps) = (all_of is_alphanumeric p ≡ true) × AllWords ps

parts_from-AllWords :
    (part cs : Text) → all_of is_alphanumeric part ≡ true → AllWords (parts_from part cs)
unfolding parts_from all_of
parts_from-AllWords part [] h = (h, tt)
parts_from-AllWords part (c ∷ cs) h =
    if-holds AllWords (is_alphanumeric (lower c)) (parts_from (part ++ lower c ∷ []) cs)
      (part ∷ parts_from [] cs)
      (λ kept. parts_from-AllWords (part ++ lower c ∷ []) cs (
        all_of-append is_alphanumeric part (lower c ∷ []) h
          (and_true (is_alphanumeric (lower c)) true kept refl)))
      (λ _. (h, parts_from-AllWords [] cs refl))

-- Parts that are words, of which none is empty.
abbrev SomeWords : List Text → Type 0
SomeWords [] = Unit
SomeWords ([] ∷ ps) = ⊥
SomeWords ((c ∷ cs) ∷ ps) = (all_of is_alphanumeric (c ∷ cs) ≡ true) × SomeWords ps

some_parts-SomeWords : (ps : List Text) → AllWords ps → SomeWords (some_parts ps)
unfolding some_parts
some_parts-SomeWords [] h = tt
some_parts-SomeWords ([] ∷ ps) h = some_parts-SomeWords ps h.1
some_parts-SomeWords ((c ∷ cs) ∷ ps) h = (h.0, some_parts-SomeWords ps h.1)

heads-all_of : (ps : List Text) → SomeWords ps → all_of is_alphanumeric (heads ps) ≡ true
unfolding heads all_of
heads-all_of [] h = refl
heads-all_of ([] ∷ ps) h = absurd h
heads-all_of ((c ∷ cs) ∷ ps) h =
    let parts = and_parts (is_alphanumeric c) (all_of is_alphanumeric cs) h.0 in
    and_true (is_alphanumeric c) _ parts.0 (heads-all_of ps h.1)

shortened-is_word : (n : ℕ) (ps : List Text) → SomeWords ps → IfText (shortened (suc n) ps)
unfolding shortened
shortened-is_word n [] h = tt
shortened-is_word n ([] ∷ ps) h = absurd h
shortened-is_word n ((c ∷ cs) ∷ []) h = first-is_word n c cs h.0
shortened-is_word n ((c ∷ cs) ∷ q ∷ ps) h =
    let all = heads-all_of ((c ∷ cs) ∷ q ∷ ps) h in
    unfold heads in first-is_word n c (heads (q ∷ ps)) all

pub initials-is_word : (n : ℕ) (value : Text) → IfText (initials (suc n) value)
unfolding initials
initials-is_word n value =
    let ps = parts_from [] value in
    shortened-is_word n (some_parts ps)
      (some_parts-SomeWords ps (parts_from-AllWords [] value (unfold all_of in refl)))

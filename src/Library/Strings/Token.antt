-- ===== src/Library/Strings/Token.antt =====
-- Source/Libraries/StringLib.cpp: `getToken` takes a text apart.
use fptl.Prelude.{
  ℕ, zero, suc, ◌+◌, ◌-◌, ◌≤◌, ◌≡◌, refl, sym, ap, ◌∙◌, some, List, [], ◌∷◌, ◌++◌, length,
  length-drop, take, take-length, drop, ok, ◌>>=◌, arith,
}
use fptl.Value.{string}
use fptl.Ops.{Foreign, ops_check}
use fptl.Library.Strings.{token_of, token_pattern, token_values}

take-append_drop : (n : ℕ) (xs : List ℕ) → take n xs ++ drop n xs ≡ xs
take-append_drop zero xs = refl
take-append_drop (suc n) [] = refl
take-append_drop (suc n) (x ∷ xs) = ap (λ l. x ∷ l) (take-append_drop n xs)

drop-drop : (n m : ℕ) (xs : List ℕ) (k : ℕ) → k ≡ m + n → drop n (drop m xs) ≡ drop k xs
drop-drop n zero xs k e = ap (λ j. drop j xs) (omega arith)
drop-drop zero (suc m) [] zero e = refl
drop-drop (suc n) (suc m) [] zero e = refl
drop-drop zero (suc m) [] (suc k) e = refl
drop-drop (suc n) (suc m) [] (suc k) e = refl
drop-drop n (suc m) (x ∷ xs) zero e = absurd (omega arith)
drop-drop n (suc m) (x ∷ xs) (suc k) e = drop-drop n m xs k (omega arith)

take_rest : (n : ℕ) (xs : List ℕ) → take (length xs - n) (drop n xs) ≡ drop n xs
take_rest n xs = ap (λ k. take k (drop n xs)) (sym (length-drop n xs)) ∙ take-length (drop n xs)

abbrev pub between : ℕ → ℕ → List ℕ → List ℕ
between b e text = take (e - b) (drop b text)

three_parts :
    (text : List ℕ) (b e : ℕ)
    → b ≤ e
    → take b text ++ (between b e text ++ between e (length text) text) ≡ text
three_parts text b e h =
    ap (λ l. take b text ++ (between b e text ++ l))
      (take_rest e text ∙ sym (drop-drop (e - b) b text e (omega arith)))
    ∙ ap (λ l. take b text ++ l) (take-append_drop (e - b) (drop b text))
    ∙ take-append_drop b text

-- When the search for the token finds a match from the start of the text, with a first group that
-- begins at `b` and ends with the match, `getToken` gives a token and a rest, and the first `b`
-- characters, the token and the rest, one after the other, are the text.
pub token_values-append :
    (cpp : Foreign) (text pattern : List ℕ) (b e : ℕ) (more : List (ℕ × ℕ))
    → cpp.regex_search text (token_pattern pattern) ≡ ok (some ((0, e) ∷ (b, e) ∷ more))
    → b ≤ e
    → (token : List ℕ) × (rest : List ℕ) × (token_values cpp (string text) (string pattern)
        ≡ ok (string token ∷ string rest ∷ []))
      × (take b text ++ (token ++ rest) ≡ text)
unfolding token_values ops_check
token_values-append cpp text pattern b e more found h = (
  between b e text,
  between e (length text) text,
  ap (λ r. r >>= token_of text) found,
  three_parts text b e h,
)

-- ===== src/Library/Strings.antt =====
-- Source/Libraries/StringLib.cpp: the functions on texts. The text that `toString` prints is left out.
-- A string value has its characters, and not the place where they are stored, so that a part of a
-- text is a text.
pub mod Local
pub mod Token
use fptl.Prelude.{
  ℕ, ◌-◌, Option, none, some, List, [], ◌∷◌, ◌++◌, map, length, take, drop, Bool, true, false,
  String, Result, ok, err, fault, ◌>>=◌,
}
use fptl.Prelude.Int.{pos}
use fptl.Value.{DataValue, int, string, undefined}
use fptl.Frame.{Frame, get_arg, push, push_all}
use fptl.Scheme.{TFunction}
use fptl.Ops.{Foreign, ops_check, string_ops, string_val}
use fptl.Library.{unary, binary}

-- A function of the first two arguments that pushes several values, and one of three arguments.
unfoldable pub spread : (DataValue → DataValue → Result (List DataValue)) → TFunction
spread f fr = do lhs ← get_arg fr 0; rhs ← get_arg fr 1; vs ← f lhs rhs; ok (push_all vs fr)

unfoldable pub ternary : (DataValue → DataValue → DataValue → Result DataValue) → TFunction
ternary f fr = do
  first ← get_arg fr 0
  second ← get_arg fr 1
  third ← get_arg fr 2
  v ← f first second third
  ok (push v fr)

-- `opsCheck(StringOps::get(), arg)`, and the text
unfoldable pub text_of : DataValue → Result (List ℕ)
text_of arg = do _ ← ops_check string_ops arg; string_val arg

-- `StringBuilder::create(aCtx, src, begin, end)`
unfoldable pub part : List ℕ → ℕ × ℕ → DataValue
part text (b, e) = string (take (e - b) (drop b text))

-- `length`
unfoldable pub length_value : DataValue → Result DataValue
unfolding text_of
length_value arg = do s ← text_of arg; ok (int (pos (length s)))

-- What `search` and `match` push: the text of each group of the pattern.
unfoldable pub groups_of : List ℕ → Option (List (ℕ × ℕ)) → List DataValue
unfolding part
groups_of text none = undefined ∷ []
groups_of text (some ends) = map (part text) (drop 1 ends)

-- What `getToken` pushes: the first group, and what stands behind the match.
unfoldable pub token_of : List ℕ → Option (List (ℕ × ℕ)) → Result (List DataValue)
unfolding part
token_of text none = ok (undefined ∷ [])
token_of text (some ((b, e) ∷ group ∷ ends)) =
    ok (part text group ∷ part text (e, length text) ∷ [])
token_of text (some _) = err fault

-- `^(?:\s*)(` and `)` round the pattern
unfoldable pub token_pattern : List ℕ → List ℕ
token_pattern pattern =
    b'^' ∷ b'(' ∷ b'?' ∷ b':' ∷ 92 ∷ b's' ∷ b'*' ∷ b')' ∷ b'(' ∷ (pattern ++ b')' ∷ [])

module _ (cpp : Foreign) where
  -- `search` and `match`
  unfoldable pub regex_values :
      (List ℕ → List ℕ → Result (Option (List (ℕ × ℕ))))
      → DataValue
      → DataValue
      → Result (List DataValue)
  unfolding text_of groups_of
  regex_values find arg0 arg1 = do
    src ← text_of arg0
    pattern ← text_of arg1
    found ← find src pattern
    ok (groups_of src found)

  -- `replace`
  unfoldable pub replace_value : DataValue → DataValue → DataValue → Result DataValue
  unfolding text_of
  replace_value arg0 arg1 arg2 = do
    src ← text_of arg0
    pattern ← text_of arg1
    format ← text_of arg2
    result ← cpp.regex_replace src pattern format
    ok (string result)

  -- `getToken`
  unfoldable pub token_values : DataValue → DataValue → Result (List DataValue)
  unfolding text_of token_pattern token_of
  token_values arg0 arg1 = do
    src ← text_of arg0
    pattern ← text_of arg1
    found ← cpp.regex_search src (token_pattern pattern)
    token_of src found

  -- The table of the library.
  unfoldable pub string_functions : List (String × TFunction × Bool)
  unfolding spread ternary length_value regex_values replace_value token_values
  string_functions =
      ("length", unary length_value, false)
      ∷ ("search", spread (regex_values cpp.regex_search), true)
      ∷ ("replace", ternary replace_value, true)
      ∷ ("match", spread (regex_values cpp.regex_match), true)
      ∷ ("getToken", spread token_values, true)
      ∷ []

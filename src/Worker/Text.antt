-- ===== src/Worker/Text.antt =====
-- lazyfs/src/main.cpp, `fht_worker`: what it does with a text. `std::regex` splits a command at "::" and
-- checks numbers; a text is walked character by character.
pub mod Printed
use Prim.Native.Char.{Char, code}
use Prim.Native.String.{String}
use lazyfs.Base.{
  Bool, true, false, ◌&&◌, Option, none, some, List, [], ◌∷◌, leb, if◌then◌else◌, ◌==◌, nat_eq,
  string_eq,
}

-- `text.rfind (prefix, 0) == 0`
unfoldable pub has_prefix : String → String → Bool
has_prefix String.[] s = true
has_prefix (String.◌∷◌ c p) String.[] = false
has_prefix (String.◌∷◌ c p) (String.◌∷◌ d s) = code c == code d && has_prefix p s

-- What stands behind the first "=".
unfoldable pub behind_equals : String → Option String
behind_equals String.[] = none
behind_equals (String.◌∷◌ c s) =
    let rest = behind_equals s in if code c == b'=' then some s else rest

-- `current.erase (0, current.find ("=") + 1)`: without a "=" the sum is 0.
unfoldable pub after_equals : String → String
unfolding behind_equals
after_equals s = elim (behind_equals s) [ none ↦ s | some t ↦ t ]

-- A character before the first of some texts.
unfoldable pub cons_first : Char → List String → List String
cons_first c [] = String.◌∷◌ c String.[] ∷ []
cons_first c (s ∷ rest) = String.◌∷◌ c s ∷ rest

-- The texts between the separators "::".
unfoldable pub split : String → List String
unfolding cons_first
split String.[] = String.[] ∷ []
split (String.◌∷◌ c String.[]) = String.◌∷◌ c String.[] ∷ []
split (String.◌∷◌ c (String.◌∷◌ d s)) =
    let after = String.[] ∷ split s in
    let on = cons_first c (split (String.◌∷◌ d s)) in
    if code c == b':' && code d == b':' then after else on

-- A last text that is empty is no token.
unfoldable pub drop_empty_last : List String → List String
drop_empty_last [] = []
drop_empty_last (s ∷ []) = if s == "" then [] else s ∷ []
drop_empty_last (s ∷ t ∷ rest) = s ∷ drop_empty_last (t ∷ rest)

-- `std::sregex_token_iterator (begin, end, std::regex ("::"), -1)`
unfoldable pub tokens : String → List String
unfolding split drop_empty_last
tokens s = drop_empty_last (split s)

unfoldable pub is_digit : Char → Bool
is_digit c = leb b'0' (code c) && leb (code c) b'9'

-- `(\\d+,)*\\d+`, where `seen` says that the text before ends with a digit.
unfoldable pub numbers_from : Bool → String → Bool
unfolding is_digit
numbers_from seen String.[] = seen
numbers_from seen (String.◌∷◌ c s) =
    let on = numbers_from true s in
    let next = seen && numbers_from false s in
    if is_digit c then on else if code c == b',' then next else false

unfoldable pub is_numbers : String → Bool
unfolding numbers_from
is_numbers s = numbers_from false s

-- `\\d+`, in the same way.
unfoldable pub digits_from : Bool → String → Bool
unfolding is_digit
digits_from seen String.[] = seen
digits_from seen (String.◌∷◌ c s) = is_digit c && digits_from true s

unfoldable pub is_number : String → Bool
unfolding digits_from
is_number s = digits_from false s

-- `string (buffer)` up to the first null character.
unfoldable pub c_string : String → String
c_string String.[] = String.[]
c_string (String.◌∷◌ c s) =
    let rest = String.◌∷◌ c (c_string s) in if code c == 0 then String.[] else rest

-- `buffer[ret - 1] = '\\0'`: the last character that was read is dropped.
unfoldable pub drop_last : String → String
drop_last String.[] = String.[]
drop_last (String.◌∷◌ c String.[]) = String.[]
drop_last (String.◌∷◌ c (String.◌∷◌ d s)) = String.◌∷◌ c (drop_last (String.◌∷◌ d s))

-- ===== src/Worker/Text/Printed.antt =====
-- lazyfs/src/main.cpp, `fht_worker`: the tokens of a command that is put together from attributes.
use Prim.Native.Char.{Char, code}
use Prim.Native.String.{String}
use lazyfs.Base.{
  ◌≡◌, refl, ap, Bool, true, false, List, not, ◌&&◌, [], ◌∷◌, arith, ◌==◌, nat_eq, string_eq,
  ==_of_ne,
}
use lazyfs.Worker.Text.{
  split, cons_first, drop_empty_last, tokens, numbers_from, is_numbers, digits_from, is_number,
  is_digit, has_prefix,
}

-- The texts one behind the other.
abbrev pub cat : String → String → String
cat String.[] t = t
cat (String.◌∷◌ c s) t = String.◌∷◌ c (cat s t)

-- No character is a colon.
abbrev pub no_colon : String → Bool
no_colon String.[] = true
no_colon (String.◌∷◌ c s) = not (code c == b':') && no_colon s

pub split-cat : (s t : String) → no_colon s ≡ true → split (cat s (cat "::" t)) ≡ s ∷ split t
unfolding split cons_first
split-cat String.[] t h = refl
split-cat (String.◌∷◌ c String.[]) t h = ground arith
split-cat (String.◌∷◌ c (String.◌∷◌ d s)) t h = ground (arith, split-cat (String.◌∷◌ d s) t)

pub split_of_no_colon : (s : String) → no_colon s ≡ true → split s ≡ s ∷ []
unfolding split cons_first
split_of_no_colon String.[] h = refl
split_of_no_colon (String.◌∷◌ c String.[]) h = refl
split_of_no_colon (String.◌∷◌ c (String.◌∷◌ d s)) h =
    ground (arith, split_of_no_colon (String.◌∷◌ d s))

numbers_from-no_colon : (seen : Bool) (s : String) → numbers_from seen s ≡ true → no_colon s ≡ true
unfolding numbers_from is_digit
numbers_from-no_colon seen String.[] h = refl
numbers_from-no_colon seen (String.◌∷◌ c s) h =
    ground (arith, numbers_from-no_colon true s, numbers_from-no_colon false s)

-- A list of numbers has no colon.
pub is_numbers-no_colon : (s : String) → is_numbers s ≡ true → no_colon s ≡ true
unfolding is_numbers
is_numbers-no_colon s h = numbers_from-no_colon false s h

digits_from-no_colon : (seen : Bool) (s : String) → digits_from seen s ≡ true → no_colon s ≡ true
unfolding digits_from is_digit
digits_from-no_colon seen String.[] h = refl
digits_from-no_colon seen (String.◌∷◌ c s) h = ground (arith, digits_from-no_colon true s)

-- A number has no colon.
pub is_number-no_colon : (s : String) → is_number s ≡ true → no_colon s ≡ true
unfolding is_number
is_number-no_colon s h = digits_from-no_colon false s h

-- A text with a prefix is not one without.
pub has_prefix-ne :
    (p s t : String) → has_prefix p s ≡ true → has_prefix p t ≡ false → (s == t) ≡ false
has_prefix-ne p s t h k = ==_of_ne s t (λ e. let f : has_prefix p t ≡ true = rw (← e) h in cc)

-- A text with a first character is not empty.
pub cons-ne-nil : (c : Char) (s : String) → (String.◌∷◌ c s == String.[]) ≡ false
cons-ne-nil c s = ==_of_ne (String.◌∷◌ c s) String.[] (λ e. cc)

-- Texts with the separator between them.
unfoldable pub joined : List String → String
joined [] = String.[]
joined (s ∷ []) = s
joined (s ∷ t ∷ rest) = cat s (cat "::" (joined (t ∷ rest)))

-- Texts that can stand as tokens: they have no colon and are not empty.
abbrev pub AreTokens : List String → Type 0
AreTokens [] = Unit {0}
AreTokens (s ∷ rest) = (no_colon s ≡ true) × (s == String.[] ≡ false) × AreTokens rest

split-joined :
    (s : String) (rest : List String) → AreTokens (s ∷ rest) → split (joined (s ∷ rest)) ≡ s ∷ rest
unfolding joined
split-joined s [] h = split_of_no_colon s h.0
split-joined s (t ∷ rest) h =
    rw (split-cat s (joined (t ∷ rest)) h.0) (ap (λ l. s ∷ l) (split-joined t rest h.2))

drop_empty_last_lem :
    (s : String) (rest : List String) → AreTokens (s ∷ rest) → drop_empty_last (s ∷ rest) ≡ s ∷ rest
unfolding drop_empty_last
drop_empty_last_lem s [] h = rw h.1 refl
drop_empty_last_lem s (t ∷ rest) h = ap (λ l. s ∷ l) (drop_empty_last_lem t rest h.2)

-- Texts that have no colon and are not empty are the tokens of the command that has them with "::"
-- between them.
pub tokens-joined :
    (s : String) (rest : List String) → AreTokens (s ∷ rest) → tokens (joined (s ∷ rest)) ≡ s ∷ rest
unfolding tokens
tokens-joined s rest h = rw (tokens, split-joined s rest h) (drop_empty_last_lem s rest h)

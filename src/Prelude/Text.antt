-- ===== src/Prelude/Text.antt =====
-- What the code does with a Python `str`, on ASCII: case, `strip`, `split`, `int` and `str`.
use intelligent_multi_camera.Prelude.Tests.{ltb, leb, if◌then◌else◌}
use intelligent_multi_camera.Prelude.Int.{ℤ, pos, negsuc, sub_ℕ}
use Prim.Native.Nat.{ℕ, zero, suc, ◌+◌, ◌-◌, ◌*◌, ◌/◌, ◌%◌, compare, Ordering}
use Prim.Native.Char.{code}
use Prim.Native.String.{String, ◌++◌, slice}
use mathlib.Core.Path.{◌≡◌, refl}
use mathlib.Core.Bool.{Bool, true, false, ◌&&◌, ◌||◌}
use mathlib.Core.Option.{Option, none, some}
use mathlib.Core.List.{List, [], ◌∷◌}

infix 50 ◌==◌
abbrev ◌==◌ : ℕ → ℕ → Bool
m == n = elim (compare m n) [ Ordering.eq ↦ true | _ ↦ false ]

-- `not s`
abbrev pub is_empty : String → Bool
is_empty String.[] = true
is_empty (String.◌∷◌ c s) = false

abbrev lower : ℕ → ℕ
lower c = if leb 65 c && leb c 90 then c + 32 else c

-- `s.lower() == t.lower()`
unfoldable pub same_name : String → String → Bool
same_name String.[] String.[] = true
same_name String.[] (String.◌∷◌ d t) = false
same_name (String.◌∷◌ c s) String.[] = false
same_name (String.◌∷◌ c s) (String.◌∷◌ d t) = lower (code c) == lower (code d) && same_name s t

abbrev pub is_space : ℕ → Bool
is_space c = c == 32 || (leb 9 c && leb c 13) || (leb 28 c && leb c 31)

abbrev pub left_strip : String → String
left_strip String.[] = ""
left_strip (String.◌∷◌ c s) =
    let rest = left_strip s in if is_space (code c) then rest else String.◌∷◌ c s

abbrev pub right_strip : String → String
right_strip String.[] = ""
right_strip (String.◌∷◌ c s) =
    let rest = right_strip s in if is_space (code c) && is_empty rest then "" else String.◌∷◌ c rest

-- `s.strip()`
unfoldable pub strip : String → String
strip s = left_strip (right_strip s)

abbrev add_word : String → List String → List String
add_word w ws = if is_empty w then ws else w ∷ ws

-- The word at the start, and the words after it.
abbrev words : String → String × List String
words String.[] = ("", [])
words (String.◌∷◌ c s) =
    let (w, ws) = words s in if is_space (code c) then ("", add_word w ws) else (String.◌∷◌ c w, ws)

-- `s.split()`
unfoldable pub split : String → List String
split s = let (w, ws) = words s in add_word w ws

-- `s.split(",")`, its first element and the others.
unfoldable pub fields : String → String × List String
fields String.[] = ("", [])
fields (String.◌∷◌ c s) =
    let (w, ws) = fields s in if code c == 44 then ("", w ∷ ws) else (String.◌∷◌ c w, ws)

abbrev is_digit : ℕ → Bool
is_digit c = leb 48 c && leb c 57

-- Digits with single underscores between them; `after` says that a digit has just been read.
abbrev digits : ℕ → Bool → String → Option ℕ
digits n after String.[] = if after then some n else none
digits n after (String.◌∷◌ c s) =
    let more = digits (10 * n + (code c - 48)) true s in
    let skip = digits n false s in
    if is_digit (code c) then more else if code c == 95 && after then skip else none

abbrev opposite : Option ℕ → Option ℤ
opposite none = none
opposite (some n) = some (sub_ℕ 0 n)

abbrev natural : Option ℕ → Option ℤ
natural none = none
natural (some n) = some (pos n)

abbrev signed : String → Option ℤ
signed String.[] = none
signed (String.◌∷◌ c s) =
    if code c == 45
    then opposite (digits 0 false s)
    else if code c == 43
    then natural (digits 0 false s)
    else natural (digits 0 false (String.◌∷◌ c s))

-- `int(s)`, and `none` where it raises `ValueError`.
unfoldable pub int_of : String → Option ℤ
unfolding strip
int_of s = signed (strip s)

abbrev digit : ℕ → String
digit n = slice "0123456789" n (n + 1)

-- The fuel is more than the number of digits.
abbrev decimal : ℕ → ℕ → String
decimal zero n = ""
decimal (suc fuel) n =
    let high = decimal fuel (n / 10) in if ltb n 10 then digit n else high ++ digit (n % 10)

-- `str(n)`
unfoldable pub str_of : ℤ → String
str_of (pos n) = decimal (suc n) n
str_of (negsuc n) = "-" ++ decimal (suc (suc n)) (suc n)

program : Unit {0}
unfolding same_name strip split fields int_of str_of
program = tt

splits : split "  Bearer a.b " ≡ "Bearer" ∷ "a.b" ∷ []
unfolding program
splits = refl

names : same_name "X-User-Id" "x-user-id" ≡ true
unfolding program
names = refl

numbers : int_of " -1_0 " ≡ some (negsuc 9)
unfolding program
numbers = refl

no_number : int_of "1__0" ≡ none
unfolding program
no_number = refl

prints : str_of (pos 120) ≡ "120"
unfolding program
prints = refl

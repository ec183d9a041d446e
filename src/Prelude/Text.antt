-- ===== src/Prelude/Text.antt =====
-- What the services use of Go's strings, strconv and path/filepath, on the code points of a text.
use Prim.Native.Nat.{ℕ, zero, suc, ◌+◌, ◌-◌, ◌*◌, ◌/◌, ◌%◌, ◌<◌}
use Prim.Native.Char.{Char, code}
use Prim.Native.String
use Prim.Native.String.{String}
use mathlib.Core.Path.{◌≡◌, refl}
use mathlib.Core.Bool.{Bool, true, false, not, ◌&&◌, ◌||◌}
use mathlib.Core.List.{List, [], ◌∷◌}
use mathlib.Core.Logic.{inl, inr}
use native.Mathlib.Omega.{arith}
use migration_manager.Prelude.Tests.{ltb, leb, ◌==◌, if◌then◌else◌, is_empty, Bool-cases}
use migration_manager.Prelude.Int.{ℤ, pos, negsuc}

abbrev pub codes : String → List ℕ
codes String.[] = []
codes (String.◌∷◌ c s) = code c ∷ codes s

-- `unicode.ToLower`, as far as it gives ASCII letters: U+0130 and U+212A are the ones beyond ASCII.
abbrev pub lower_code : ℕ → ℕ
lower_code c =
    if leb b'A' c && leb c b'Z'
    then c + 32
    else if c == 0x130
    then b'i'
    else if c == 0x212a
    then b'k'
    else c

abbrev pub lower : List ℕ → List ℕ
lower [] = []
lower (c ∷ cs) = lower_code c ∷ lower cs

-- `strings.HasPrefix`: whether the second begins with the first.
abbrev pub begins : List ℕ → List ℕ → Bool
begins [] cs = true
begins (p ∷ ps) [] = false
begins (p ∷ ps) (c ∷ cs) = (p == c) && begins ps cs

-- `strings.Contains`: whether the first stands somewhere in the second.
abbrev pub contains : List ℕ → List ℕ → Bool
contains ps [] = is_empty ps
contains ps (c ∷ cs) = begins ps (c ∷ cs) || contains ps cs

abbrev pub is_digit : ℕ → Bool
is_digit c = leb b'0' c && leb c b'9'

abbrev pub all_digits : List ℕ → Bool
all_digits [] = true
all_digits (c ∷ cs) = is_digit c && all_digits cs

abbrev pub value_from : ℕ → List ℕ → ℕ
value_from acc [] = acc
value_from acc (c ∷ cs) = value_from (acc * 10 + (c - b'0')) cs

abbrev is_natural : ℕ → List ℕ → Bool
is_natural limit cs = not (is_empty cs) && all_digits cs && leb (value_from 0 cs) limit

-- `strconv.Atoi` returns no error: a sign or none, digits, and a value that an `int` holds.
abbrev pub is_int : List ℕ → Bool
is_int [] = false
is_int (c ∷ cs) =
    if c == b'-'
    then is_natural 9223372036854775808 cs
    else is_natural 9223372036854775807 (if c == b'+' then cs else c ∷ cs)

-- `strings.Split` at a separator of one code point; the parts before it come in reverse.
abbrev pub split_from : ℕ → List ℕ → List ℕ → List (List ℕ)
split_from sep part [] = mathlib.Core.List.reverse part ∷ []
split_from sep part (c ∷ cs) =
    let next = split_from sep [] cs in
    let more = split_from sep (c ∷ part) cs in
    if c == sep then mathlib.Core.List.reverse part ∷ next else more

abbrev digit : ℕ → String
digit d =
    if d == 0
    then "0"
    else if d == 1
    then "1"
    else if d == 2
    then "2"
    else if d == 3
    then "3"
    else if d == 4
    then "4"
    else if d == 5
    then "5"
    else if d == 6
    then "6"
    else if d == 7
    then "7"
    else if d == 8
    then "8"
    else "9"

-- The decimal digits of a number, on fuel.
unfoldable pub digits : ℕ → ℕ → String
digits zero n = ""
digits (suc f) n =
    let rest = digits f (n / 10) in if ltb n 10 then digit n else String.◌++◌ rest (digit (n % 10))

-- One more than the number is fuel enough: any more gives the same text.
pub digits_fuel : (f g n : ℕ) → n < f → n < g → digits f n ≡ digits g n
unfolding digits
digits_fuel zero g n h k = absurd (omega arith)
digits_fuel (suc f) zero n h k = absurd (omega arith)
digits_fuel (suc f) (suc g) n h k = elim (Bool-cases (ltb n 10)) [
  | inl e ↦ rw e
  | inr e ↦ rw e (rw (digits_fuel f g (n / 10) (ground arith) (ground arith)) refl)
]

-- `strconv.Itoa`.
unfoldable pub itoa : ℤ → String
unfolding digits
itoa (pos n) = digits (suc n) n
itoa (negsuc n) = String.◌++◌ "-" (digits (suc (suc n)) (suc n))

-- `strings.Join`.
abbrev pub join : String → List String → String
join sep [] = ""
join sep (s ∷ []) = s
join sep (s ∷ t ∷ ss) = String.◌++◌ s (String.◌++◌ sep (join sep (t ∷ ss)))

abbrev dash : Char
dash = "-"

-- `strings.ReplaceAll(s, " ", "-")`.
abbrev pub dash_spaces : String → String
dash_spaces String.[] = ""
dash_spaces (String.◌∷◌ c s) = String.◌∷◌ (if code c == b' ' then dash else c) (dash_spaces s)

abbrev is_nil : String → Bool
is_nil String.[] = true
is_nil (String.◌∷◌ c s) = false

-- The text without the slashes at its end.
abbrev strip_slashes : String → String
strip_slashes String.[] = ""
strip_slashes (String.◌∷◌ c s) =
    let rest = strip_slashes s in if (code c == b'/') && is_nil rest then "" else String.◌∷◌ c rest

-- What follows the last slash.
abbrev after_slash : String → String → String
after_slash part String.[] = part
after_slash part (String.◌∷◌ c s) =
    after_slash (if code c == b'/' then "" else String.◌++◌ part (String.◌∷◌ c "")) s

-- `filepath.Base`.
unfoldable pub base : String → String
base s =
    if is_nil s
    then "."
    else if is_nil (strip_slashes s)
    then "/"
    else after_slash "" (strip_slashes s)

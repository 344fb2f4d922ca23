-- ===== src/Text.antt =====
-- The regular expressions that the program tests texts with: a word somewhere in a text, with or
-- without regard to case, and two words on one line. And numbers in decimal, as a template prints
-- them.
pub mod Words
use Prim.Native.Char.{Char, code}
use Prim.Native.String.{String, ◌++◌}
use hop_desk.Common.{
  Bool, List, Option, [], false, if◌then◌else◌, is_some, leb, ltb, none, not, some, suc, zero, ℕ,
  ◌%◌, ◌&&◌, ◌+◌, ◌/◌, ◌==◌, ◌||◌, ◌∷◌, get_elem?,
}

-- A letter's number, of the lower case under the flag `i` (which folds no other character onto a
-- letter of ASCII).
abbrev pub same : ℕ → ℕ
same c = c

unfoldable pub lower : ℕ → ℕ
lower c = if leb 65 c && leb c 90 then c + 32 else c

-- The rest of a text after a word that it begins with.
unfoldable pub rest_after : (fold : ℕ → ℕ) → (word text : String) → Option String
rest_after fold String.[] s = some s
rest_after fold (String.◌∷◌ c w) String.[] = none
rest_after fold (String.◌∷◌ c w) (String.◌∷◌ d s) =
    if code c == fold (code d) then rest_after fold w s else none

abbrev pub begins : (fold : ℕ → ℕ) → (word text : String) → Bool
begins fold w s = is_some (rest_after fold w s)

-- `/word/.test(text)`; with `lower`, `/word/i` for a word in lower case.
unfoldable pub contains : (fold : ℕ → ℕ) → (word text : String) → Bool
contains fold w String.[] = begins fold w String.[]
contains fold w (String.◌∷◌ d s) = begins fold w (String.◌∷◌ d s) || contains fold w s

-- `/a|b|c/.test(text)`
unfoldable pub contains_any : (fold : ℕ → ℕ) → List String → String → Bool
contains_any fold [] s = false
contains_any fold (w ∷ ws) s = contains fold w s || contains_any fold ws s

unfoldable pub ends_line : ℕ → Bool
ends_line c = c == 10 || c == 13 || c == 8232 || c == 8233

-- The word in the rest of the line.
unfoldable pub on_line : (word text : String) → Bool
on_line w String.[] = begins same w String.[]
on_line w (String.◌∷◌ d s) =
    begins same w (String.◌∷◌ d s) || (not (ends_line (code d)) && on_line w s)

abbrev pub followed : String → Option String → Bool
followed v none = false
followed v (some s) = on_line v s

-- `/first.*second/.test(text)`
unfoldable pub contains_then : (first second text : String) → Bool
contains_then w v String.[] = followed v (rest_after same w String.[])
contains_then w v (String.◌∷◌ d s) =
    followed v (rest_after same w (String.◌∷◌ d s)) || contains_then w v s

abbrev digits : List String
digits = "0" ∷ "1" ∷ "2" ∷ "3" ∷ "4" ∷ "5" ∷ "6" ∷ "7" ∷ "8" ∷ "9" ∷ []

abbrev or_empty : Option String → String
or_empty none = ""
or_empty (some s) = s

unfoldable pub digit : ℕ → String
digit n = or_empty (get_elem? digits n)

unfoldable pub decimal_on : (fuel n : ℕ) → String → String
decimal_on zero n s = s
decimal_on (suc fuel) n s =
    let rest = decimal_on fuel (n / 10) (digit (n % 10) ++ s) in
    if ltb n 10 then digit n ++ s else rest

-- `${n}`
unfoldable pub decimal : ℕ → String
decimal n = decimal_on (suc n) n ""

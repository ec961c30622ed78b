-- ===== src/Prelude/Texts.antt =====
-- Codes and texts: equality, membership in a list of codes, and `\S`.
use Prim.Native.Nat.{ℕ}
use Prim.Native.Char.{Char, code}
use Prim.Native.String.{String, count}
use mathlib.Core.Bool.{Bool, true, false, not, ◌&&◌, ◌||◌}
use mathlib.Core.Path.{◌≡◌, refl}
use mathlib.Core.Option.{Option, none, some}
use mathlib.Core.List.{List, [], ◌∷◌}
use text.Mathlib.Text.{◌==◌ as str_eq}
use shortform_streaming.Prelude.Tests.{leb, ◌==◌, ==_refl, if◌then◌else◌}
use shortform_streaming.Prelude.Lists.{any}

-- `code in values`, and `values @> ARRAY[code]`.
abbrev pub contains : String → List String → Bool
contains c cs = any (λ d. str_eq d c) cs

-- The whitespace of `str.strip` and of `\s`.
abbrev pub is_space : ℕ → Bool
is_space c =
    (leb 9 c && leb c 13)
    || (leb 28 c && leb c 32)
    || c == 133
    || c == 160
    || c == 5760
    || (leb 8192 c && leb c 8202)
    || c == 8232
    || c == 8233
    || c == 8239
    || c == 8287
    || c == 12288

-- `bool(text.strip())`
unfoldable pub has_text : String → Bool
has_text String.[] = false
has_text (String.◌∷◌ c s) = not (is_space (code c)) || has_text s

abbrev prepend : Char → List String → List String
prepend c [] = (String.◌∷◌ c String.[]) ∷ []
prepend c (w ∷ ws) = String.◌∷◌ c w ∷ ws

-- `regex=r"\S"` in the database, whose locale says which characters are white space.
unfoldable pub matches_nonspace : (ℕ → Bool) → String → Bool
matches_nonspace space String.[] = false
matches_nonspace space (String.◌∷◌ c s) = not (space (code c)) || matches_nonspace space s

-- `text.split()`, for words that single spaces separate.
unfoldable pub words : String → List String
words String.[] = String.[] ∷ []
words (String.◌∷◌ c s) =
    let rest = words s in elim (code c == 32) [ true ↦ String.[] ∷ rest | false ↦ prepend c rest ]

-- The codes of `[0-9]`, `[a-z]` and `[A-Z]`.
abbrev pub is_digit : ℕ → Bool
is_digit c = leb 48 c && leb c 57

abbrev pub is_lower : ℕ → Bool
is_lower c = leb 97 c && leb c 122

abbrev pub is_upper : ℕ → Bool
is_upper c = leb 65 c && leb c 90

abbrev pub is_alphanumeric : ℕ → Bool
is_alphanumeric c = is_digit c || is_lower c || is_upper c

-- `[…]*` against a whole text
unfoldable pub all_chars : (ℕ → Bool) → String → Bool
all_chars p String.[] = true
all_chars p (String.◌∷◌ c s) = p (code c) && all_chars p s

unfoldable pub any_char : (ℕ → Bool) → String → Bool
any_char p String.[] = false
any_char p (String.◌∷◌ c s) = p (code c) || any_char p s

-- `re.fullmatch(r"[…]{low,high}", text)`
abbrev pub matches_class : (ℕ → Bool) → ℕ → ℕ → String → Bool
matches_class p low high s = leb low (count s) && leb (count s) high && all_chars p s

-- `re.fullmatch(r"[…][…]*", text)`
abbrev pub starts_and_goes_on : (ℕ → Bool) → (ℕ → Bool) → String → Bool
starts_and_goes_on p q String.[] = false
starts_and_goes_on p q (String.◌∷◌ c s) = p (code c) && all_chars q s

-- `text.split(".")`, by the code of the separator
unfoldable pub split_on : ℕ → String → List String
split_on sep String.[] = String.[] ∷ []
split_on sep (String.◌∷◌ c s) =
    let rest = split_on sep s in
    elim (code c == sep) [ true ↦ String.[] ∷ rest | false ↦ prepend c rest ]

-- `prefix + text`, and what stands behind `prefix`, for a text that starts with it.
unfoldable pub with_prefix : String → String → String
with_prefix String.[] s = s
with_prefix (String.◌∷◌ c p) s = let rest = with_prefix p s in String.◌∷◌ c rest

unfoldable pub after_prefix : String → String → Option String
after_prefix String.[] s = some s
after_prefix (String.◌∷◌ c p) String.[] = none
after_prefix (String.◌∷◌ c p) (String.◌∷◌ d s) =
    let rest = after_prefix p s in if code c == code d then rest else none

pub after_prefix-with_prefix : (p s : String) → after_prefix p (with_prefix p s) ≡ some s
unfolding with_prefix after_prefix
after_prefix-with_prefix String.[] s = refl
after_prefix-with_prefix (String.◌∷◌ c p) s = rw (==_refl (code c)) (after_prefix-with_prefix p s)

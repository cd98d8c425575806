-- ===== src/Base/Text/Search.antt =====
-- The searches of `&str` by a text, the last occurrence of a `char`, and `lines()`.
use pbs.Base.{ℕ, zero, suc, ◌+◌, ◌/◌, ◌%◌, Bool, ◌||◌, Option, none, some, List, [], ◌∷◌, ◌++◌}
use pbs.Base.Tests.{ltb, nat_eq, if◌then◌else◌}
use pbs.Base.Text.{Text, ◌==◌, is_empty, starts_with, strip_prefix, strip_suffix, split}

-- `s.contains(p)`
unfoldable pub contains : Text → Text → Bool
unfolding starts_with is_empty
contains p [] = is_empty p
contains p (c ∷ s) = starts_with p (c ∷ s) || contains p s

-- `s.ends_with(p)`
unfoldable pub ends_with : Text → Text → Bool
unfolding ◌==◌
ends_with p [] = [] == p
ends_with p (c ∷ s) = (c ∷ s) == p || ends_with p s

abbrev pub cons_first : ℕ → Option (Text × Text) → Option (Text × Text)
cons_first c none = none
cons_first c (some (a, b)) = some (c ∷ a, b)

-- `s.split_once(p)` at a text
unfoldable pub split_once_at : Text → Text → Option (Text × Text)
unfolding strip_prefix
split_once_at p [] = if [] == p then some ([], []) else none
split_once_at p (c ∷ s) = elim (strip_prefix p (c ∷ s)) [
  | some rest ↦ some ([], rest)
  | none ↦ cons_first c (split_once_at p s)
]

abbrev pub last_split : ℕ → ℕ → Text → Option (Text × Text) → Option (Text × Text)
last_split c d s (some (a, b)) = some (d ∷ a, b)
last_split c d s none = if nat_eq d c then some ([], s) else none

-- `s.rsplit_once(c)`, at the last occurrence
unfoldable pub rsplit_once : ℕ → Text → Option (Text × Text)
rsplit_once c [] = none
rsplit_once c (d ∷ s) = last_split c d s (rsplit_once c s)

abbrev without_return : Text → Text
without_return line = elim (strip_suffix (13 ∷ []) line) [ some l ↦ l | none ↦ line ]

abbrev lines_of : List Text → List Text
lines_of [] = []
lines_of (l ∷ []) = if is_empty l then [] else l ∷ []
lines_of (l ∷ m ∷ ls) = without_return l ∷ lines_of (m ∷ ls)

-- `s.lines()`: a last line that is empty is none, and one without its newline keeps a return.
unfoldable pub lines : Text → List Text
unfolding split strip_suffix is_empty
lines s = lines_of (split 10 s)

-- Octal digits, as `{:o}` prints them. The fuel exceeds the number of digits.
unfoldable pub octal_digits : ℕ → ℕ → Text
octal_digits zero n = []
octal_digits (suc f) n =
    let rest = octal_digits f (n / 8) in
    if ltb n 8 then (b'0' + n) ∷ [] else rest ++ ((b'0' + n % 8) ∷ [])

unfoldable pub show_octal : ℕ → Text
unfolding octal_digits
show_octal n = octal_digits (suc n) n

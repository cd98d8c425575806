-- ===== src/ConfigBackup/Manifest/PlainPath.antt =====
-- The paths that `check_rel` accepts, by their segments.
use pbs.Base.{Bool, true, false, ◌||◌, List, [], ◌∷◌, ◌≡◌, ◌≢◌, ◌↔◌, inl, inr, refl, arith}
use pbs.Base.Tests.{nat_eq, Bool-cases}
use pbs.Base.Lists.{any, All}
use pbs.Base.Text.{Text, str, is_empty, contains_char, starts_with, split}
use pbs.Base.Text.Equality.{text_eq_iff}
use pbs.Base.Result.{ok}
use pbs.ConfigBackup.{bad_segment, check_rel}

-- A segment that names neither nothing, nor this directory, nor its parent.
abbrev pub IsSegment : Text → Type 0
IsSegment s = (s ≢ []) × (s ≢ str ".") × (s ≢ str "..")

abbrev pub IsPlainPath : Text → Type 0
IsPlainPath p = (contains_char 0 p ≡ false) × All IsSegment (split b'/' p)

-- Segments and paths.
pub bad_segment_iff : (s : Text) → (bad_segment s ≡ false) ↔ IsSegment s
unfolding is_empty
bad_segment_iff [] = ground arith
bad_segment_iff (c ∷ s) =
    ground (arith, text_eq_iff (c ∷ s) (str "."), text_eq_iff (c ∷ s) (str ".."))

pub or_false_iff : (a b : Bool) → ((a || b) ≡ false) ↔ ((a ≡ false) × (b ≡ false))
or_false_iff a b = ground arith

pub any_bad_iff : (ss : List Text) → (any bad_segment ss ≡ false) ↔ All IsSegment ss
unfolding any
any_bad_iff [] = ground arith
any_bad_iff (s ∷ ss) =
    let (split_or, both) = or_false_iff (bad_segment s) (any bad_segment ss) in
    let (one, one') = bad_segment_iff s in
    let (rest, rest') = any_bad_iff ss in
    (λ h. (one (split_or h).0, rest (split_or h).1), λ h. both (one' h.0, rest' h.1))

-- Segments that are all proper make a path neither empty nor absolute.
pub proper_start :
    (p : Text)
    → any bad_segment (split b'/' p) ≡ false
    → (is_empty p ≡ false) × (starts_with (str "/") p ≡ false)
unfolding any split is_empty starts_with str
proper_start [] h = cc
proper_start (c ∷ s) h = elim (Bool-cases (nat_eq c b'/')) [
  | inl slash ↦ ground (arith, h, slash)
  | inr other ↦ (refl, ground (arith, other))
]

pub check_rel_iff : (debug : Text → Text) (p : Text) → (check_rel debug p ≡ ok tt) ↔ IsPlainPath p
unfolding check_rel
check_rel_iff debug p =
    let (proper, proper') = any_bad_iff (split b'/' p) in
    (
      λ h. (ground arith, proper (ground arith)),
      λ h.
          let good : any bad_segment (split b'/' p) ≡ false = proper' h.1 in
          let (filled, relative) = proper_start p good in rw (filled, h.0, relative, good),
    )

pub is_empty_iff : (s : Text) → (is_empty s ≡ true) ↔ (s ≡ [])
unfolding is_empty
is_empty_iff [] = (λ h. refl, λ h. refl)
is_empty_iff (c ∷ s) = (λ h. cc, λ h. cc)

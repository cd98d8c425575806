-- ===== src/ConfigBackup/Paths.antt =====
-- Accepted paths: what splitting one gives.
use pbs.Base.{
  ℕ, Bool, false, ◌||◌, Option, none, some, List, [], ◌∷◌, ◌++◌, ◌≡◌, inl, inr, ◌⊎◌, refl, sym, ap,
  subst, ◌∙◌, arith,
}
use pbs.Base.Tests.{nat_eq, nat_eq_iff, Bool-cases}
use pbs.Base.Lists.{any}
use pbs.Base.Text.{Text, str, is_empty, contains_char, starts_with, split}
use pbs.Base.Text.Search.{rsplit_once, last_split}
use pbs.Base.Result.{ok}
use pbs.ConfigBackup.{bad_segment, check_rel, split_rel, join_rel}

-- One name, which is not this directory or its parent, and no path.
abbrev pub IsComponent : Text → Type 0
IsComponent s = (bad_segment s ≡ false) × (contains_char b'/' s ≡ false)

-- What the last separator of a text parts it into, and how its segments are those of the parts.
data Splits (c : ℕ) (s : Text) : Option (Text × Text) → Type 0 where
  whole : contains_char c s ≡ false → split c s ≡ s ∷ [] → Splits c s none
  parted :
      (a b : Text)
      → s ≡ a ++ (c ∷ b)
      → contains_char c b ≡ false
      → split c s ≡ split c a ++ (b ∷ [])
      → Splits c s (some (a, b))

split_cons : (c : ℕ) (s : Text) → (p : Text) × (ps : List Text) × (split c s ≡ p ∷ ps)
unfolding split
split_cons c [] = ([], [], refl)
split_cons c (d ∷ s) =
    let (p, ps, e) = split_cons c s in
    elim (Bool-cases (nat_eq d c)) [
      | inl same ↦ ([], split c s, rw same)
      | inr differs ↦ (d ∷ p, ps, rw (differs, e))
    ]

split-parted :
    (c d : ℕ) (s a b : Text)
    → split c s ≡ split c a ++ (b ∷ [])
    → split c (d ∷ s) ≡ split c (d ∷ a) ++ (b ∷ [])
unfolding split
split-parted c d s a b h =
    let (p, ps, e) = split_cons c a in
    elim (Bool-cases (nat_eq d c)) [ inl same ↦ rw (same, h) | inr differs ↦ rw (differs, h, e) ]

last_split-Splits :
    (c d : ℕ) (s : Text) {r : Option (Text × Text)}
    → Splits c s r
    → Splits c (d ∷ s) (last_split c d s r)
unfolding split contains_char
last_split-Splits c d s (parted a b e clean parts) =
    parted (d ∷ a) b (rw e) clean (split-parted c d s a b parts)
last_split-Splits c d s (whole clean parts) = elim (Bool-cases (nat_eq d c)) [
  | inl same ↦ rw same (parted [] s (rw ((nat_eq_iff d c).0 same)) clean (rw (same, parts)))
  | inr differs ↦ rw differs (whole (rw (differs, clean)) (rw (differs, parts)))
]

rsplit_once-Splits : (c : ℕ) (s : Text) → Splits c s (rsplit_once c s)
unfolding rsplit_once contains_char split
rsplit_once-Splits c [] = whole refl refl
rsplit_once-Splits c (d ∷ s) = last_split-Splits c d s (rsplit_once-Splits c s)

any-append {ℓ} :
    {A : Type ℓ} (p : A → Bool) (xs ys : List A) → any p (xs ++ ys) ≡ (any p xs || any p ys)
unfolding any
any-append p [] ys = refl
any-append p (x ∷ xs) ys = ground (arith, any-append p xs ys)

contains_char-append :
    (c : ℕ) (a b : Text) → contains_char c (a ++ b) ≡ (contains_char c a || contains_char c b)
unfolding contains_char
contains_char-append c [] b = refl
contains_char-append c (d ∷ a) b = ground (arith, contains_char-append c a b)

-- What is known of an accepted path.
record IsClean (p : Text) : Type 0 where
  filled : is_empty p ≡ false
  no_nul : contains_char 0 p ≡ false
  relative : starts_with (str "/") p ≡ false
  segments : any bad_segment (split b'/' p) ≡ false

check_rel-IsClean : (debug : Text → Text) (p : Text) → check_rel debug p ≡ ok tt → IsClean p
unfolding check_rel
check_rel-IsClean debug p h = ground arith

IsClean-check_rel : (debug : Text → Text) (p : Text) → IsClean p → check_rel debug p ≡ ok tt
unfolding check_rel
IsClean-check_rel debug p h = ground arith

-- The directory of a clean path is clean.
parent-IsClean :
    (a b : Text)
    → is_empty a ≡ false
    → any bad_segment (split b'/' a) ≡ false
    → IsClean (a ++ (b'/' ∷ b))
    → IsClean a
unfolding is_empty starts_with str
parent-IsClean [] b filled segments h = cc
parent-IsClean (c ∷ a) b filled segments h = record {
  filled = refl;
  no_nul = ground (arith, contains_char-append 0 (c ∷ a) (b'/' ∷ b), h.no_nul);
  relative = h.relative;
  segments = segments;
}

-- What a clean path is parted into.
abbrev Parted : Text → Text × Text → Type 0
Parted p (dir, name) = (join_rel dir name ≡ p) × IsComponent name × ((dir ≡ []) ⊎ IsClean dir)

parted_lem :
    (a b : Text)
    → IsClean (a ++ (b'/' ∷ b))
    → contains_char b'/' b ≡ false
    → (any bad_segment (split b'/' a) || any bad_segment (b ∷ [])) ≡ false
    → Parted (a ++ (b'/' ∷ b)) (a, b)
unfolding join_rel any is_empty starts_with str
parted_lem [] b h clean good = absurd (cc (h.relative))
parted_lem (c ∷ a) b h clean good =
    (refl, (ground arith, clean), inr (parent-IsClean (c ∷ a) b refl (ground arith) h))

Splits-Parted :
    (p : Text) {r : Option (Text × Text)}
    → IsClean p
    → Splits b'/' p r
    → Parted p (elim r [ none ↦ ([], p) | some (dir, name) ↦ (dir, name) ])
unfolding join_rel any is_empty
Splits-Parted p h (whole clean parts) = (refl, (ground (arith, h.segments, parts), clean), inl refl)
Splits-Parted p h (parted a b e clean parts) =
    subst (λ q. Parted q (a, b)) (sym e)
      (parted_lem a b (subst IsClean e h) clean (
        sym (any-append bad_segment (split b'/' a) (b ∷ []))
        ∙ ap (any bad_segment) (sym parts)
        ∙ h.segments))

-- An accepted path is parted into a directory, which is the root or is accepted itself, and a name,
-- which is one component and neither this directory nor its parent. Joined, they are the path again.
pub split_rel-Parted :
    (debug : Text → Text) (p : Text)
    → check_rel debug p ≡ ok tt
    → let (dir, name) = split_rel p in
      (join_rel dir name ≡ p) × IsComponent name × ((dir ≡ []) ⊎ (check_rel debug dir ≡ ok tt))
unfolding split_rel
split_rel-Parted debug p h =
    let (joined, one, dir) =
      Splits-Parted p (check_rel-IsClean debug p h) (rsplit_once-Splits b'/' p) in
    (joined, one, or_map dir)
  where
    or_map : {d : Text} → (d ≡ []) ⊎ IsClean d → (d ≡ []) ⊎ (check_rel debug d ≡ ok tt)
    or_map (inl e) = inl e
    or_map {d} (inr k) = inr (IsClean-check_rel debug d k)

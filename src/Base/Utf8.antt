-- ===== src/Base/Utf8.antt =====
-- `String::from_utf8_lossy`: each maximal ill-formed part becomes U+FFFD.
use pbs.Base.{ℕ, zero, suc, ◌+◌, ◌-◌, ◌*◌, Bool, ◌&&◌, List, [], ◌∷◌}
use pbs.Base.Tests.{ltb, leb, nat_eq, if◌then◌else◌}
use pbs.Base.Text.{Text}

abbrev within : ℕ → ℕ → ℕ → Bool
within lo hi b = leb lo b && leb b hi

-- A sequence that is not complete: the bytes still needed, the range of the next one, and the bits
-- read so far. `need = 0` is between characters.
pub record Partial : Type 0 where
  need : ℕ
  lo : ℕ
  hi : ℕ
  bits : ℕ

abbrev expect : ℕ → ℕ → ℕ → ℕ → Partial
expect need lo hi bits = record { need = need; lo = lo; hi = hi; bits = bits }

abbrev between : Partial
between = expect 0 0 0 0

-- A first byte: what is emitted, and what is expected next.
abbrev first : ℕ → Text × Partial
first b =
    if ltb b 0x80
    then (b ∷ [], between)
    else if within 0xc2 0xdf b
    then ([], expect 1 0x80 0xbf (b - 0xc0))
    else if nat_eq b 0xe0
    then ([], expect 2 0xa0 0xbf 0)
    else if nat_eq b 0xed
    then ([], expect 2 0x80 0x9f 0xd)
    else if within 0xe1 0xef b
    then ([], expect 2 0x80 0xbf (b - 0xe0))
    else if nat_eq b 0xf0
    then ([], expect 3 0x90 0xbf 0)
    else if within 0xf1 0xf3 b
    then ([], expect 3 0x80 0xbf (b - 0xf0))
    else if nat_eq b 0xf4
    then ([], expect 3 0x80 0x8f 4)
    else (0xfffd ∷ [], between)

abbrev restart : Text × Partial → Text × Partial
restart (out, p) = (0xfffd ∷ out, p)

next : ℕ → Partial → ℕ → Text × Partial
next zero p b = first b
next (suc zero) p b =
    if within p.lo p.hi b then ((p.bits * 64 + (b - 0x80)) ∷ [], between) else restart (first b)
next (suc n) p b =
    if within p.lo p.hi b
    then ([], expect n 0x80 0xbf (p.bits * 64 + (b - 0x80)))
    else restart (first b)

abbrev emit : Text → Text → Text
emit [] rest = rest
emit (c ∷ out) rest = c ∷ emit out rest

unfoldable pub decode_lossy : Partial → List ℕ → Text
unfolding next
decode_lossy p [] = if nat_eq p.need 0 then [] else 0xfffd ∷ []
decode_lossy p (b ∷ bs) = let (out, q) = next p.need p b in emit out (decode_lossy q bs)

unfoldable pub from_utf8_lossy : List ℕ → Text
unfolding decode_lossy
from_utf8_lossy = decode_lossy between

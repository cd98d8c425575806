-- ===== src/Base/Json/Equality.antt =====
-- `==` on JSON values and what it decides.
use pbs.Base.{Bool, true, false, ◌&&◌, ◌≡◌, ◌↔◌, refl, ap, subst, arith}
use pbs.Base.Tests.{nat_eq}
use pbs.Base.Int.{ℤ, pos, negsuc}
use pbs.Base.Text.{◌==◌}
use pbs.Base.Text.Equality.{text_eq_iff, text_eq_refl}
use pbs.Base.Json.{
  Value, null, bool, int, float, string, array, object, Values, nil, cons, Map, end, entry,
}

abbrev pub bool_eq : Bool → Bool → Bool
bool_eq true b = b
bool_eq false true = false
bool_eq false false = true

abbrev pub int_eq : ℤ → ℤ → Bool
int_eq (pos m) (pos n) = nat_eq m n
int_eq (negsuc m) (negsuc n) = nat_eq m n
int_eq a b = false

unfoldable mutual
  pub value_eq : Value → Value → Bool
  value_eq null null = true
  value_eq (bool a) (bool b) = bool_eq a b
  value_eq (int a) (int b) = int_eq a b
  value_eq (float a) (float b) = a == b
  value_eq (string a) (string b) = a == b
  value_eq (array a) (array b) = values_eq a b
  value_eq (object a) (object b) = map_eq a b
  value_eq a b = false

  pub values_eq : Values → Values → Bool
  values_eq nil nil = true
  values_eq (cons a xs) (cons b ys) = value_eq a b && values_eq xs ys
  values_eq a b = false

  pub map_eq : Map → Map → Bool
  map_eq end end = true
  map_eq (entry j a m) (entry k b n) = j == k && (value_eq a b && map_eq m n)
  map_eq a b = false

int_eq_sound : (a b : ℤ) → int_eq a b ≡ true → a ≡ b
int_eq_sound a b h = ground arith

int_eq_refl : (a : ℤ) → int_eq a a ≡ true
int_eq_refl a = ground arith

bool_eq_sound : (a b : Bool) → bool_eq a b ≡ true → a ≡ b
bool_eq_sound a b h = ground arith

bool_eq_refl : (a : Bool) → bool_eq a a ≡ true
bool_eq_refl a = ground arith

and_parts : (p q : Bool) → p && q ≡ true → (p ≡ true) × (q ≡ true)
and_parts p q h = ground arith

mutual
  unfolding value_eq

  value_eq_sound : (a b : Value) → value_eq a b ≡ true → a ≡ b
  value_eq_sound null null h = refl
  value_eq_sound (bool a) (bool b) h = ap bool (bool_eq_sound a b h)
  value_eq_sound (int a) (int b) h = ap int (int_eq_sound a b h)
  value_eq_sound (float a) (float b) h = ap float ((text_eq_iff a b).0 h)
  value_eq_sound (string a) (string b) h = ap string ((text_eq_iff a b).0 h)
  value_eq_sound (array a) (array b) h = ap array (values_eq_sound a b h)
  value_eq_sound (object a) (object b) h = ap object (map_eq_sound a b h)
  value_eq_sound a b h = cc

  values_eq_sound : (a b : Values) → values_eq a b ≡ true → a ≡ b
  values_eq_sound nil nil h = refl
  values_eq_sound (cons a xs) (cons b ys) h =
      let (p, q) = and_parts (value_eq a b) (values_eq xs ys) h in
      λ i. cons (value_eq_sound a b p i) (values_eq_sound xs ys q i)
  values_eq_sound a b h = cc

  map_eq_sound : (a b : Map) → map_eq a b ≡ true → a ≡ b
  map_eq_sound end end h = refl
  map_eq_sound (entry j a m) (entry k b n) h =
      let (p, rest) = and_parts (j == k) (value_eq a b && map_eq m n) h in
      let (q, r) = and_parts (value_eq a b) (map_eq m n) rest in
      λ i. entry ((text_eq_iff j k).0 p i) (value_eq_sound a b q i) (map_eq_sound m n r i)
  map_eq_sound a b h = cc

mutual
  unfolding value_eq

  value_eq_refl : (a : Value) → value_eq a a ≡ true
  value_eq_refl null = refl
  value_eq_refl (bool a) = bool_eq_refl a
  value_eq_refl (int a) = int_eq_refl a
  value_eq_refl (float a) = text_eq_refl a
  value_eq_refl (string a) = text_eq_refl a
  value_eq_refl (array a) = values_eq_refl a
  value_eq_refl (object a) = map_eq_refl a

  values_eq_refl : (a : Values) → values_eq a a ≡ true
  values_eq_refl nil = refl
  values_eq_refl (cons a xs) = ground (arith, value_eq_refl a, values_eq_refl xs)

  map_eq_refl : (a : Map) → map_eq a a ≡ true
  map_eq_refl end = refl
  map_eq_refl (entry j a m) = ground (arith, text_eq_refl j, value_eq_refl a, map_eq_refl m)

-- The test decides equality.
pub value_eq_iff : (a b : Value) → (value_eq a b ≡ true) ↔ (a ≡ b)
value_eq_iff a b = (value_eq_sound a b, λ e. subst (λ x. value_eq a x ≡ true) e (value_eq_refl a))

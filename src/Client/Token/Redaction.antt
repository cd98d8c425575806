-- ===== src/Client/Token/Redaction.antt =====
-- What `redact_secret` leaves: no occurrence of the secret.
use pbs.Base.{
  ℕ, zero, suc, ◌-◌, Bool, true, false, ◌||◌, [], ◌∷◌, ◌++◌, ◌≡◌, sym, subst, refl, arith, inl, inr,
}
use pbs.Base.Tests.{Bool-cases}
use pbs.Base.Lists.{length}
use pbs.Base.Text.{Text, str, is_empty, contains_char, starts_with}
use pbs.Client.Token.{replace, redact_secret}

-- `p` occurs in the text.
unfoldable pub occurs : Text → Text → Bool
unfolding starts_with
occurs p [] = is_empty p
occurs p (c ∷ s) = starts_with p (c ∷ s) || occurs p s

abbrev pub mark : Text
mark = str "<redacted>"

-- A match of `p` against the output was a match against the input, where `p` has no `<`.
starts_with-replace :
    (p from to : Text) (s : Text)
    → contains_char b'<' p ≡ false
    → starts_with p (replace zero from (b'<' ∷ to) s) ≡ true
    → starts_with p s ≡ true
unfolding replace starts_with contains_char
starts_with-replace [] from to s h k = refl
starts_with-replace (d ∷ p) from to [] h k = k
starts_with-replace (d ∷ p) from to (c ∷ s) h k = ground (arith, starts_with-replace p from to s)

-- A text with no `>` that starts what stands before a `>` starts it inside.
starts_with_before :
    (p m rest : Text)
    → contains_char b'>' p ≡ false
    → starts_with p (m ++ (b'>' ∷ rest)) ≡ true
    → starts_with p m ≡ true
unfolding starts_with contains_char
starts_with_before [] m rest h k = refl
starts_with_before (d ∷ p) [] rest h k = ground arith
starts_with_before (d ∷ p) (c ∷ m) rest h k = ground (arith, starts_with_before p m rest)

-- So `p` occurs in `m>rest` only within `m` or within `rest`.
occurs_around :
    (p m rest : Text)
    → is_empty p ≡ false
    → contains_char b'>' p ≡ false
    → occurs p m ≡ false
    → occurs p rest ≡ false
    → occurs p (m ++ (b'>' ∷ rest)) ≡ false
unfolding occurs is_empty
occurs_around [] m rest ne h km kr = cc
occurs_around (d ∷ p) [] rest ne h km kr = unfold starts_with contains_char in ground arith
occurs_around (d ∷ p) (c ∷ m) rest ne h km kr =
    ground (arith, occurs_around (d ∷ p) m rest ne h, starts_with_before (d ∷ p) (c ∷ m) rest h)

-- `p` is no part of the mark's middle and has neither angle bracket.
pub record IsPlainSecret (p : Text) : Type 0 where
  pub nonempty : is_empty p ≡ false
  pub no_open : contains_char b'<' p ≡ false
  pub no_close : contains_char b'>' p ≡ false
  pub not_in_mark : occurs p (str "redacted") ≡ false

mark_then : (rest : Text) → mark ++ rest ≡ b'<' ∷ (str "redacted" ++ (b'>' ∷ rest))
unfolding str
mark_then rest = refl

occurs_after_open :
    (p x : Text)
    → is_empty p ≡ false
    → contains_char b'<' p ≡ false
    → occurs p x ≡ false
    → occurs p (b'<' ∷ x) ≡ false
unfolding occurs is_empty starts_with contains_char
occurs_after_open [] x ne h k = cc
occurs_after_open (d ∷ p) x ne h k = ground arith

occurs-mark :
    (p rest : Text) → IsPlainSecret p → occurs p rest ≡ false → occurs p (mark ++ rest) ≡ false
occurs-mark p rest v k =
    subst (λ t. occurs p t ≡ false) (sym (mark_then rest))
      (occurs_after_open p _ v.nonempty v.no_open
        (occurs_around p (str "redacted") rest v.nonempty v.no_close v.not_in_mark k))

occurs_cons :
    (p : Text) (c : ℕ) (x : Text)
    → starts_with p (c ∷ x) ≡ false
    → occurs p x ≡ false
    → occurs p (c ∷ x) ≡ false
unfolding occurs
occurs_cons p c x h k = ground arith

-- A position that `replace` keeps starts no occurrence of `p`.
kept_starts_nothing :
    (p : Text) (c : ℕ) (s : Text)
    → contains_char b'<' p ≡ false
    → starts_with p (c ∷ s) ≡ false
    → starts_with p (c ∷ replace zero p mark s) ≡ false
unfolding replace str
kept_starts_nothing p c s h miss = elim (Bool-cases (starts_with p (c ∷ replace zero p mark s))) [
  | inl hit ↦ cc (starts_with-replace p p (str "redacted>") (c ∷ s) h (rw miss hit))
  | inr none_here ↦ none_here
]

occurs-replace :
    (p : Text) (skip : ℕ) (s : Text) → IsPlainSecret p → occurs p (replace skip p mark s) ≡ false
unfolding replace
occurs-replace p skip [] v = unfold occurs in v.nonempty
occurs-replace p (suc skip) (c ∷ s) v = occurs-replace p skip s v
occurs-replace p zero (c ∷ s) v = elim (Bool-cases (starts_with p (c ∷ s))) [
  | inl hit ↦ rw hit (occurs-mark p _ v (occurs-replace p (length p - 1) s v))
  | inr miss ↦
      rw miss
        (occurs_cons p c _ (kept_starts_nothing p c s v.no_open miss) (occurs-replace p zero s v))
]

-- A secret with no angle bracket, which is no part of the word "redacted", does not occur in any
-- text that was redacted by it.
pub occurs-redact_secret :
    (text secret : Text) → IsPlainSecret secret → occurs secret (redact_secret text secret) ≡ false
unfolding redact_secret
occurs-redact_secret text secret v = rw v.nonempty (occurs-replace secret zero text v)

-- ===== src/Groups/Snapshots.antt =====
-- src/groups.rs: snapshots and the summary of their verification.
use pbs.Base.{
  ℕ, ◌+◌, Bool, true, false, Option, none, some, List, [], ◌∷◌, ◌≡◌, ◌⊎◌, refl, subst, sym, arith,
}
use pbs.Base.Tests.{if◌then◌else◌}
use pbs.Base.Lists.{length, filter, All}
use pbs.Base.Int.{ℤ}
use pbs.Base.Text.{Text, str, ◌==◌}
use pbs.Base.Text.Equality.{text_eq_iff}

pub record Verification : Type 0 where
  pub state : Text
  pub upid : Option Text

pub record Snapshot : Type 0 where
  pub backup_type : Text
  pub backup_id : Text
  pub backup_time : ℤ
  pub protected : Bool
  pub size : Option ℕ
  pub verification : Option Verification

pub record VerifySummary : Type 0 where
  pub ok : ℕ
  pub failed : ℕ
  pub unverified : ℕ

abbrev pub verdict_is : Text → Option Verification → Bool
verdict_is t none = false
verdict_is t (some v) = v.state == t

abbrev pub no_verdict : Option Verification → Bool
no_verdict none = true
no_verdict (some v) = false

abbrev pub state_is : Text → Snapshot → Bool
state_is t s = verdict_is t s.verification

abbrev pub is_unverified : Snapshot → Bool
is_unverified s = no_verdict s.verification

unfoldable pub summarize : List Snapshot → VerifySummary
unfolding filter ◌==◌ str
summarize snaps = record {
  ok = length (filter (state_is (str "ok")) snaps);
  failed = length (filter (state_is (str "failed")) snaps);
  unverified = length (filter is_unverified snaps);
}

-- A snapshot whose verification, if there is one, ended as the server says: `ok` or `failed`.
abbrev pub IsJudged : Snapshot → Type 0
IsJudged s =
    (is_unverified s ≡ true) ⊎ (state_is (str "ok") s ≡ true) ⊎ (state_is (str "failed") s ≡ true)

ok_not_failed : (t : Text) → t == str "ok" ≡ true → t == str "failed" ≡ false
unfolding ◌==◌ str
ok_not_failed t h =
    subst (λ x. x == str "failed" ≡ false) (sym ((text_eq_iff t (str "ok")).0 h)) refl

counted_once :
    (o : Option Verification)
    → (no_verdict o ≡ true)
      ⊎ (verdict_is (str "ok") o ≡ true)
      ⊎ (verdict_is (str "failed") o ≡ true)
    → (if verdict_is (str "ok") o then 1 else 0)
        + (if verdict_is (str "failed") o then 1 else 0)
        + (if no_verdict o then 1 else 0)
      ≡ 1
counted_once none h = refl
counted_once (some v) h = ground (arith, ok_not_failed v.state)

length-filter_cons :
    (p : Snapshot → Bool) (s : Snapshot) (snaps : List Snapshot)
    → length (filter p (s ∷ snaps)) ≡ (if p s then 1 else 0) + length (filter p snaps)
unfolding filter
length-filter_cons p s snaps = ground arith

-- Where the server's verdicts are `ok` and `failed`, the three counts of the summary add up to the
-- number of the snapshots.
pub summarize-total :
    (snaps : List Snapshot)
    → All IsJudged snaps
    → (summarize snaps).ok + (summarize snaps).failed + (summarize snaps).unverified ≡ length snaps
unfolding summarize
summarize-total [] h = refl
summarize-total (s ∷ snaps) h = omega (
  arith,
  length-filter_cons (state_is (str "ok")) s snaps,
  length-filter_cons (state_is (str "failed")) s snaps,
  length-filter_cons is_unverified s snaps,
  counted_once s.verification h.0,
  summarize-total snaps h.1,
)

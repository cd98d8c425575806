-- ===== src/Groups/Prune/KeepRules.antt =====
-- The keep rules that a prune carries.
use pbs.Base.{
  ℕ, Bool, true, false, Option, none, some, List, [], ◌∷◌, ◌≡◌, ◌⊎◌, inl, inr, ◌∙◌, sym, refl, ap,
}
use pbs.Base.Tests.{Bool-cases}
use pbs.Base.Lists.{All, Any, All-append, filter}
use pbs.Base.Int.{pos}
use pbs.Base.Text.{Text, str, ◌==◌}
use pbs.Base.Json.{Value, bool, int, string, Map, end, get, insert, field, map_is_empty}
use pbs.Base.Json.Lookup.{hit, get-insert, get-map_is_empty}
use pbs.Plan.{ApiCall, post_call, put_call, delete_call}
use pbs.Groups.{PruneEntry, proper_ns}
use pbs.Groups.Prune.{
  PruneArgs, insert_some, keep, insert_ns, prune_body, is_doomed, step_of, prune_steps,
}

abbrev pub as_string : Option Text → Option Value
as_string none = none
as_string (some t) = some (string t)

abbrev pub as_number : Option ℕ → Option Value
as_number none = none
as_number (some n) = some (int (pos n))

-- The names under which PBS takes the rules, with what the caller gave for each.
abbrev rules_of :
    Option ℕ → Option ℕ → Option ℕ → Option ℕ → Option ℕ → Option ℕ → List (Text × Option ℕ)
rules_of last hourly daily weekly monthly yearly =
    (str "keep-last", last)
    ∷ (str "keep-hourly", hourly)
    ∷ (str "keep-daily", daily)
    ∷ (str "keep-weekly", weekly)
    ∷ (str "keep-monthly", monthly)
    ∷ (str "keep-yearly", yearly)
    ∷ []

abbrev pub options : PruneArgs → List (Text × Option ℕ)
options args =
    rules_of args.keep_last args.keep_hourly args.keep_daily args.keep_weekly args.keep_monthly
      args.keep_yearly

abbrev Given : Text × Option ℕ → Type 0
Given p = (n : ℕ) × (p.1 ≡ some n)

abbrev Ungiven : Text × Option ℕ → Type 0
Ungiven p = p.1 ≡ none

abbrev only_last : List (Text × Option ℕ)
only_last = rules_of (some 10) none none none none none

abbrev Carries : List (Text × Option ℕ) → Value → Type 0
Carries rules body = All (λ p. field p.0 body ≡ as_number p.1) rules

-- The body carries the rules that the caller gave, one at least, or none was given and it carries the
-- default, to keep the last ten. No other rule stands in it.
abbrev pub KeepsSome : PruneArgs → Value → Type 0
KeepsSome args body =
    (Any Given (options args) × Carries (options args) body)
    ⊎ (All Ungiven (options args) × Carries only_last body)

abbrev pub CallKeepsSome : PruneArgs → ApiCall → Type 0
CallKeepsSome args (post_call path body) = KeepsSome args body
CallKeepsSome args (put_call path body) = ⊥
CallKeepsSome args (delete_call path query) = ⊥

hit-none : (b : Bool) (rest : Option Value) → hit b none rest ≡ rest
hit-none true rest = refl
hit-none false rest = refl

get-insert_ns :
    (k : Text) (ns : Option Text) (m : Map)
    → get k (insert_ns ns m) ≡ hit (str "ns" == k) (as_string ns) (get k m)
get-insert_ns k none m = sym (hit-none (str "ns" == k) (get k m))
get-insert_ns k (some ns) m = get-insert k (str "ns") (string ns) m

-- A lookup in the body, by the keys that are inserted
pub field-prune_body :
    (k : Text) (rules : Map) (ns : Option Text) (g : Text × Text) (dry_run : Bool)
    → field k (prune_body rules ns g dry_run)
      ≡ hit (str "ns" == k) (as_string (proper_ns ns)) (
          hit (str "dry-run" == k) (some (bool dry_run)) (
            hit
              (str "backup-id" == k)
              (some (string g.1))
              (hit (str "backup-type" == k) (some (string g.0)) (get k rules))))
unfolding prune_body field
field-prune_body k rules ns g dry_run =
    rw
      (
        get-insert_ns k (proper_ns ns),
        get-insert k (str "dry-run"),
        get-insert k (str "backup-id"),
        get-insert k (str "backup-type"),
      )
      refl

pub or_absent : (o : Option Value) → hit true o none ≡ o
or_absent none = refl
or_absent (some v) = refl

get-insert_some :
    (k j : Text) (o : Option ℕ) (m : Map)
    → get k (insert_some j o m) ≡ hit (j == k) (as_number o) (get k m)
unfolding insert_some
get-insert_some k j none m = sym (hit-none (j == k) (get k m))
get-insert_some k j (some n) m = get-insert k j (int (pos n)) m

-- The rules before the default
abbrev given_rules : PruneArgs → Map
given_rules args = insert_some (str "keep-yearly") args.keep_yearly (
    insert_some (str "keep-monthly") args.keep_monthly (
      insert_some (str "keep-weekly") args.keep_weekly (
        insert_some (str "keep-daily") args.keep_daily (
          insert_some (str "keep-hourly") args.keep_hourly
            (insert_some (str "keep-last") args.keep_last end)))))

get-given :
    (k : Text) (args : PruneArgs)
    → get k (given_rules args)
      ≡ hit (str "keep-yearly" == k) (as_number args.keep_yearly) (
          hit (str "keep-monthly" == k) (as_number args.keep_monthly) (
            hit (str "keep-weekly" == k) (as_number args.keep_weekly) (
              hit (str "keep-daily" == k) (as_number args.keep_daily) (
                hit
                  (str "keep-hourly" == k)
                  (as_number args.keep_hourly)
                  (hit (str "keep-last" == k) (as_number args.keep_last) none)))))
unfolding get
get-given k args =
    rw
      (
        get-insert_some k (str "keep-yearly"),
        get-insert_some k (str "keep-monthly"),
        get-insert_some k (str "keep-weekly"),
        get-insert_some k (str "keep-daily"),
        get-insert_some k (str "keep-hourly"),
        get-insert_some k (str "keep-last"),
      )
      refl

abbrev Finds : Map → List (Text × Option ℕ) → Type 0
Finds m rules = All (λ p. get p.0 m ≡ as_number p.1) rules

given_rules-Finds : (args : PruneArgs) → Finds (given_rules args) (options args)
unfolding ◌==◌ str
given_rules-Finds args = (
  get-given (str "keep-last") args ∙ or_absent (as_number args.keep_last),
  (
    get-given (str "keep-hourly") args ∙ or_absent (as_number args.keep_hourly),
    (
      get-given (str "keep-daily") args ∙ or_absent (as_number args.keep_daily),
      (
        get-given (str "keep-weekly") args ∙ or_absent (as_number args.keep_weekly),
        (
          get-given (str "keep-monthly") args ∙ or_absent (as_number args.keep_monthly),
          (get-given (str "keep-yearly") args ∙ or_absent (as_number args.keep_yearly), tt),
        ),
      ),
    ),
  ),
)

split_rules : (ps : List (Text × Option ℕ)) → Any Given ps ⊎ All Ungiven ps
split_rules [] = inr tt
split_rules ((k, some n) ∷ ps) = inl (inl (n, refl))
split_rules ((k, none) ∷ ps) = elim (split_rules ps) [ inl h ↦ inl (inr h) | inr h ↦ inr (refl, h) ]

found-nonempty :
    (m : Map) (ps : List (Text × Option ℕ)) → Any Given ps → Finds m ps → map_is_empty m ≡ false
found-nonempty m [] h f = absurd h
found-nonempty m ((k, o) ∷ ps) (inl (n, e)) f = elim (Bool-cases (map_is_empty m)) [
  | inl empty ↦ cc (get-map_is_empty k m empty, f.0, ap as_number e)
  | inr filled ↦ filled
]
found-nonempty m (p ∷ ps) (inr h) f = found-nonempty m ps h f.1

keep-Given : (args : PruneArgs) → Any Given (options args) → keep args ≡ given_rules args
unfolding keep
keep-Given args h =
    rw (found-nonempty (given_rules args) (options args) h (given_rules-Finds args)) refl

default_rules : Finds (insert (str "keep-last") (int (pos 10)) end) only_last
unfolding get insert ◌==◌ str
default_rules = (refl, (refl, (refl, (refl, (refl, (refl, tt))))))

keep-default :
    (args : PruneArgs)
    → All Ungiven (options args)
    → keep args ≡ insert (str "keep-last") (int (pos 10)) end
unfolding keep insert_some map_is_empty
keep-default args h = let (a, (b, (c, (d, (e, (f, _)))))) = h in rw (a, b, c, d, e, f) refl

pub get-keep-ns : (args : PruneArgs) → get (str "ns") (keep args) ≡ none
unfolding ◌==◌ str get insert
get-keep-ns args = elim (split_rules (options args)) [
  | inl h ↦ ap (get (str "ns")) (keep-Given args h) ∙ get-given (str "ns") args
  | inr h ↦ ap (get (str "ns")) (keep-default args h)
]

-- The body has the rules of the map under their names.
rules_in_body :
    (m : Map) (ns : Option Text) (g : Text × Text) (dry_run : Bool) (a b c d e f : Option ℕ)
    → All (λ p. field p.0 (prune_body m ns g dry_run) ≡ get p.0 m) (rules_of a b c d e f)
unfolding ◌==◌ str
rules_in_body m ns g dry_run a b c d e f = (
  field-prune_body (str "keep-last") m ns g dry_run,
  (
    field-prune_body (str "keep-hourly") m ns g dry_run,
    (
      field-prune_body (str "keep-daily") m ns g dry_run,
      (
        field-prune_body (str "keep-weekly") m ns g dry_run,
        (
          field-prune_body (str "keep-monthly") m ns g dry_run,
          (field-prune_body (str "keep-yearly") m ns g dry_run, tt),
        ),
      ),
    ),
  ),
)

Finds-Carries :
    (m : Map) (body : Value) (ps : List (Text × Option ℕ))
    → All (λ p. field p.0 body ≡ get p.0 m) ps
    → Finds m ps
    → Carries ps body
Finds-Carries m body [] same finds = tt
Finds-Carries m body (p ∷ ps) same finds =
    (same.0 ∙ finds.0, Finds-Carries m body ps same.1 finds.1)

pub prune_body-KeepsSome :
    (args : PruneArgs) (ns : Option Text) (g : Text × Text) (dry_run : Bool)
    → KeepsSome args (prune_body (keep args) ns g dry_run)
prune_body-KeepsSome args ns g dry_run =
    let body = prune_body (keep args) ns g dry_run in
    elim (split_rules (options args)) [
      | inl h ↦ inl (
        h,
        Finds-Carries (keep args) body (options args)
            (rules_in_body (keep args) ns g dry_run args.keep_last args.keep_hourly args.keep_daily
              args.keep_weekly args.keep_monthly args.keep_yearly)
            (rw (keep-Given args h) (given_rules-Finds args)),
      )
      | inr h ↦ inr (
        h,
        Finds-Carries (keep args) body only_last
            (rules_in_body (keep args) ns g dry_run (some 10) none none none none none)
            (rw (keep-default args h) default_rules),
      )
    ]

head-KeepsSome :
    (args : PruneArgs) (store : Text) (ns : Option Text) (g : Text × Text)
    (entries doomed : List PruneEntry)
    → All (λ s. CallKeepsSome args s.call) (step_of store (keep args) ns g entries doomed)
head-KeepsSome args store ns g entries [] = tt
head-KeepsSome args store ns g entries (e ∷ doomed) = (prune_body-KeepsSome args ns g false, tt)

-- Every planned prune carries a keep rule: those that the caller gave and no other, or, where none
-- was given, to keep the last ten.
pub prune_steps-KeepsSome :
    (args : PruneArgs) (store : Text) (ns : Option Text)
    (previews : List ((Text × Text) × List PruneEntry))
    → All (λ s. CallKeepsSome args s.call) (prune_steps store (keep args) ns previews)
unfolding prune_steps
prune_steps-KeepsSome args store ns [] = tt
prune_steps-KeepsSome args store ns ((g, entries) ∷ previews) =
    All-append (λ s. CallKeepsSome args s.call)
      (step_of store (keep args) ns g entries (filter is_doomed entries))
      (prune_steps store (keep args) ns previews)
      (head-KeepsSome args store ns g entries (filter is_doomed entries))
      (prune_steps-KeepsSome args store ns previews)

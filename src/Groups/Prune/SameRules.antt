-- ===== src/Groups/Prune/SameRules.antt =====
-- The prune that is planned against the dry run that the plan came from.
use pbs.Base.{Bool, true, false, some, List, [], ◌∷◌, ◌≡◌, ◌⊎◌, inl, inr, ◌∙◌, refl, subst}
use pbs.Base.Tests.{Bool-cases}
use pbs.Base.Lists.{All, Any, All-append, All_mono, filter}
use pbs.Base.Text.{Text, str, ◌==◌}
use pbs.Base.Text.Equality.{text_eq_iff}
use pbs.Base.Json.{Value, bool, string, get, field}
use pbs.Base.Result.{ok, continue-eq-ok}
use pbs.Client.Request.{Net, PbsClient, post_as}
use pbs.Plan.{Step, post_call}
use pbs.Api.{store_path}
use pbs.Groups.{PruneEntry, GroupCodec, proper_ns}
use pbs.Groups.Prune.{PruneArgs, keep, prune_body, is_doomed, step_of, previews, prune_steps}
use pbs.Groups.Prune.KeepRules.{as_string, or_absent, field-prune_body, get-keep-ns}

-- The keys that name what is pruned and how; every other key is a rule's.
abbrev reserved : List Text
reserved = str "backup-type" ∷ str "backup-id" ∷ str "dry-run" ∷ str "ns" ∷ []

-- A body that prunes the group in the namespace by these rules.
pub record Prunes (args : PruneArgs) (g : Text × Text) (dry_run : Bool) (body : Value)
    : Type 0 where
  pub backup_type : field (str "backup-type") body ≡ some (string g.0)
  pub backup_id : field (str "backup-id") body ≡ some (string g.1)
  pub mode : field (str "dry-run") body ≡ some (bool dry_run)
  pub namespace : field (str "ns") body ≡ as_string (proper_ns args.ns)
  pub rules : (k : Text) → Any (λ r. r ≡ k) reserved ⊎ (field k body ≡ get k (keep args))

reserved_or_not : (k : Text) (ps : List Text) → Any (λ r. r ≡ k) ps ⊎ All (λ r. (r == k) ≡ false) ps
reserved_or_not k [] = inr tt
reserved_or_not k (p ∷ ps) = elim (Bool-cases (p == k)) [
  | inl same ↦ inl (inl ((text_eq_iff p k).0 same))
  | inr other ↦ elim (reserved_or_not k ps) [ inl h ↦ inl (inr h) | inr h ↦ inr (other, h) ]
]

rule_field :
    (args : PruneArgs) (g : Text × Text) (dry_run : Bool) (k : Text)
    → Any (λ r. r ≡ k) reserved
      ⊎ (field k (prune_body (keep args) args.ns g dry_run) ≡ get k (keep args))
rule_field args g dry_run k = elim (reserved_or_not k reserved) [
  | inl h ↦ inl h
  | inr h ↦
      let (type_no, (id_no, (run_no, (ns_no, _)))) = h in
      inr
        (field-prune_body k (keep args) args.ns g dry_run ∙ rw (ns_no, run_no, id_no, type_no) refl)
]

prune_body-Prunes :
    (args : PruneArgs) (g : Text × Text) (dry_run : Bool)
    → Prunes args g dry_run (prune_body (keep args) args.ns g dry_run)
unfolding ◌==◌ str
prune_body-Prunes args g dry_run = record {
  backup_type = field-prune_body (str "backup-type") (keep args) args.ns g dry_run;
  backup_id = field-prune_body (str "backup-id") (keep args) args.ns g dry_run;
  mode = field-prune_body (str "dry-run") (keep args) args.ns g dry_run;
  namespace =
      field-prune_body (str "ns") (keep args) args.ns g dry_run
      ∙ rw (get-keep-ns args) (or_absent (as_string (proper_ns args.ns)));
  rules = rule_field args g dry_run;
}

module _ {W : Type 0} (net : Net W) (codec : GroupCodec) (c : PbsClient) (args : PruneArgs) where
  -- PBS listed these entries when it was asked to try, as a dry run, the prune of the group.
  pub record Tried (g : Text × Text) (entries : List PruneEntry) : Type 0 where
    pub body : Value
    pub before : W
    pub after : W
    pub dry : Prunes args g true body
    pub asked :
        post_as net codec.entries_of c (store_path args.datastore (str "/prune")) body before
        ≡ (ok entries, after)

  -- The step prunes the group of one of the dry runs, by the same rules, and in earnest.
  pub record FromDryRun (gs : List (Text × Text)) (s : Step) : Type 0 where
    pub group : Text × Text
    pub entries : List PruneEntry
    pub body : Value
    pub wanted : Any (λ g. g ≡ group) gs
    pub tried : Tried group entries
    pub planned : s.call ≡ post_call (store_path args.datastore (str "/prune")) body
    pub earnest : Prunes args group false body

  FromDryRun-more :
      (g : Text × Text) (gs : List (Text × Text)) (s : Step)
      → FromDryRun gs s
      → FromDryRun (g ∷ gs) s
  FromDryRun-more g gs s from = record {
    group = from.group;
    entries = from.entries;
    body = from.body;
    wanted = inr from.wanted;
    tried = from.tried;
    planned = from.planned;
    earnest = from.earnest;
  }

  head-FromDryRun :
      (g : Text × Text) (gs : List (Text × Text)) (entries doomed : List PruneEntry)
      → Tried g entries
      → All (FromDryRun (g ∷ gs)) (step_of args.datastore (keep args) args.ns g entries doomed)
  head-FromDryRun g gs entries [] tried = tt
  head-FromDryRun g gs entries (e ∷ doomed) tried = (
    record {
      group = g;
      entries = entries;
      body = prune_body (keep args) args.ns g false;
      wanted = inl refl;
      tried = tried;
      planned = refl;
      earnest = prune_body-Prunes args g false;
    },
    tt,
  )

  -- Every planned prune is for one of the groups that PBS was asked about in a dry run for the plan.
  -- The body of the dry run and the planned one name that group and the namespace of the call and
  -- hold exactly its keep rules; the one is a dry run and the other is not.
  pub prune_steps-same_rules :
      (gs : List (Text × Text)) (w : W) {found : List ((Text × Text) × List PruneEntry)} {w' : W}
      → previews net codec c args.datastore (keep args) args.ns gs w ≡ (ok found, w')
      → All (FromDryRun gs) (prune_steps args.datastore (keep args) args.ns found)
  unfolding previews prune_steps
  prune_steps-same_rules [] w {found} h =
      let same : [] ≡ found = cc in
      subst (λ f. All (FromDryRun []) (prune_steps args.datastore (keep args) args.ns f)) same tt
  prune_steps-same_rules (g ∷ gs) w {found} h =
      let (entries, w1, asked, rest) =
        continue-eq-ok
          (post_as net codec.entries_of c (store_path args.datastore (str "/prune"))
            (prune_body (keep args) args.ns g true) w)
          _ h in
      let (later, w2, more, last) =
        continue-eq-ok (previews net codec c args.datastore (keep args) args.ns gs w1) _ rest in
      let same : (g, entries) ∷ later ≡ found = cc in
      let tried : Tried g entries = record {
        body = prune_body (keep args) args.ns g true;
        before = w;
        after = w1;
        dry = prune_body-Prunes args g true;
        asked = asked;
      } in
      subst (λ f. All (FromDryRun (g ∷ gs)) (prune_steps args.datastore (keep args) args.ns f)) same
        (All-append (FromDryRun (g ∷ gs)) _ _
          (head-FromDryRun g gs entries (filter is_doomed entries) tried)
          (All_mono (FromDryRun gs) (FromDryRun (g ∷ gs)) _ (FromDryRun-more g gs)
            (prune_steps-same_rules gs w1 more)))

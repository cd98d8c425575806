-- ===== src/Enroll/Stamp.antt =====
-- src/enroll.rs: `stamp_acl_digest` puts the digest on the first ACL write only.
use pbs.Base.{
  Bool, true, false, Option, none, some, List, [], ◌∷◌, ◌≡◌, ◌≢◌, ◌⊎◌, inl, inr, refl, sym, ap, ◌∙◌,
}
use pbs.Base.Tests.{if◌then◌else◌, Bool-cases}
use pbs.Base.Lists.{All}
use pbs.Base.Text.{Text, str, ◌==◌}
use pbs.Base.Text.Equality.{text_eq_iff}
use pbs.Base.Json.{Map, object, string, get, insert, set_key}
use pbs.Base.Json.Lookup.{get-insert, get-insert_same}
use pbs.Plan.{Step, ApiCall, put_call, post_call, delete_call}

abbrev pub is_acl_put : ApiCall → Bool
is_acl_put (put_call path body) = path == str "/access/acl"
is_acl_put other = false

abbrev pub stamp : Text → ApiCall → ApiCall
stamp d (put_call path body) = put_call path (set_key (str "digest") (string d) body)
stamp d other = other

unfoldable pub stamp_first : Text → List Step → List Step
unfolding ◌==◌ set_key str
stamp_first d [] = []
stamp_first d (s ∷ steps) =
    if is_acl_put s.call
    then record s { call = stamp d s.call } ∷ steps
    else s ∷ stamp_first d steps

unfoldable pub stamp_acl_digest : List Step → Option Text → List Step
unfolding stamp_first
stamp_acl_digest steps none = steps
stamp_acl_digest steps (some d) = stamp_first d steps

-- A call that writes the ACL
abbrev pub IsAclPut : ApiCall → Type 0
IsAclPut (put_call path body) = path ≡ str "/access/acl"
IsAclPut (post_call path body) = ⊥
IsAclPut (delete_call path query) = ⊥

-- The body of an ACL write is an object, as those of `acl_put` are.
abbrev pub HasObject : ApiCall → Type 0
HasObject (put_call path body) = (path ≢ str "/access/acl") ⊎ ((m : Map) × (body ≡ object m))
HasObject (post_call path body) = Unit
HasObject (delete_call path query) = Unit

-- One ACL write, and the same with the digest in its body and nothing else changed.
pub record Digested (d : Text) (s out : Step) : Type 0 where
  pub before : Map
  pub after : Map
  pub was : s.call ≡ put_call (str "/access/acl") (object before)
  pub now : out.call ≡ put_call (str "/access/acl") (object after)
  pub digest : get (str "digest") after ≡ some (string d)
  pub others : (k : Text) → (k ≡ str "digest") ⊎ (get k after ≡ get k before)
  pub target : out.target ≡ s.target
  pub action : out.action ≡ s.action
  pub detail : out.detail ≡ s.detail
  pub sensitive : out.sensitive_result ≡ s.sensitive_result

-- How the stamped plan stands to the plan: nothing before the first ACL write changes, that write
-- gets the digest and changes in nothing else, and nothing behind it changes.
pub data Stamped (d : Text) : List Step → List Step → Type 0 where
  no_write : Stamped d [] []
  pass :
      {s : Step} {ss out : List Step}
      → ¬ IsAclPut s.call
      → Stamped d ss out
      → Stamped d (s ∷ ss) (s ∷ out)
  write : {s s' : Step} {ss : List Step} → Digested d s s' → Stamped d (s ∷ ss) (s' ∷ ss)

not-IsAclPut : (c : ApiCall) → is_acl_put c ≡ false → ¬ IsAclPut c
not-IsAclPut (put_call path body) h e = cc (h, (text_eq_iff path (str "/access/acl")).1 e)
not-IsAclPut (post_call path body) h e = e
not-IsAclPut (delete_call path query) h e = e

acl_put_parts :
    (c : ApiCall)
    → is_acl_put c ≡ true
    → HasObject c
    → (m : Map) × (c ≡ put_call (str "/access/acl") (object m))
acl_put_parts (put_call path body) h (inl other) =
    absurd (other ((text_eq_iff path (str "/access/acl")).0 h))
acl_put_parts (put_call path body) h (inr (m, e)) =
    let same : path ≡ str "/access/acl" = (text_eq_iff path (str "/access/acl")).0 h in (m, cc)
acl_put_parts (post_call path body) h o = cc
acl_put_parts (delete_call path query) h o = cc

stamp-Digested :
    (d : Text) (s : Step) (m : Map)
    → s.call ≡ put_call (str "/access/acl") (object m)
    → Digested d s (record s { call = stamp d s.call })
unfolding set_key
stamp-Digested d s m was = record {
  before = m;
  after = insert (str "digest") (string d) m;
  was = was;
  now = ap (stamp d) was;
  digest = get-insert_same (str "digest") (string d) m;
  others = λ k. elim (Bool-cases (str "digest" == k)) [
    | inl same ↦ inl (sym ((text_eq_iff (str "digest") k).0 same))
    | inr differs ↦ inr (get-insert k (str "digest") (string d) m ∙ rw differs refl)
  ];
  target = refl;
  action = refl;
  detail = refl;
  sensitive = refl;
}

stamp_first-Stamped :
    (d : Text) (steps : List Step)
    → All (λ s. HasObject s.call) steps
    → Stamped d steps (stamp_first d steps)
unfolding stamp_first
stamp_first-Stamped d [] h = no_write
stamp_first-Stamped d (s ∷ steps) h = elim (Bool-cases (is_acl_put s.call)) [
  | inl first ↦
      let (m, was) = acl_put_parts s.call first h.0 in rw first (write (stamp-Digested d s m was))
  | inr other ↦ rw other (pass (not-IsAclPut s.call other) (stamp_first-Stamped d steps h.1))
]

-- With a digest, exactly the first ACL write of the plan carries it, and nothing else changes, where
-- the bodies of ACL writes are objects.
pub stamp_acl_digest-Stamped :
    (d : Text) (steps : List Step)
    → All (λ s. HasObject s.call) steps
    → Stamped d steps (stamp_acl_digest steps (some d))
unfolding stamp_acl_digest
stamp_acl_digest-Stamped d steps h = stamp_first-Stamped d steps h

-- ===== src/Api/Namespaces.antt =====
-- src/api.rs: validation of namespaces, the chain of missing parents, and what a subtree holds.
use pbs.Base.{ℕ, ◌+◌, ◌%◌, Bool, false, not, ◌&&◌, ◌||◌, List, [], ◌∷◌, ◌++◌}
use pbs.Base.Tests.{ltb, nat_eq, if◌then◌else◌}
use pbs.Base.Lists.{length, any, all, filter}
use pbs.Base.Int.{ℤ, pos, ltb_ℤ}
use pbs.Base.Text.{
  Text, str, ◌==◌, is_empty, starts_with, split, is_ascii_alphanumeric, show_nat, show_int,
}
use pbs.Base.Result.{Result, ok, err, ◌>>◌, ensure, Io, bind, pure}
use pbs.Client.Request.{Net, PbsClient, get_as}
use pbs.Api.{Namespace, GroupCount, Codec, store_path}

abbrev pub has_namespace : List Namespace → Text → Bool
has_namespace existing full = any (λ n. n.ns == full) existing

-- `parent/part`, or `part` at the root
unfoldable pub full_name : Text → Text → Text
unfolding is_empty
full_name parent part = if is_empty parent then part else parent ++ (b'/' ∷ part)

-- The loop over the parts, from the parent reached so far.
unfoldable pub chain_from : List Namespace → Text → List Text → List (Text × Text)
unfolding full_name any ◌==◌
chain_from existing parent [] = []
chain_from existing parent (part ∷ parts) =
    let rest = chain_from existing (full_name parent part) parts in
    if has_namespace existing (full_name parent part) then rest else (parent, part) ∷ rest

unfoldable pub missing_namespace_chain : List Namespace → Text → List (Text × Text)
unfolding chain_from split filter is_empty
missing_namespace_chain existing ns =
    chain_from existing [] (filter (λ p. not (is_empty p)) (split b'/' ns))

unfoldable pub valid_component : Text → Bool
unfolding is_ascii_alphanumeric all
valid_component [] = false
valid_component (c ∷ s) =
    (is_ascii_alphanumeric c || nat_eq c b'_')
    && all (λ d. is_ascii_alphanumeric d || (nat_eq d b'.' || (nat_eq d b'_' || nat_eq d b'-'))) s

unfoldable pub component_message : Text → Text → Text
unfolding str
component_message ns p =
    str "namespace component '" ++ (p ++ (str "' in '" ++ (ns ++ str "' is not a valid PBS name")))

-- The loop fails at the first part that is not valid.
unfoldable pub check_components : Text → List Text → Result (Unit {0})
unfolding valid_component component_message
check_components ns [] = ok tt
check_components ns (p ∷ ps) =
    let rest = check_components ns ps in
    if valid_component p then rest else err (component_message ns p)

unfoldable pub validate_ns : Text → Result (Unit {0})
unfolding check_components split is_empty str
validate_ns ns = do
  ensure (not (is_empty ns || ltb 7 (length (split b'/' ns))))
      (str "namespace '" ++ (ns ++ str "' must be 1 to 7 '/'-separated components"))
  check_components ns (split b'/' ns)

pub record NsContents : Type 0 where
  pub groups : ℕ
  pub snapshots : ℕ
  pub last_backup : ℤ

-- `g<groups>.s<snapshots>@<last backup epoch>`
unfoldable pub fingerprint : NsContents → Text
unfolding show_nat show_int
fingerprint c =
    b'g'
    ∷ (show_nat c.groups
        ++ (b'.' ∷ b's' ∷ (show_nat c.snapshots ++ (b'@' ∷ show_int c.last_backup))))

-- `u64` sums wrap in a release build.
abbrev pub add_u64 : ℕ → ℕ → ℕ
add_u64 a b = (a + b) % 0x10000000000000000

abbrev max_ℤ : ℤ → ℤ → ℤ
max_ℤ a b = if ltb_ℤ a b then b else a

unfoldable pub add_groups : NsContents → List GroupCount → NsContents
add_groups out [] = out
add_groups out (g ∷ gs) =
    add_groups
      (record {
        groups = add_u64 out.groups 1;
        snapshots = add_u64 out.snapshots g.backup_count;
        last_backup = max_ℤ out.last_backup g.last_backup;
      })
      gs

abbrev pub in_subtree : Text → Namespace → Bool
in_subtree ns n = n.ns == ns || starts_with (ns ++ (b'/' ∷ [])) n.ns

module _ {W : Type 0} (net : Net W) (codec : Codec) (c : PbsClient) where
  unfoldable pub read_groups : Text → NsContents → List Namespace → Io W NsContents
  unfolding get_as store_path add_groups str
  read_groups store out [] = pure out
  read_groups store out (n ∷ rest) =
      bind (get_as net codec.counts_of c (store_path store (str "/groups")) ((str "ns", n.ns) ∷ []))
        (λ gs. read_groups store (add_groups out gs) rest)

  unfoldable pub ns_contents : Text → List Namespace → Text → Io W NsContents
  unfolding read_groups filter ◌==◌ starts_with
  ns_contents store existing ns =
      read_groups store (record { groups = 0; snapshots = 0; last_backup = pos 0 })
        (filter (in_subtree ns) existing)

-- ===== src/Groups/Prune/Rules.antt =====
-- What a planned prune is for: a group whose dry run listed a snapshot to remove.
use pbs.Base.{true, false, Option, List, ◌≡◌}
use pbs.Base.Lists.{Any}
use pbs.Base.Text.{Text, str}
use pbs.Base.Json.{Map}
use pbs.Plan.{Step, post_call}
use pbs.Api.{store_path}
use pbs.Groups.{PruneEntry}
use pbs.Groups.Prune.{prune_body, is_doomed}

-- A step of a prune, against the group and the entries of a dry run.
abbrev pub IsPreviewed : Text → Map → Option Text → Step → (Text × Text) × List PruneEntry → Type 0
IsPreviewed store rules ns s (g, entries) =
    (s.call ≡ post_call (store_path store (str "/prune")) (prune_body rules ns g false))
    × Any (λ e. is_doomed e ≡ true) entries

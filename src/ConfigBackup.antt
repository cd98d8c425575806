-- ===== src/ConfigBackup.antt =====
-- src/config_backup.rs: the limits, paths relative to the config directory, and which files count.
pub mod Paths
pub mod Manifest
pub mod Files
pub mod Verify
pub mod Restore
pub mod Leftovers
pub mod Recovery
pub mod Scan
pub mod Capture
pub mod LockDown
pub mod Container
pub mod Kind
pub mod Verbs
use pbs.Base.{ℕ, ◌+◌, Bool, true, false, not, ◌||◌, Option, none, some, List, [], ◌∷◌, ◌++◌}
use pbs.Base.Tests.{leb, if◌then◌else◌}
use pbs.Base.Lists.{any, filter}
use pbs.Base.Text.{
  Text, str, ◌==◌, one_of, is_empty, contains_char, starts_with, strip_prefix, split, trim,
  show_nat,
}
use pbs.Base.Text.Search.{contains, ends_with, rsplit_once, lines}
use pbs.Base.Result.{Result, ok, err, ensure}

abbrev pub manifest_version : ℕ
manifest_version = 1

-- `FILE_CAP` and `TOTAL_CAP`, in bytes
abbrev pub file_cap : ℕ
file_cap = 0x1000000

abbrev pub total_cap : ℕ
total_cap = 0x10000000

abbrev pub max_depth : ℕ
max_depth = 32

abbrev pub required : List Text
required =
    str "user.cfg"
    ∷ str "acl.cfg"
    ∷ str "authkey.key"
    ∷ str "authkey.pub"
    ∷ str "proxy.key"
    ∷ str "proxy.pem"
    ∷ []

unfoldable pub transient : Text → Bool
unfolding starts_with ends_with contains str
transient name =
    starts_with (str ".") name || ends_with (str ".lock") name || contains (str ".bak-") name

unfoldable pub missing_required : List Text → List Text
unfolding filter any ◌==◌
missing_required files = filter (λ r. not (any (λ f. f == r) files)) required

-- The names of the sections of a kind in a configuration file: `<kind>: <id>`
abbrev section_id : Text → Text → Option Text
section_id kind line = elim (strip_prefix kind line) [
  | none ↦ none
  | some rest ↦ elim (strip_prefix (b':' ∷ []) rest) [ none ↦ none | some id ↦ some (trim id) ]
]

abbrev kept_ids : Text → List Text → List Text
kept_ids kind [] = []
kept_ids kind (l ∷ ls) = elim (section_id kind l) [
  | none ↦ kept_ids kind ls
  | some id ↦ if is_empty id then kept_ids kind ls else id ∷ kept_ids kind ls
]

unfoldable pub section_ids : Text → Text → List Text
unfolding lines strip_prefix trim is_empty
section_ids text kind = kept_ids kind (lines text)

-- A segment that no path may have.
abbrev pub bad_segment : Text → Bool
bad_segment s = is_empty s || (s == str "." || s == str "..")

abbrev pub bad_path : Text → Bool
bad_path p =
    is_empty p || (contains_char 0 p || (starts_with (str "/") p || any bad_segment (split b'/' p)))

-- `debug` prints a text as `{:?}` does.
unfoldable pub check_rel : (Text → Text) → Text → Result (Unit {0})
unfolding is_empty contains_char starts_with any split ◌==◌
check_rel debug p = if bad_path p then err (str "unsafe path " ++ debug p) else ok tt

unfoldable pub split_rel : Text → Text × Text
unfolding rsplit_once
split_rel rel = elim (rsplit_once b'/' rel) [ none ↦ ([], rel) | some (dir, name) ↦ (dir, name) ]

unfoldable pub join_rel : Text → Text → Text
unfolding is_empty
join_rel dir name = if is_empty dir then name else dir ++ (b'/' ∷ name)

unfoldable pub descend : ℕ → Text → Result ℕ
descend depth rel =
    if leb max_depth depth
    then err (rel ++ str " is nested deeper than 32 directories; refusing to walk it")
    else ok (depth + 1)

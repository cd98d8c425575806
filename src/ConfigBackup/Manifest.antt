-- ===== src/ConfigBackup/Manifest.antt =====
-- src/config_backup.rs: the manifest of a capture and its validation.
pub mod PlainPath
pub mod Restorable
use pbs.Base.{
  ℕ, ◌+◌, ◌/◌, Bool, true, false, not, ◌||◌, Option, none, some, List, [], ◌∷◌, ◌++◌, map,
}
use pbs.Base.Tests.{leb, ltb, nat_eq, if◌then◌else◌}
use pbs.Base.Text.{Text, str, ◌==◌, one_of, is_empty, show_nat}
use pbs.Base.Text.Search.{show_octal}
use pbs.Base.Result.{Result, ok, err, ◌>>=◌, ◌>>◌, ensure}
use pbs.Api.Namespaces.{add_u64}
use pbs.ConfigBackup.{manifest_version, file_cap, total_cap, check_rel, split_rel}

pub record FileEntry : Type 0 where
  pub path : Text
  pub size : ℕ
  pub sha256 : Text
  pub mode : ℕ
  pub uid : ℕ
  pub gid : ℕ

pub record DirEntry : Type 0 where
  pub path : Text
  pub mode : ℕ
  pub uid : ℕ
  pub gid : ℕ

pub record Manifest : Type 0 where
  pub version : ℕ
  pub instance_name : Text
  pub source : Text
  pub dirs : List DirEntry
  pub files : List FileEntry

-- The paths and modes that a manifest lists.
abbrev pub Entry : Type 0
Entry = Text × ℕ

abbrev pub entries_of : Manifest → List Entry
entries_of m =
    map (λ (d : DirEntry). (d.path, d.mode)) m.dirs
    ++ map (λ (f : FileEntry). (f.path, f.mode)) m.files

-- `mode & !0o777 == 0`: no bit above the permission bits is set.
abbrev pub only_permissions : ℕ → Bool
only_permissions mode = nat_eq (mode / 0x200) 0

-- The prefix `debug` prints a text as `{:?}` does.
unfoldable pub check_entries : (Text → Text) → List Text → List Entry → Result (Unit {0})
unfolding check_rel one_of
check_entries debug seen [] = ok tt
check_entries debug seen ((path, mode) ∷ es) =
    check_rel debug path
    >> ensure (not (one_of path seen)) (str "manifest lists " ++ (debug path ++ str " twice"))
    >> ensure (only_permissions mode) (
        str "manifest gives "
        ++ (debug path
            ++ (str " mode " ++ (show_octal mode ++ str "; only permission bits are restored"))))
    >> check_entries debug (path ∷ seen) es

unfoldable pub check_parents : (Text → Text) → List Text → List Entry → Result (Unit {0})
unfolding split_rel is_empty one_of
check_parents debug dirs [] = ok tt
check_parents debug dirs ((path, mode) ∷ es) =
    ensure (is_empty (split_rel path).0 || one_of (split_rel path).0 dirs) (
      str "manifest lists "
      ++ (debug path ++ (str " but not its directory " ++ debug (split_rel path).0)))
    >> check_parents debug dirs es

-- The sizes and their sum, a `u64`.
unfoldable pub check_sizes : (Text → Text) → ℕ → List FileEntry → Result ℕ
check_sizes debug total [] = ok total
check_sizes debug total (f ∷ fs) =
    ensure (leb f.size file_cap) (
      str "manifest gives "
      ++ (debug f.path ++ (b' ' ∷ (show_nat f.size ++ str " bytes, over the limit"))))
    >> check_sizes debug (add_u64 total f.size) fs

unfoldable pub validate : (Text → Text) → Text → Manifest → Result (Unit {0})
unfolding check_entries check_parents check_sizes
validate debug at m =
    ensure (nat_eq m.version manifest_version)
      (at ++ (str ": manifest version " ++ (show_nat m.version ++ str " is not 1")))
    >> check_entries debug [] (entries_of m)
    >> check_parents debug (map (λ (d : DirEntry). d.path) m.dirs) (entries_of m)
    >> (check_sizes debug 0 m.files >>= λ total.
        ensure (leb total total_cap) (
          str "manifest totals "
          ++ (show_nat total ++ str " bytes, over the 268435456-byte limit")))

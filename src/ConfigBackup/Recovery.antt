-- ===== src/ConfigBackup/Recovery.antt =====
-- src/config_backup.rs: `Op`, one step of settling an interrupted restore.
pub mod Slot
pub mod Plan
pub mod Run
use pbs.Base.{ℕ, Bool, true, false, not, Option, none, some, List, [], ◌∷◌, ◌++◌}
use pbs.Base.Tests.{if◌then◌else◌}
use pbs.Base.Text.{Text, str, ◌==◌, show_nat}
use pbs.Base.Text.Search.{show_octal}
use pbs.Base.Result.{Result, ok, err, panic, Io, lift, pure, fail}
use pbs.Base.Action.{◌>>=◌, ◌>>◌, attempt}
use pbs.ConfigBackup.{join_rel}
use pbs.ConfigBackup.Files.{Fs, tolerate, open_dir, read_capped, apply_meta, discard}
use pbs.ConfigBackup.Manifest.{FileEntry}
use pbs.ConfigBackup.Verify.{Codec}
use pbs.ConfigBackup.Restore.{owner}

pub data Op : Type 0 where
  rename : (at from to : Text) → Op
  install : (at from staging to : Text) → FileEntry → (owners : Bool) → Op
  chmod : (at name : Text) → ℕ → Op
  unlink : (at name : Text) → Op
  rmdir : (at name : Text) → Op
  keep : (at name why : Text) → Op

abbrev owner_text : Bool → FileEntry → Text
owner_text false file = []
owner_text true file = str ", owner " ++ (show_nat file.uid ++ (b':' ∷ show_nat file.gid))

unfoldable pub describe : Op → Text
unfolding join_rel
describe (rename at from to) = str "rename " ++ (join_rel at from ++ (str " to " ++ join_rel at to))
describe (install at from staging to file owners) =
    str "install "
    ++ (join_rel at to
        ++ (str " from "
            ++ (join_rel at from
                ++ (str " once it matches the backup, mode "
                    ++ (show_octal file.mode ++ owner_text owners file)))))
describe (chmod at name mode) =
    str "set mode of directory " ++ (join_rel at name ++ (str " to " ++ show_octal mode))
describe (unlink at name) = str "remove " ++ join_rel at name
describe (rmdir at name) = str "remove directory " ++ join_rel at name
describe (keep at name why) = str "leave " ++ (join_rel at name ++ (str ": " ++ why))

-- `Op::dir`
abbrev pub op_dir : Op → Text
op_dir (rename at from to) = at
op_dir (install at from staging to file owners) = at
op_dir (chmod at name mode) = at
op_dir (unlink at name) = at
op_dir (rmdir at name) = at
op_dir (keep at name why) = at

module _ {W D F : Type 0} (fs : Fs W D F) (codec : Codec) where
  -- The bytes of an install, refused unless they hash to the backup; of any other step none.
  unfoldable pub verified_bytes : D → Op → Io W (List ℕ)
  unfolding open_dir read_capped join_rel ◌==◌
  verified_bytes root (install at from staging to file owners) = do
    d ← open_dir fs root at
    f ← fs.file d from
    bytes ← read_capped fs f from
    if not (codec.sha256_hex bytes == file.sha256)
        then fail (join_rel at from ++ str " does not match the backup manifest; not installed")
        else pure bytes
  verified_bytes root other = pure []

  abbrev installed : D → Text → Result (Unit {0}) → Io W (Unit {0})
  installed d staging (ok u) = pure tt
  installed d staging (err e) = do r ← attempt (discard fs d staging); fail e
  installed d staging panic = lift panic

  abbrev apply_at : List ℕ → D → Op → Io W (Unit {0})
  apply_at bytes d (rename at from to) = fs.rename d from to
  apply_at bytes d (install at from staging to file owners) = do
    discard fs d staging
    out ← fs.create d staging
    r ← attempt (
        fs.write_all out bytes
        >> apply_meta fs out file.mode (owner owners file.uid file.gid)
        >> fs.sync_all out
        >> fs.rename d staging to)
    installed d staging r
    discard fs d from
  apply_at bytes d (chmod at name mode) = do
    sub ← fs.sub d name
    fs.set_permissions (fs.handle sub) mode
  apply_at bytes d (unlink at name) = discard fs d name
  apply_at bytes d (rmdir at name) = do r ← fs.rmdir d name; lift (tolerate r)
  apply_at bytes d (keep at name why) = pure tt

  unfoldable pub apply : D → Op → Io W (Unit {0})
  unfolding verified_bytes open_dir apply_meta discard
  apply root op = do
    bytes ← verified_bytes root op
    d ← open_dir fs root (op_dir op)
    apply_at bytes d op

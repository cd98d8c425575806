-- ===== src/ConfigBackup/Kind.antt =====
-- src/config_backup.rs: the kind of backup, `PbsConfigKind`, over one root of docker volumes.
use pbs.Base.{ℕ, Bool, true, false, not, Option, none, some, List, [], ◌∷◌, ◌++◌}
use pbs.Base.Tests.{if◌then◌else◌}
use pbs.Base.Lists.{length}
use pbs.Base.Text.{Text, str, strip_suffix, show_nat, join}
use pbs.Base.Json.{text_lt}
use pbs.Base.Result.{Result, ok, err, panic, Io, lift, pure, fail}
use pbs.Base.Action.{◌>>=◌, ◌>>◌, in_context, attempt, sort_by}
use pbs.ConfigBackup.Files.{Fs, path_join}
use pbs.ConfigBackup.Manifest.{Manifest}
use pbs.ConfigBackup.Verify.{
  Codec, Verification, is_ok, files_dir, verified_manifest, verify, verify_meta,
}
use pbs.ConfigBackup.Restore.{SwapMarker}
use pbs.ConfigBackup.Restore.Materialize.{materialize}
use pbs.ConfigBackup.Capture.{Host, capture}
use pbs.ConfigBackup.LockDown.{lock_down}
use pbs.ConfigBackup.Container.{
  DirItem, ReadDir, listing, no_dir, System, config_dir, ensure_stopped,
}

-- What the source gives `BackupOutcome`.
pub record BackupOutcome : Type 0 where
  pub checksum : Option Text
  pub note : Option Text
  pub unchanged : Bool

abbrev orphan_note : List Text → Text
orphan_note [] = []
orphan_note (t ∷ ts) = str "; tokens without a secret: " ++ join (str ", ") (t ∷ ts)

abbrev loose_note : Option Text → Text
loose_note none = []
loose_note (some w) = str "; " ++ w

module _ {W D F : Type 0} (fs : Fs W D F) (codec : Codec) (system : System W) (host : Host W F)
    (marker_bytes : SwapMarker → Result (List ℕ)) where
  -- Whether a directory holds the identity of a server
  abbrev has_identity : Text → Io W Bool
  has_identity dir = do
    key ← system.path_is_file (path_join dir (str "authkey.pub"))
    if key then system.path_is_file (path_join dir (str "user.cfg")) else pure false

  abbrev instance_in : Text → Result Text → Io W (List Text)
  instance_in instance_name (ok dir) = do
    there ← has_identity dir
    pure (if there then instance_name ∷ [] else [])
  instance_in instance_name (err e) = pure []
  instance_in instance_name panic = lift panic

  abbrev instance_named : Text → Option Text → Io W (List Text)
  instance_named root none = pure []
  instance_named root (some instance_name) = do
    dir ← attempt (config_dir fs codec system root instance_name)
    instance_in instance_name dir

  unfoldable pub find_in : Text → List (Result (DirItem W)) → Io W (List Text)
  unfolding config_dir strip_suffix
  find_in root [] = pure []
  find_in root (r ∷ rs) = do
    item ← lift r
    here ← instance_named root (strip_suffix (str "-config") item.file_name)
    rest ← find_in root rs
    pure (here ++ rest)

  abbrev found_in : Text → ReadDir W → Io W (List Text)
  found_in root (no_dir e) = pure []
  found_in root (listing items) = do out ← find_in root items; pure (sort_by text_lt out)

  -- The instances whose volume holds the identity of a server, in order
  unfoldable pub find : Text → Io W (List Text)
  unfolding find_in sort_by text_lt
  find root = in_context (str "read " ++ root) (system.read_dir root) >>= found_in root

  abbrev outcome_of : Text → Manifest → List ℕ → Verification → Option Text → BackupOutcome
  outcome_of source m raw v warning = record {
    checksum = some (str "sha256:" ++ codec.sha256_hex raw);
    note = some (
        show_nat (length m.files)
        ++ (str " files from " ++ (source ++ (orphan_note v.orphan_tokens ++ loose_note warning))));
    unchanged = false;
  }

  unfoldable pub backup_into : Text → Text → Text → Io W BackupOutcome
  unfolding config_dir capture verify lock_down show_nat join
  backup_into root payload_dir instance_name = do
    source ← config_dir fs codec system root instance_name
    captured ← capture fs codec host source payload_dir instance_name
    v ← verify fs codec (path_join payload_dir files_dir) captured.0
    if not (is_ok v)
        then fail
            (str "the written backup does not match what was read: " ++ join (str "; ") v.problems)
        else do
          warning ← lock_down fs payload_dir
          pure (outcome_of source captured.0 captured.1 v warning)

  abbrev started_meanwhile : Text
  started_meanwhile =
      str
        "a container started during the restore; stop it and start it again so PBS loads only the restored config"

  -- The restore into the live volume, of a capture that was verified
  abbrev restore_live : Text → Text → Text → Text → Manifest → Io W Verification
  restore_live root payload_dir instance_name live m = do
    created ← materialize fs codec marker_bytes system.new_id payload_dir live m true
    in_context started_meanwhile (ensure_stopped fs codec system root instance_name)
    v ← verify fs codec live m
    more ← verify_meta fs codec live m created
    let all : Verification = record v { problems = v.problems ++ more }
    if not (is_ok all)
        then fail (str "restored config failed verification: " ++ join (str "; ") all.problems)
        else pure all

  unfoldable pub restore_from : Text → Text → Text → Io W Verification
  unfolding ensure_stopped verified_manifest verify config_dir materialize verify_meta join
  restore_from root payload_dir instance_name = do
    ensure_stopped fs codec system root instance_name
    m ← verified_manifest fs codec payload_dir
    captured ← verify fs codec (path_join payload_dir files_dir) m
    if not (is_ok captured)
        then fail (
            str "backup failed verification, nothing restored: "
            ++ join (str "; ") captured.problems)
        else do
          live ← config_dir fs codec system root instance_name
          there ← system.path_is_dir live
          if not there
              then fail (
                  live
                  ++ str " does not exist; deploy the container first so its config volume exists")
              else restore_live root payload_dir instance_name live m

-- ===== src/ConfigBackup/Recovery/Slot.antt =====
-- src/config_backup.rs: the backup that a `finish` may act on.
pub mod Quiet
use pbs.Base.{ℕ, Bool, true, false, not, Option, none, some, List, ◌++◌}
use pbs.Base.Tests.{if◌then◌else◌}
use pbs.Base.Text.{Text, str, ◌==◌}
use pbs.Base.Json.{and_then}
use pbs.Base.Result.{Result, ok, Io, lift, pure, fail, ok_or}
use pbs.Base.Action.{◌>>=◌, in_context, attempt}
use pbs.ConfigBackup.Files.{Fs, path_join}
use pbs.ConfigBackup.Manifest.{Manifest}
use pbs.ConfigBackup.Verify.{Codec, manifest_name, verified_slot}
use pbs.ConfigBackup.Restore.{SwapMarker}

abbrev pub kind_name : Text
kind_name = str "pbs-config"

abbrev pub succeeded : {A : Type 0} → Result A → Bool
succeeded (ok a) = true
succeeded other = false

abbrev same_bytes : List ℕ → List ℕ → Bool
same_bytes a b = a == b

abbrev is_text : Option Text → Text → Bool
is_text none t = false
is_text (some s) t = s == t

module _ {W D F : Type 0} (fs : Fs W D F) (codec : Codec) where
  abbrev not_stored : Text → Text
  not_stored payload = payload ++ str " is not a pbs-config backup payload inside a backup store"

  -- `<root>/pbs-config/<instance>/<id>/payload`: the slot, and what stands three levels above it.
  abbrev slot_of : Text → Option Text
  slot_of p = if fs.path_ends_with p (str "payload") then fs.parent p else none

  abbrev root_of : Text → Option Text
  root_of slot = and_then (and_then (fs.parent slot) fs.parent) fs.parent

  unfoldable pub store_payload : Text → Io W Text
  unfolding ◌==◌
  store_payload payload = do
    p ← in_context (str "resolve " ++ payload) (fs.canonicalize payload)
    slot ← lift (ok_or (slot_of p) (not_stored payload))
    root ← lift (ok_or (root_of slot) (not_stored payload))
    lock ← attempt (fs.open_regular (path_join root codec.stage_lock_file))
    if not (succeeded lock)
        then fail (not_stored payload)
        else if not (is_text (fs.first_below p root) kind_name)
        then fail (not_stored payload)
        else do
          held ← attempt (fs.open_regular (path_join slot manifest_name))
          if succeeded held then pure p else fail (not_stored payload)

  -- The slot that a marker names, verified, unless it lies where a container can write.
  abbrev trusted_slot : Text → Text → Io W ((Manifest × Text) × Text)
  trusted_slot payload untrusted = do
    p ← store_payload payload
    away ← fs.canonicalize untrusted
    if fs.path_starts_with p away
        then fail (str "it lies inside docker's data root, which the container can write")
        else do found ← verified_slot fs codec p; pure (found, p)

  abbrev matched : Text → Text → Text → Manifest → (Manifest × Text) × Text → Io W (Manifest × Text)
  matched name payload checksum recorded ((m, got), slot) =
      let refuse : Io W (Manifest × Text) = fail (
        name
        ++ (str " does not match the backup at " ++ (payload ++ str "; only rollback applies"))) in
      if not (got == checksum) then refuse else do
        a ← lift (codec.manifest_bytes m)
        b ← lift (codec.manifest_bytes recorded)
        if same_bytes a b then pure (m, slot) else refuse

  abbrev of_instance : Text → Text → Manifest × Text → Io W (Manifest × Text)
  of_instance name instance_name (m, slot) =
      if m.instance_name == instance_name
      then pure (m, slot)
      else fail (
          name
          ++ (str " names a backup of "
              ++ (fs.debug m.instance_name
                  ++ (str ", not " ++ (fs.debug instance_name ++ str "; only rollback applies")))))

  abbrev named_slot :
      Text → Text → Text → Option Text → Option Text → Option Manifest → Io W (Manifest × Text)
  named_slot name instance_name untrusted (some payload) (some checksum) (some recorded) = do
    found ←
        in_context
          (name
            ++ (str " names the backup at "
                ++ (payload ++ str ", which cannot be verified; only rollback applies")))
          (trusted_slot payload untrusted)
    m ← matched name payload checksum recorded found
    of_instance name instance_name m
  named_slot name instance_name untrusted payload checksum recorded = fail (
      name
      ++ str " records no backup slot to check the staged files against; only rollback applies")

  unfoldable pub finishing_manifest : SwapMarker → Text → Text → Text → Io W (Manifest × Text)
  unfolding store_payload verified_slot ◌==◌
  finishing_manifest marker name instance_name untrusted =
      named_slot name instance_name untrusted marker.slot_payload marker.slot_checksum
        marker.manifest

  unfoldable pub match_payload : Text → Option Text → Io W (Unit {0})
  unfolding ◌==◌
  match_payload slot none =
      fail
        (str "finish needs --payload naming the backup it completes; the marker records " ++ slot)
  match_payload slot (some payload) = do
    given ← in_context (str "resolve " ++ payload) (fs.canonicalize payload)
    if given == slot
        then pure tt
        else fail (
            str "--payload "
            ++ (payload
                ++ (str " is not the backup the interrupted restore used ("
                    ++ (slot ++ str "); refusing"))))

-- ===== src/ConfigBackup/Recovery/Slot/Quiet.antt =====
-- Finding and checking the backup of an interrupted restore changes nothing.
use pbs.Base.{ℕ, not, Option, none, some, List, refl}
use pbs.Base.Text.{Text, ◌==◌}
use pbs.Base.Result.{lift, pure, fail, ok_or}
use pbs.Base.Action.{in_context, attempt}
use pbs.Base.Quiet.{IsQuiet, bind-IsQuiet, choice-IsQuiet, attempt-IsQuiet}
use pbs.ConfigBackup.Files.{Fs, path_join, open_root, read_path, read_rel}
use pbs.ConfigBackup.Files.Quiet.{
  ReadsQuietly, open_root-IsQuiet, read_rel-IsQuiet, read_path-IsQuiet,
}
use pbs.ConfigBackup.Manifest.{Manifest}
use pbs.ConfigBackup.Verify.{Codec, manifest_name, checksum_of, parse, verified_slot}
use pbs.ConfigBackup.Restore.{SwapMarker}
use pbs.ConfigBackup.Recovery.Slot.{
  kind_name, succeeded, is_text, not_stored, slot_of, root_of, store_payload, trusted_slot, matched,
  named_slot, finishing_manifest, match_payload,
}

module _ {W D F : Type 0} (fs : Fs W D F) (quiet : ReadsQuietly fs) (codec : Codec) where
  parse-IsQuiet : (raw : List ℕ) (payload : Text) → IsQuiet (parse fs codec raw payload)
  unfolding parse
  parse-IsQuiet raw payload =
      bind-IsQuiet (in_context _ (lift (codec.manifest_of raw))) _ (λ w. refl)
        λ m. bind-IsQuiet (lift _) _ (λ w. refl) λ _ w. refl

  pub verified_slot-IsQuiet : (payload : Text) → IsQuiet (verified_slot fs codec payload)
  unfolding verified_slot
  verified_slot-IsQuiet payload =
      bind-IsQuiet (lift _) _ (λ w. refl)
        λ slot.
          bind-IsQuiet (read_path fs (path_join slot manifest_name)) _
            (read_path-IsQuiet fs quiet (path_join slot manifest_name))
            λ bytes.
              bind-IsQuiet (in_context _ (lift (codec.value_of bytes))) _ (λ w. refl)
                λ value.
                  bind-IsQuiet (lift _) _ (λ w. refl)
                    λ want.
                      bind-IsQuiet (open_root fs payload) _ (open_root-IsQuiet fs quiet payload)
                        λ d.
                          bind-IsQuiet (read_rel fs d manifest_name) _
                            (read_rel-IsQuiet fs quiet d manifest_name)
                            λ raw.
                              choice-IsQuiet (not (want == checksum_of fs codec raw)) (fail _) _
                                (λ w. refl)
                                (bind-IsQuiet (parse fs codec raw payload) _
                                  (parse-IsQuiet raw payload) λ m w. refl)

  store_payload-IsQuiet : (payload : Text) → IsQuiet (store_payload fs codec payload)
  unfolding store_payload
  store_payload-IsQuiet payload =
      bind-IsQuiet (in_context _ (fs.canonicalize payload)) _ (quiet.resolves payload) λ p.
        bind-IsQuiet (lift (ok_or (slot_of fs codec p) (not_stored fs codec payload))) _ (λ w. refl)
          λ slot.
            bind-IsQuiet (lift (ok_or (root_of fs codec slot) (not_stored fs codec payload))) _
              (λ w. refl)
              λ root.
                bind-IsQuiet (attempt (fs.open_regular (path_join root codec.stage_lock_file))) _
                  (attempt-IsQuiet (fs.open_regular (path_join root codec.stage_lock_file))
                    (quiet.opens_regular (path_join root codec.stage_lock_file)))
                  λ lock.
                    choice-IsQuiet (not (succeeded lock)) (fail (not_stored fs codec payload)) _
                      (λ w. refl)
                      (choice-IsQuiet (not (is_text (fs.first_below p root) kind_name))
                        (fail (not_stored fs codec payload)) _ (λ w. refl)
                        (bind-IsQuiet (attempt (fs.open_regular (path_join slot manifest_name))) _
                          (attempt-IsQuiet (fs.open_regular (path_join slot manifest_name))
                            (quiet.opens_regular (path_join slot manifest_name)))
                          λ held.
                            choice-IsQuiet (succeeded held) (pure p)
                              (fail (not_stored fs codec payload)) (λ w. refl) (λ w. refl)))

  trusted_slot-IsQuiet :
      (payload untrusted : Text) → IsQuiet (trusted_slot fs codec payload untrusted)
  trusted_slot-IsQuiet payload untrusted =
      bind-IsQuiet (store_payload fs codec payload) _ (store_payload-IsQuiet payload) λ p.
        bind-IsQuiet (fs.canonicalize untrusted) _ (quiet.resolves untrusted) λ away.
          choice-IsQuiet (fs.path_starts_with p away) (fail _) _ (λ w. refl)
            (bind-IsQuiet (verified_slot fs codec p) _ (verified_slot-IsQuiet p) λ found w. refl)

  matched-IsQuiet :
      (name payload checksum : Text) (recorded : Manifest) (found : (Manifest × Text) × Text)
      → IsQuiet (matched fs codec name payload checksum recorded found)
  matched-IsQuiet name payload checksum recorded ((m, got), slot) =
      choice-IsQuiet (not (got == checksum)) (fail _) _ (λ w. refl)
        (bind-IsQuiet (lift (codec.manifest_bytes m)) _ (λ w. refl)
          λ a.
            bind-IsQuiet (lift (codec.manifest_bytes recorded)) _ (λ w. refl)
              λ b. choice-IsQuiet _ (pure (m, slot)) (fail _) (λ w. refl) (λ w. refl))

  named_slot-IsQuiet :
      (name instance_name untrusted : Text) (payload checksum : Option Text)
      (recorded : Option Manifest)
      → IsQuiet (named_slot fs codec name instance_name untrusted payload checksum recorded)
  named_slot-IsQuiet name instance_name untrusted (some payload) (some checksum) (some recorded) w =
      bind-IsQuiet (in_context _ (trusted_slot fs codec payload untrusted)) _
        (trusted_slot-IsQuiet payload untrusted)
        (λ found.
          bind-IsQuiet (matched fs codec name payload checksum recorded found) _
            (matched-IsQuiet name payload checksum recorded found)
            λ m.
              choice-IsQuiet (m.0.instance_name == instance_name) (pure _) (fail _) (λ w. refl)
                (λ w. refl))
        w
  named_slot-IsQuiet name instance_name untrusted none checksum recorded w = refl
  named_slot-IsQuiet name instance_name untrusted (some p) none recorded w = refl
  named_slot-IsQuiet name instance_name untrusted (some p) (some c) none w = refl

  pub finishing_manifest-IsQuiet :
      (marker : SwapMarker) (name instance_name untrusted : Text)
      → IsQuiet (finishing_manifest fs codec marker name instance_name untrusted)
  unfolding finishing_manifest
  finishing_manifest-IsQuiet marker name instance_name untrusted =
      named_slot-IsQuiet name instance_name untrusted marker.slot_payload marker.slot_checksum
        marker.manifest

  pub match_payload-IsQuiet :
      (slot : Text) (payload : Option Text) → IsQuiet (match_payload fs codec slot payload)
  unfolding match_payload
  match_payload-IsQuiet slot none w = refl
  match_payload-IsQuiet slot (some payload) w =
      bind-IsQuiet (in_context _ (fs.canonicalize payload)) _ (quiet.resolves payload)
        (λ given. choice-IsQuiet (given == slot) (pure tt) _ (λ w. refl) (λ w. refl)) w

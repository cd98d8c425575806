-- ===== src/ConfigBackup/Verify.antt =====
-- src/config_backup.rs: the slot's checksum, and checking a directory against a manifest.
use pbs.Base.{
  ℕ, ◌+◌, ◌%◌, Bool, true, false, not, ◌&&◌, ◌||◌, Option, none, some, List, [], ◌∷◌, ◌++◌, map,
}
use pbs.Base.Tests.{nat_eq, if◌then◌else◌}
use pbs.Base.Lists.{filter}
use pbs.Base.Text.{Text, str, ◌==◌, one_of, show_nat}
use pbs.Base.Text.Search.{show_octal}
use pbs.Base.Json.{Value, Map, end, contains_key, str_field}
use pbs.Base.Result.{Result, ok, err, Io, lift, pure, fail, ok_or}
use pbs.Base.Action.{◌>>=◌, ◌>>◌, in_context, attempt}
use pbs.ConfigBackup.{missing_required, section_ids}
use pbs.ConfigBackup.Files.{Fs, Meta, path_join, open_root, open_dir, open_rel, read_rel, read_path}
use pbs.ConfigBackup.Manifest.{FileEntry, DirEntry, Manifest, validate}

-- The decoders and the hash, which are libraries'.
pub record Codec : Type 0 where
  pub manifest_of : List ℕ → Result Manifest
  pub manifest_bytes : Manifest → Result (List ℕ)
  pub value_of : List ℕ → Result Value
  pub map_of : Text → Option Map
  pub sha256_hex : List ℕ → Text
  pub from_utf8_lossy : List ℕ → Text
  -- `STAGE_LOCK_FILE` of orca's toolkit
  pub stage_lock_file : Text

pub record Verification : Type 0 where
  pub files_checked : ℕ
  pub datastores : List Text
  pub tokens : List Text
  pub orphan_tokens : List Text
  pub problems : List Text

abbrev pub is_ok : Verification → Bool
is_ok v = elim v.problems [ [] ↦ true | p ∷ ps ↦ false ]

abbrev nothing : Verification
nothing = record {
  files_checked = 0;
  datastores = [];
  tokens = [];
  orphan_tokens = [];
  problems = [];
}

abbrev pub manifest_name : Text
manifest_name = str "manifest.json"

abbrev pub files_dir : Text
files_dir = str "files"

module _ {W D F : Type 0} (fs : Fs W D F) (codec : Codec) where
  unfoldable pub parse : List ℕ → Text → Io W Manifest
  unfolding validate
  parse raw payload = do
    m ← in_context (str "parse " ++ path_join payload manifest_name) (lift (codec.manifest_of raw))
    lift (validate fs.debug (path_join payload manifest_name) m)
    pure m

  -- `Manifest::read`
  unfoldable pub read_manifest : Text → Io W Manifest
  unfolding read_rel parse
  read_manifest payload = do
    d ← open_root fs payload
    raw ← read_rel fs d manifest_name
    parse raw payload

  unfoldable pub checksum_of : List ℕ → Text
  checksum_of raw = str "sha256:" ++ codec.sha256_hex raw

  -- The manifest of a payload, if it hashes to the checksum that the record of its slot holds.
  unfoldable pub verified_slot : Text → Io W (Manifest × Text)
  unfolding read_path str_field read_rel checksum_of parse ◌==◌
  verified_slot payload = do
    slot ← lift (ok_or (fs.parent payload) (payload ++ str " has no backup slot"))
    bytes ← read_path fs (path_join slot manifest_name)
    record_value ←
        in_context (str "parse the backup record in " ++ slot) (lift (codec.value_of bytes))
    want ← lift (
        ok_or (str_field (str "checksum") record_value) (
          str "the backup record in "
          ++ (slot
              ++ str " has no checksum; refusing to restore a backup that cannot be verified")))
    d ← open_root fs payload
    raw ← read_rel fs d manifest_name
    if not (want == checksum_of raw)
        then fail (
            str "backup checksum mismatch in "
            ++ (slot
                ++ (str ": the record has "
                    ++ (want ++ (str ", the payload manifest hashes to " ++ checksum_of raw)))))
        else do m ← parse raw payload; pure (m, checksum_of raw)

  unfoldable pub verified_manifest : Text → Io W Manifest
  unfolding verified_slot
  verified_manifest payload = do found ← verified_slot payload; pure found.0

  -- `verify`: the loop over the files, and what the configuration defines.
  abbrev counted : FileEntry → Result (List ℕ) → Verification → Verification
  counted f (ok buf) v =
      if codec.sha256_hex buf == f.sha256
      then record v { files_checked = v.files_checked + 1 }
      else record v { problems = v.problems ++ ((f.path ++ str ": checksum mismatch") ∷ []) }
  counted f other v = record v {
    problems = v.problems ++ ((f.path ++ str ": missing or unreadable") ∷ []);
  }

  unfoldable pub check_files : D → List FileEntry → Verification → Io W Verification
  unfolding read_rel ◌==◌
  check_files root [] v = pure v
  check_files root (f ∷ fs') v = do
    r ← attempt (read_rel fs root f.path)
    check_files root fs' (counted f r v)

  abbrev text_or_empty : Result (List ℕ) → Text
  text_or_empty (ok b) = codec.from_utf8_lossy b
  text_or_empty other = []

  unfoldable pub read_text : D → Text → Io W Text
  unfolding read_rel
  read_text root name = do r ← attempt (read_rel fs root name); pure (text_or_empty r)

  abbrev secret_holders : Option Map → Map
  secret_holders none = end
  secret_holders (some m) = m

  unfoldable pub verify_root : Manifest → D → Io W Verification
  unfolding check_files read_text missing_required section_ids filter contains_key
  verify_root m root = do
    v ← check_files root m.files nothing
    stores ← read_text root (str "datastore.cfg")
    users ← read_text root (str "user.cfg")
    shadow ← read_text root (str "token.shadow")
    let tokens : List Text = section_ids users (str "token")
    let secrets : Map = secret_holders (codec.map_of shadow)
    pure (record v {
      datastores = section_ids stores (str "datastore");
      tokens = tokens;
      orphan_tokens = filter (λ t. not (contains_key t secrets)) tokens;
      problems =
          v.problems
          ++ map (λ r. r ++ str ": not in the backup")
              (missing_required (map (λ (f : FileEntry). f.path) m.files));
    })

  abbrev verify_opened : Manifest → Result D → Io W Verification
  verify_opened m (ok root) = verify_root m root
  verify_opened m (err e) = pure (record nothing { problems = e ∷ [] })
  verify_opened m other = pure nothing

  unfoldable pub verify : Text → Manifest → Io W Verification
  unfolding verify_root
  verify dir m = do r ← attempt (open_root fs dir); verify_opened m r

  -- `verify_meta`: mode, owner and group, of a directory only if the restore created it.
  abbrev permissions : Meta → ℕ
  permissions m = m.mode % 0x200

  abbrev owner_text : ℕ → ℕ → ℕ → Text
  owner_text mode uid gid = show_nat uid ++ (b':' ∷ (show_nat gid ++ (b' ' ∷ show_octal mode)))

  abbrev meta_problem : Text → ℕ → ℕ → ℕ → Bool → Result Meta → List Text
  meta_problem path mode uid gid owned (ok m) =
      if nat_eq (permissions m) mode && (not owned || (nat_eq m.uid uid && nat_eq m.gid gid))
      then []
      else (path
          ++ (str ": "
              ++ (owner_text (permissions m) m.uid m.gid
                  ++ (str ", backup has " ++ owner_text mode uid gid))))
        ∷ []
  meta_problem path mode uid gid owned other = (path ++ str ": missing") ∷ []

  unfoldable pub dir_problems : D → List Text → List DirEntry → Io W (List Text)
  unfolding open_dir one_of
  dir_problems root created [] = pure []
  dir_problems root created (d ∷ ds) = do
    r ← attempt (open_dir fs root d.path >>= λ x. fs.metadata (fs.handle x))
    rest ← dir_problems root created ds
    pure (meta_problem d.path d.mode d.uid d.gid (one_of d.path created) r ++ rest)

  unfoldable pub file_problems : D → List FileEntry → Io W (List Text)
  unfolding open_rel
  file_problems root [] = pure []
  file_problems root (f ∷ fs') = do
    r ← attempt (open_rel fs root f.path >>= fs.metadata)
    rest ← file_problems root fs'
    pure (meta_problem f.path f.mode f.uid f.gid true r ++ rest)

  abbrev meta_opened : Manifest → List Text → Result D → Io W (List Text)
  meta_opened m created (ok root) = do
    ds ← dir_problems root created m.dirs
    fs' ← file_problems root m.files
    pure (ds ++ fs')
  meta_opened m created (err e) = pure (e ∷ [])
  meta_opened m created other = pure []

  unfoldable pub verify_meta : Text → Manifest → List Text → Io W (List Text)
  unfolding dir_problems file_problems
  verify_meta dir m created = do r ← attempt (open_root fs dir); meta_opened m created r

-- ===== src/ConfigBackup/Capture/Fits.antt =====
-- What a capture writes down is within the limits that a restore checks.
use pbs.Base.{
  ℕ, zero, suc, ◌+◌, ◌≤◌, ◌<◌, List, [], ◌∷◌, map, ◌≡◌, refl, sym, subst, ap, ◌∙◌, arith,
}
use pbs.Base.Tests.{ltb}
use pbs.Base.Lists.{length, All}
use pbs.Base.Text.{Text}
use pbs.Base.Result.{ok, Io, lift, pure, fail}
use pbs.Base.Action.{in_context, attempt}
use pbs.Base.Gives.{
  Gives, OkGives, pure-Gives, fail-Gives, lift-Gives, bind-Gives, then-Gives, if-Gives,
  attempt-Gives, in_context-Gives, weaken-Gives,
}
use pbs.Api.Namespaces.{add_u64}
use pbs.ConfigBackup.{manifest_version, file_cap, total_cap, missing_required}
use pbs.ConfigBackup.Files.{Fs, read_capped, open_rel, open_root, open_dir}
use pbs.ConfigBackup.Manifest.{FileEntry, DirEntry, Manifest}
use pbs.ConfigBackup.Manifest.Restorable.{total_size}
use pbs.ConfigBackup.Verify.{Codec, manifest_name, files_dir}
use pbs.ConfigBackup.Scan.{Stamps, scan, stamps, stamps_eq, insert, stamp}
use pbs.ConfigBackup.Capture.{
  Host, Snapshot, write_dirs, write_files, read_dirs, read_files, read_complete, read_once,
  read_tries, read_snapshot, write_capture, manifest_of, under_locks, hold_locks, release,
  capture_with,
}

abbrev Read : Type 0
Read = List (FileEntry × List ℕ)

abbrev entries : Read → List FileEntry
entries files = map (λ (f : FileEntry × List ℕ). f.0) files

abbrev Small : FileEntry → Type 0
Small f = (f.size ≤ file_cap) × (f.mode < 0x200)

abbrev IsPlainDir : DirEntry → Type 0
IsPlainDir d = d.mode < 0x200

pub record IsWithinLimits (m : Manifest) : Type 0 where
  pub version : m.version ≡ manifest_version
  pub complete : missing_required (map (λ (f : FileEntry). f.path) m.files) ≡ []
  pub dir_modes : All IsPlainDir m.dirs
  pub files : All Small m.files
  pub total : total_size m.files ≤ total_cap

abbrev paths : List FileEntry → List Text
paths fs = map (λ (f : FileEntry). f.path) fs

-- The files at `rels`, where the ones before add up to `total`.
abbrev Within : ℕ → List Text → List FileEntry → Type 0
Within total rels fs = (paths fs ≡ rels) × All Small fs × (total + total_size fs ≤ total_cap)

abbrev Fitting : List ℕ → Type 0
Fitting buf = length buf ≤ file_cap

abbrev Goal : ℕ → List Text → Read × Stamps → Type 0
Goal total rels r = Within total rels (entries r.0)

abbrev IsComplete : Snapshot → Type 0
IsComplete s =
    All IsPlainDir s.dirs
    × All Small (entries s.files)
    × (total_size (entries s.files) ≤ total_cap)
    × (missing_required (paths (entries s.files)) ≡ [])

module _ {W D F : Type 0} (fs : Fs W D F) (codec : Codec) (host : Host W F) where
  read_capped-Gives : (f : F) (what : Text) → Gives Fitting (read_capped fs f what)
  unfolding read_capped
  read_capped-Gives f what = then-Gives Fitting (fs.metadata f) _ λ meta.
      if-Gives Fitting (ltb file_cap meta.len) (fail _) _ (λ big. fail-Gives Fitting _)
        λ small. then-Gives Fitting (fs.read_to f (file_cap + 1)) _ λ buf.
          if-Gives Fitting (ltb file_cap (length buf)) (fail _) (pure buf)
            (λ big. fail-Gives Fitting _) λ fits. pure-Gives Fitting buf (ground (arith, fits))

  read_dirs-Gives :
      (src : D) (rels : List Text) → Gives (All IsPlainDir) (read_dirs fs codec host src rels)
  unfolding read_dirs
  read_dirs-Gives src [] = pure-Gives (All IsPlainDir) [] tt
  read_dirs-Gives src (rel ∷ rels) = then-Gives (All IsPlainDir) (open_dir fs src rel) _ λ d.
      then-Gives (All IsPlainDir) (fs.metadata (fs.handle d)) _ λ meta.
        bind-Gives (All IsPlainDir) (All IsPlainDir) (read_dirs fs codec host src rels) _
          (read_dirs-Gives src rels) λ rest rk. pure-Gives (All IsPlainDir) _ (omega arith, rk)

  read_files-Gives :
      (src : D) (total : ℕ) (before : Stamps) (rels : List Text)
      → total ≤ total_cap
      → Gives (Goal total rels) (read_files fs codec host src total before rels)
  unfolding read_files
  read_files-Gives src total before [] h = pure-Gives (Goal total []) _ (refl, tt, omega (arith, h))
  read_files-Gives src total before (rel ∷ rels) h =
      then-Gives (Goal total (rel ∷ rels)) (open_rel fs src rel) _ λ from.
        then-Gives (Goal total (rel ∷ rels)) (fs.metadata from) _ λ meta.
          bind-Gives Fitting (Goal total (rel ∷ rels)) (read_capped fs from rel) _
            (read_capped-Gives from rel)
            λ buf small.
              let sum : add_u64 total (length buf) ≡ total + length buf = omega (arith, h, small) in
              if-Gives (Goal total (rel ∷ rels)) (ltb total_cap (add_u64 total (length buf)))
                (fail _) _ (λ over. fail-Gives (Goal total (rel ∷ rels)) _)
                λ under.
                  bind-Gives (Goal (add_u64 total (length buf)) rels) (Goal total (rel ∷ rels))
                    (read_files fs codec host src (add_u64 total (length buf))
                      (insert rel (stamp meta) before) rels)
                    _
                    (read_files-Gives src (add_u64 total (length buf)) _ rels
                      (ground (arith, under)))
                    λ rest rk. pure-Gives (Goal total (rel ∷ rels)) _ (
                      ap (λ ps. rel ∷ ps) rk.0,
                      ((small, omega arith), rk.1),
                      omega (arith, sum, rk.2),
                    )

  abbrev Snapped : Snapshot × Stamps → Type 0
  Snapped r = IsComplete r.0

  complete-Gives :
      (src : D) (names : List Text × List Text) (gaps : List Text)
      → missing_required names.1 ≡ gaps
      → Gives Snapped (read_complete fs codec host src names gaps)
  complete-Gives src names (m ∷ ms) none_missing = fail-Gives Snapped _
  complete-Gives src names [] none_missing =
      bind-Gives (All IsPlainDir) Snapped (read_dirs fs codec host src names.0) _
        (read_dirs-Gives src names.0)
        λ dirs plain.
          bind-Gives (Goal 0 names.1) Snapped (read_files fs codec host src 0 [] names.1) _
            (read_files-Gives src 0 [] names.1 (omega arith))
            λ files k.
              pure-Gives Snapped _
                (plain, k.1, omega (arith, k.2), ap missing_required k.0 ∙ none_missing)

  read_once-Gives : (src : D) → Gives Snapped (read_once fs codec host src)
  unfolding read_once
  read_once-Gives src =
      then-Gives Snapped (scan fs src) _
        λ names. complete-Gives src names (missing_required names.1) refl

  read_tries-Gives :
      (n : ℕ) (src : D) (after_read : Io W (Unit {0}))
      → Gives IsComplete (read_tries fs codec host n src after_read)
  unfolding read_tries
  read_tries-Gives zero src after_read = fail-Gives IsComplete _
  read_tries-Gives (suc n) src after_read =
      bind-Gives Snapped IsComplete (read_once fs codec host src) _ (read_once-Gives src) λ got k.
        then-Gives IsComplete after_read _ λ _. then-Gives IsComplete (stamps fs src) _ λ now.
          if-Gives IsComplete (stamps_eq now got.1) (pure got.0) _
            (λ same. pure-Gives IsComplete got.0 k) (λ changed. read_tries-Gives n src after_read)

  read_snapshot-Gives :
      (src : D) (after_read : Io W (Unit {0}))
      → Gives IsComplete (read_snapshot fs codec host src after_read)
  unfolding read_snapshot
  read_snapshot-Gives src after_read = read_tries-Gives 2 src after_read

  under_locks-Gives :
      (src : D) (m : Io W Snapshot)
      → Gives IsComplete m
      → Gives IsComplete (under_locks fs codec host src m)
  under_locks-Gives src m k = then-Gives IsComplete (hold_locks fs codec host src) _ λ locked.
      bind-Gives (OkGives IsComplete) IsComplete (attempt m) _ (attempt-Gives IsComplete m k)
        λ r rk.
          then-Gives IsComplete (release fs codec host locked) _ λ _. lift-Gives IsComplete r rk

  write_capture-Gives :
      (payload : Text) (s : Snapshot) (m : Manifest)
      → Gives (λ r. r.0 ≡ m) (write_capture fs codec host payload s m)
  unfolding write_capture
  write_capture-Gives payload s m = then-Gives Written (open_root fs payload) _ λ out.
      then-Gives Written (fs.mkdir out files_dir) _ λ _.
        then-Gives Written (fs.sub out files_dir) _ λ root.
          then-Gives Written (write_dirs fs codec host root m.dirs) _ λ _.
            then-Gives Written (write_files fs codec host root s.files) _ λ _.
              then-Gives Written (lift (host.to_vec_pretty m)) _ λ raw.
                then-Gives Written (fs.create out manifest_name) _ λ f.
                  then-Gives Written (fs.write_all f raw) _ λ _.
                    then-Gives Written (fs.sync_all f) _ λ _.
                      then-Gives Written (fs.sync_all (fs.handle out)) _
                        λ _. pure-Gives Written (m, raw) refl
    where
      Written : Manifest × List ℕ → Type 0
      Written r = r.0 ≡ m

  -- The manifest that a capture writes is within the limits that a restore checks: it is of the
  -- version that is read, lists every required file, has permission bits alone, and its sizes are
  -- those limits at most, each and in sum.
  pub capture_with-IsWithinLimits :
      (source payload instance_name : Text) (after_read : Io W (Unit {0})) (w : W) {m : Manifest}
      {raw : List ℕ} {w' : W}
      → capture_with fs codec host source payload instance_name after_read w ≡ (ok (m, raw), w')
      → IsWithinLimits m
  unfolding capture_with
  capture_with-IsWithinLimits source payload instance_name after_read w {m} {raw} {w'} =
      then-Gives Limited (open_root fs source) _
        (λ src.
          bind-Gives IsComplete Limited
            (under_locks fs codec host src
              (in_context _ (read_snapshot fs codec host src after_read)))
            _
            (under_locks-Gives src _ (
              in_context-Gives IsComplete _ (read_snapshot fs codec host src after_read)
                (read_snapshot-Gives src after_read)))
            (λ s k.
              let n : Manifest = manifest_of fs codec host source instance_name s in
              weaken-Gives (λ r. r.0 ≡ n) Limited (write_capture fs codec host payload s n)
                (write_capture-Gives payload s n)
                (λ r e. subst IsWithinLimits (sym e) (limits s k))))
        w (m, raw) w'
    where
      Limited : Manifest × List ℕ → Type 0
      Limited r = IsWithinLimits r.0

      limits :
          (s : Snapshot)
          → IsComplete s
          → IsWithinLimits (manifest_of fs codec host source instance_name s)
      limits s k = record {
        version = refl;
        complete = k.3;
        dir_modes = k.0;
        files = k.1;
        total = k.2;
      }

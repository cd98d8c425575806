-- ===== src/Tests/ConfigBackup.antt =====
-- The configuration backup at concrete inputs: one directory, in which a name holds an inode.
pub mod Capture
pub mod Recover
use pbs.Base.{
  ℕ, suc, ◌+◌, Bool, true, false, Option, none, some, List, [], ◌∷◌, ◌++◌, ◌≡◌, ◌≢◌, ◌↔◌, ◌⊎◌, inl,
  inr, refl, arith,
}
use pbs.Base.Tests.{if◌then◌else◌, Bool-cases}
use pbs.Base.Lists.{All, Any}
use pbs.Base.Text.{Text, str, ◌==◌}
use pbs.Base.Text.Equality.{text_eq_iff, text_eq_refl}
use pbs.Base.Int.{pos}
use pbs.Base.Json.{null}
use pbs.Base.Result.{Result, ok, err, with_context}
use pbs.ConfigBackup.{max_depth, check_rel, split_rel, join_rel}
use pbs.ConfigBackup.Paths.{IsComponent, split_rel-Parted}
use pbs.ConfigBackup.Manifest.{FileEntry, Manifest, validate}
use pbs.ConfigBackup.Manifest.Restorable.{IsRestorable, validate_iff}
use pbs.ConfigBackup.Files.{Kind, file, open_dir, read_capped, Fs, Removal, removed, held}
use pbs.ConfigBackup.Files.Quiet.{ReadsQuietly}
use pbs.ConfigBackup.Leftovers.{leftovers_at, leftovers}
use pbs.ConfigBackup.Leftovers.Walk.{leftovers-more}
use pbs.ConfigBackup.Recovery.{Op, rename, install, unlink, rmdir}
use pbs.ConfigBackup.Recovery.Plan.{Finishing, recovery}
use pbs.ConfigBackup.Recovery.Plan.Tagged.{RollsBack, recovery-RollsBack}
use pbs.ConfigBackup.Recovery.Run.{carry_out}
use pbs.ConfigBackup.Recovery.Run.CheckFirst.{Mismatched, Refuses, carry_out-Refuses}
use pbs.ConfigBackup.Verify.{Codec}
use pbs.ConfigBackup.Restore.{SwapMarker, swapping, Staged, Work, temp_name, prev_name}
use pbs.ConfigBackup.Restore.Disk.{
  Disk, Clear, SameBut, LikePosix, needed, Separate, InPlace, IsSaved,
}
use pbs.ConfigBackup.Restore.Disk.Marker.{marker_spots}
use pbs.ConfigBackup.Restore.Swap.{swap}
use pbs.ConfigBackup.Restore.Swap.Undone.{swap-InPlace}

abbrev pub quoted : Text → Text
quoted t = b'"' ∷ (t ++ (b'"' ∷ []))

accepted : check_rel quoted (str "ssl/proxy.pem") ≡ ok tt
unfolding check_rel str
accepted = refl

split_rel-Parted_example :
    let (d, name) = split_rel (str "ssl/proxy.pem") in
    (join_rel d name ≡ str "ssl/proxy.pem")
    × IsComponent name
    × ((d ≡ []) ⊎ (check_rel quoted d ≡ ok tt))
split_rel-Parted_example = split_rel-Parted quoted (str "ssl/proxy.pem") accepted

abbrev pub entry : Text → ℕ → FileEntry
entry path size = record {
  path = path;
  size = size;
  sha256 = str "00";
  mode = 0x1a0;
  uid = 34;
  gid = 34;
}

abbrev captured : Manifest
captured = record {
  version = 1;
  instance_name = str "pbs";
  source = str "/data";
  dirs = record { path = str "ssl"; mode = 0x1c0; uid = 34; gid = 34 } ∷ [];
  files = entry (str "user.cfg") 100 ∷ entry (str "ssl/proxy.pem") 2000 ∷ [];
}

validate_iff_example : (validate quoted (str "m") captured ≡ ok tt) ↔ IsRestorable captured
validate_iff_example = validate_iff quoted (str "m") captured (omega arith)

captured_runs : validate quoted (str "m") captured ≡ ok tt
unfolding validate str
captured_runs = refl

-- The inode at each name.
abbrev pub Names : Type 0
Names = Text → Option ℕ

abbrev with_node : Text → Option ℕ → Names → Names
with_node name node w q = if q == name then node else w q

abbrev renamed_in : Text → Text → Names → Names
renamed_in from to w = with_node to (w from) (with_node from none w)

-- The rename of the temporary file of `b` fails, while it is of that name.
abbrev faulty : Text → Text → Bool
faulty from to = to == str "b"

abbrev found : Option ℕ → Option (Kind × ℕ)
found none = none
found (some ino) = some (file, ino)

abbrev rename_in : Bool → Text → Text → Names → Result (Unit {0}) × Names
rename_in true from to w = (err (str "no space"), w)
rename_in false from to w = (ok tt, renamed_in from to w)

abbrev listed : List Text
listed = str ".a.orca-prev-t" ∷ str ".orca-swap-t" ∷ str "user.cfg" ∷ []

abbrev pub fs : Fs Names (Unit {0}) (Unit {0})
fs = record {
  open_path = λ path w. (ok tt, w);
  handle = λ d. tt;
  try_clone = λ d w. (ok tt, w);
  stat = λ d name w. (ok (found (w name)), w);
  sub = λ d name w. (ok tt, w);
  file = λ d name w. (ok tt, w);
  create = λ d name w. (ok tt, with_node name (some 9) w);
  mkdir = λ d name w. (ok tt, w);
  rename = λ d from to w. rename_in (faulty from to) from to w;
  link = λ d from to w. (ok tt, with_node to (w from) w);
  unlink = λ d name w. (ok removed, with_node name none w);
  rmdir = λ d name w. (ok removed, w);
  names = λ d w. (ok listed, w);
  metadata = λ f w. (
    ok (record {
      len = 1;
      mode = 0x1a0;
      uid = 34;
      gid = 34;
      mtime = pos 0;
      mtime_nsec = pos 0;
      ctime = pos 0;
      ctime_nsec = pos 0;
      ino = 1;
    }),
    w,
  );
  read_to = λ f n w. (ok (7 ∷ []), w);
  write_all = λ f bytes w. (ok tt, w);
  sync_all = λ f w. (ok tt, w);
  set_permissions = λ f mode w. (ok tt, w);
  fchown = λ f uid gid w. (ok tt, w);
  try_lock_shared = λ f w. (ok held, w);
  open_regular = λ path w. (ok tt, w);
  canonicalize = λ path w. (ok path, w);
  parent = λ path. some path;
  path_ends_with = λ path name. true;
  path_starts_with = λ path name. false;
  first_below = λ path root. none;
  debug = quoted;
}

abbrev pub codec : Codec
codec = record {
  manifest_of = λ raw. ok captured;
  manifest_bytes = λ m. ok [];
  value_of = λ raw. ok null;
  map_of = λ t. none;
  sha256_hex = λ raw. str "11";
  from_utf8_lossy = λ raw. raw;
  stage_lock_file = str ".stage.lock";
}

abbrev disk : Disk Names (Unit {0}) Text ℕ
disk = record { spot = λ d name. name; node = λ w name. w name }

differs : (a b : Text) → a ≢ b → (a == b) ≡ false
differs a b h = elim (Bool-cases (a == b)) [
  | inl same ↦ absurd (h ((text_eq_iff a b).0 same))
  | inr other_ ↦ other_
]

rename_in-SameBut :
    (b : Bool) (from to : Text) (w : Names)
    → SameBut fs disk (from ∷ to ∷ []) w (rename_in b from to w).1
rename_in-SameBut true from to w q clear = refl
rename_in-SameBut false from to w q clear = rw (differs q to clear.1.0, differs q from clear.0)

rename_in-renamed :
    (b : Bool) (from to : Text) (w w' : Names)
    → rename_in b from to w ≡ (ok tt, w')
    → w' to ≡ w from
rename_in-renamed true from to w w' h = cc
rename_in-renamed false from to w w' h =
    let same : renamed_in from to w ≡ w' = cc in rw (← same) (rw (text_eq_refl to) refl)

rename_in-failed :
    (b : Bool) (from to e : Text) (w w' : Names)
    → rename_in b from to w ≡ (err e, w')
    → SameBut fs disk [] w w'
rename_in-failed true from to e w w' h q clear = let same : w ≡ w' = cc in rw (← same) refl
rename_in-failed false from to e w w' h q clear = cc

unlinked_in :
    (name : Text) (w w' : Names)
    → ◌≡◌ {A = Result Removal × Names} (ok removed, with_node name none w) (ok removed, w')
    → w' name ≡ none
unlinked_in name w w' h =
    let same : with_node name none w ≡ w' = cc in rw (← same) (rw (text_eq_refl name) refl)

posix : LikePosix fs disk
posix = record {
  creates = λ d name w q clear. rw (differs q name clear.0);
  writes = λ f bytes w q clear. refl;
  syncs = λ f w q clear. refl;
  renames = λ d from to w. rename_in-SameBut (faulty from to) from to w;
  unlinks = λ d name w q clear. rw (differs q name clear.0);
  renamed = λ d from to w w' h. rename_in-renamed (faulty from to) from to w w' h;
  not_renamed = λ d from to e w w' h. rename_in-failed (faulty from to) from to e w w' h;
  unlinked = λ d name w w' h. unlinked_in name w w' h;
}

abbrev staged_file : Text → Option Text → Staged (Unit {0})
staged_file name prev = record {
  dir = tt;
  rel = name;
  name = name;
  tmp = temp_name name (str "t");
  prev = prev;
  displaced = false;
}

-- `a` has an original and `c` has none; `b` cannot be replaced.
abbrev staged_files : List (Staged (Unit {0}))
staged_files =
    staged_file (str "a") (some (prev_name (str "a") (str "t")))
    ∷ staged_file (str "c") none
    ∷ staged_file (str "b") (some (prev_name (str "b") (str "t")))
    ∷ []

abbrev work : Work (Unit {0})
work = record {
  root = tt;
  tag = str "t";
  manifest = captured;
  slot_payload = str "/slot/payload";
  slot_checksum = str "sha256:11";
  owners = true;
  phase = swapping;
  recorded = swapping;
  created = [];
  staged = staged_files;
  marker = some (str ".orca-swap-t");
  failures = [];
  stranded = false;
}

abbrev pub nobody : Names
nobody q = none

abbrev before_swap : Names
before_swap = with_node (str "a") (some 1) (
    with_node (prev_name (str "a") (str "t")) (some 1) (
      with_node (temp_name (str "a") (str "t")) (some 2) (
        with_node (temp_name (str "c") (str "t")) (some 3) (
          with_node (str "b") (some 4) (
            with_node (prev_name (str "b") (str "t")) (some 4)
              (with_node (temp_name (str "b") (str "t")) (some 5) nobody))))))

abbrev swap_run : Result (Unit {0}) × (Work (Unit {0}) × Names)
swap_run = swap fs codec (λ m. ok []) fs.rename (work, before_swap)

abbrev swap_error : Text
swap_error = str "replace b; rolled back: no space"

swap_fails : swap_run ≡ (err swap_error, (swap_run.1.0, swap_run.1.1))
unfolding swap ◌==◌ str with_context
swap_fails = refl

swap_free : swap_run.1.0.stranded ≡ false
unfolding swap ◌==◌ str
swap_free = refl

swap_fine : swap_run.1.0.failures ≡ []
unfolding swap ◌==◌ str
swap_fine = refl

apart_files : Separate disk staged_files
unfolding str
apart_files = ground arith

apart_marker : All (λ t. All (Clear (marker_spots fs disk work)) (needed disk t)) staged_files
unfolding str
apart_marker = ground arith

IsSaved-files : All (IsSaved disk before_swap before_swap) staged_files
unfolding ◌==◌ str
IsSaved-files = (refl, (refl, (refl, tt)))

swap-InPlace_example : All (InPlace disk before_swap swap_run.1.1) staged_files
swap-InPlace_example =
    swap-InPlace fs codec (λ m. ok []) disk posix work before_swap swap_fails swap_free swap_fine
      apart_files apart_marker IsSaved-files

leftovers-more_example : leftovers_at fs (suc (9 + max_depth)) tt [] 0 ≡ leftovers fs tt
leftovers-more_example = leftovers-more fs 9 tt

-- What an interrupted swap of `a` left, and the rollback that is planned of it.
abbrev pub marker_from : List ℕ → Result SwapMarker
marker_from raw = ok (record {
  phase = swapping;
  files = record { path = str "a"; had_prev = true } ∷ [];
  created_dirs = str "ssl" ∷ [];
  owners = true;
  manifest = none;
  slot_payload = none;
  slot_checksum = none;
})

abbrev pub interrupted : Names
interrupted = with_node (str "a") (some 2) (
    with_node (str ".a.orca-prev-t") (some 1)
      (with_node (str ".orca-swap-t") (some 3) (with_node (str "user.cfg") (some 4) nobody)))

abbrev planned : Unit {0} × List Op × Option Finishing
planned = (
  tt,
  rename [] (str ".a.orca-prev-t") (str "a")
      ∷ rmdir [] (str "ssl")
      ∷ unlink [] (str ".orca-swap-t")
      ∷ [],
  none,
)

planned_run :
    recovery fs codec marker_from
      (str "/live")
      (str "pbs")
      (str "/var/lib/docker")
      false
      interrupted
    ≡ (ok planned, interrupted)
unfolding recovery ◌==◌ str
planned_run = refl

recovery-RollsBack_example : RollsBack fs codec marker_from planned
recovery-RollsBack_example =
    recovery-RollsBack fs codec marker_from (str "/live") (str "pbs") (str "/var/lib/docker")
      interrupted planned interrupted planned_run

pub reads : ReadsQuietly fs
reads = record {
  clones = λ d w. refl;
  subs = λ d name w. refl;
  files = λ d name w. refl;
  metas = λ f w. refl;
  reads = λ f n w. refl;
  resolves = λ path w. refl;
  opens = λ path w. refl;
  opens_regular = λ path w. refl;
  stats = λ d name w. refl;
  lists = λ d w. refl;
}

-- The staged bytes hash to something else than the manifest has.
abbrev steps : List Op
steps =
    unlink [] (str ".x.orca-prev-t")
    ∷ install [] (str ".a.orca-restore-t") (str ".a.orca-restore-t.install") (str "a")
        (entry (str "a") 1) true
    ∷ []

mismatch : Any (Mismatched fs codec marker_from tt interrupted) steps
unfolding open_dir read_capped ◌==◌ str
mismatch = inr (inl (tt, tt, 7 ∷ [], refl, refl, refl, refl))

carry_out-Refuses_example :
    Refuses fs codec marker_from
      (carry_out fs codec marker_from (str "/live") none (tt, steps, none) interrupted)
      interrupted
carry_out-Refuses_example =
    carry_out-Refuses fs codec marker_from reads (str "/live") none tt steps none interrupted
      mismatch

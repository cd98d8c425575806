-- ===== src/Tests/ConfigBackup/Capture.antt =====
-- A capture of a directory that holds the required files and a lock file.
use pbs.Base.{ℕ, some, List, [], ◌∷◌, ◌≡◌, refl}
use pbs.Base.Text.{Text, str}
use pbs.Base.Result.{Result, ok, pure}
use pbs.ConfigBackup.{required}
use pbs.ConfigBackup.Files.{file, Fs}
use pbs.ConfigBackup.Manifest.{FileEntry, Manifest}
use pbs.ConfigBackup.Capture.{Host, capture_with}
use pbs.ConfigBackup.Capture.Fits.{IsWithinLimits, capture_with-IsWithinLimits}
use pbs.Tests.ConfigBackup.{fs, codec, Names, nobody}

abbrev config_fs : Fs Names (Unit {0}) (Unit {0})
config_fs = record fs {
  names = λ d w. (ok (str ".user.lck" ∷ required), w);
  stat = λ d name w. (ok (some (file, 1)), w);
}

abbrev host : Host Names (Unit {0})
host = record { close = λ f w. (ok tt, w); sleep = λ ms w. (ok tt, w); to_vec_pretty = λ m. ok [] }

abbrev written : Result (Manifest × List ℕ) × Names
written = capture_with config_fs codec host (str "/etc") (str "/p") (str "pbs") (pure tt) nobody

abbrev one_file : Text → FileEntry
one_file path = record {
  path = path;
  size = 1;
  sha256 = str "11";
  mode = 0x1a0;
  uid = 34;
  gid = 34;
}

-- The files in the order of their names, without the lock file
abbrev listed : Manifest
listed = record {
  version = 1;
  instance_name = str "pbs";
  source = str "/etc";
  dirs = [];
  files =
      one_file (str "acl.cfg")
      ∷ one_file (str "authkey.key")
      ∷ one_file (str "authkey.pub")
      ∷ one_file (str "proxy.key")
      ∷ one_file (str "proxy.pem")
      ∷ one_file (str "user.cfg")
      ∷ [];
}

written_ok : written ≡ (ok (listed, []), written.1)
unfolding capture_with str
written_ok = refl

capture_with-IsWithinLimits_example : IsWithinLimits listed
capture_with-IsWithinLimits_example =
    capture_with-IsWithinLimits config_fs codec host (str "/etc") (str "/p") (str "pbs") (pure tt)
      nobody written_ok

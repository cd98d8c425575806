-- ===== src/ConfigBackup/Restore/Disk.antt =====
-- What stands where on the disk, and what the calls of the swap do to it.
pub mod Marker
use pbs.Base.{ℕ, Option, none, some, List, [], ◌∷◌, ◌++◌, ◌≡◌, ◌≢◌, refl, ap, ◌∙◌}
use pbs.Base.Lists.{All}
use pbs.Base.Text.{Text, str}
use pbs.Base.Result.{Result, ok, err, panic}
use pbs.ConfigBackup.Files.{Fs, removed}
use pbs.ConfigBackup.Restore.{Staged}

-- A name in a directory is a spot `S`, and a file, by its inode, a node `N`. Two handles may be of
-- one directory.
pub record Disk (W D S N : Type 0) : Type 0 where
  pub spot : D → Text → S
  pub node : W → S → Option N

abbrev pub Clear : {S : Type 0} → List S → S → Type 0
Clear ps q = All (λ p. q ≢ p) ps

module _ {W D F S N : Type 0} (fs : Fs W D F) (disk : Disk W D S N) where
  -- Nothing but what stands at these spots is another.
  abbrev pub SameBut : List S → W → W → Type 0
  SameBut ps w w' = (q : S) → Clear ps q → disk.node w' q ≡ disk.node w q

  -- As POSIX has the calls: a call concerns its own names alone, whatever its result; a rename that
  -- succeeds puts the file at the new name, and one that fails changes nothing; what was unlinked is
  -- gone.
  pub record LikePosix : Type 0 where
    pub creates :
        (d : D) (name : Text) (w : W) → SameBut (disk.spot d name ∷ []) w (fs.create d name w).1
    pub writes : (f : F) (bytes : List ℕ) (w : W) → SameBut [] w (fs.write_all f bytes w).1
    pub syncs : (f : F) (w : W) → SameBut [] w (fs.sync_all f w).1
    pub renames :
        (d : D) (from to : Text) (w : W)
        → SameBut (disk.spot d from ∷ disk.spot d to ∷ []) w (fs.rename d from to w).1
    pub unlinks :
        (d : D) (name : Text) (w : W) → SameBut (disk.spot d name ∷ []) w (fs.unlink d name w).1
    pub renamed :
        (d : D) (from to : Text) (w w' : W)
        → fs.rename d from to w ≡ (ok tt, w')
        → disk.node w' (disk.spot d to) ≡ disk.node w (disk.spot d from)
    pub not_renamed :
        (d : D) (from to e : Text) (w w' : W)
        → fs.rename d from to w ≡ (err e, w')
        → SameBut [] w w'
    pub unlinked :
        (d : D) (name : Text) (w w' : W)
        → fs.unlink d name w ≡ (ok removed, w')
        → disk.node w' (disk.spot d name) ≡ none

-- The spots of a staged file: its own, that of its temporary file, and that of its original.
module _ {W D S N : Type 0} (disk : Disk W D S N) where
  abbrev pub aside : Staged D → Option Text → List S
  aside s none = []
  aside s (some prev) = disk.spot s.dir prev ∷ []

  abbrev pub own : Staged D → List S
  own s = disk.spot s.dir s.name ∷ disk.spot s.dir s.tmp ∷ aside s s.prev

  -- What a rollback needs of a staged file: its place, and that of its original.
  abbrev pub needed : Staged D → List S
  needed s = disk.spot s.dir s.name ∷ aside s s.prev

  abbrev pub AwayFrom : Staged D → Staged D → Type 0
  AwayFrom s t = All (Clear (own s)) (needed t)

  -- Staged files whose spots do not meet, and each of which has its original at a spot of its own.
  abbrev pub Separate : List (Staged D) → Type 0
  Separate [] = Unit
  Separate (s ∷ ss) =
      All (λ t. AwayFrom s t × AwayFrom t s) ss
      × All (Clear (disk.spot s.dir s.name ∷ disk.spot s.dir s.tmp ∷ [])) (aside s s.prev)
      × Separate ss

  -- In the world `w0` this stood at the place of a staged file.
  abbrev pub original : W → Staged D → Option N
  original w0 s = disk.node w0 (disk.spot s.dir s.name)

  abbrev pub InPlace : W → W → Staged D → Type 0
  InPlace w0 w s = disk.node w (disk.spot s.dir s.name) ≡ original w0 s

  -- The original is at its spot aside; where there is none, there was none.
  abbrev pub HasSaved : W → W → Staged D → Option Text → Type 0
  HasSaved w0 w s none = original w0 s ≡ none
  HasSaved w0 w s (some prev) = disk.node w (disk.spot s.dir prev) ≡ original w0 s

  abbrev pub IsSaved : W → W → Staged D → Type 0
  IsSaved w0 w s = HasSaved w0 w s s.prev

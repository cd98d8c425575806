-- ===== src/ConfigBackup/Restore/Disk/Marker.antt =====
-- Writing the marker concerns the two names of the marker alone.
use pbs.Base.{ℕ, List, [], ◌∷◌, ◌++◌, ◌≡◌, refl, subst, ◌∙◌}
use pbs.Base.Text.{Text}
use pbs.Base.Result.{Result, ok, err, panic, Io, continue, bind, lift, fail}
use pbs.Base.Action.{◌>>=◌, ◌>>◌, outcome, attempt}
use pbs.ConfigBackup.Files.{Fs, discard}
use pbs.ConfigBackup.Verify.{Codec}
use pbs.ConfigBackup.Restore.{
  SwapMarker, Work, Job, swap_mark, next_suffix, marker_of, on_disk, marker_written, write_marker,
}
use pbs.ConfigBackup.Restore.Disk.{Disk, SameBut, LikePosix}

module _ {W D F S N : Type 0} (fs : Fs W D F) (disk : Disk W D S N) where
  abbrev pub marker_spots : Work D → List S
  marker_spots k =
      disk.spot k.root (swap_mark ++ k.tag)
      ∷ disk.spot k.root ((swap_mark ++ k.tag) ++ next_suffix)
      ∷ []

  -- An action that changes nothing but these spots.
  abbrev Stays : {A : Type 0} → List S → Io W A → Type 0
  Stays ps m = (w : W) → SameBut fs disk ps w (m w).1

  continue-Stays :
      {A B : Type 0} (ps : List S) (w : W) (p : Result A × W) (f : A → Io W B)
      → SameBut fs disk ps w p.1
      → ((a : A) → Stays ps (f a))
      → SameBut fs disk ps w (continue p f).1
  continue-Stays ps w (ok a, v) f h k q clear = k a v q clear ∙ h q clear
  continue-Stays ps w (err e, v) f h k q clear = h q clear
  continue-Stays ps w (panic, v) f h k q clear = h q clear

  bind-Stays :
      {A B : Type 0} (ps : List S) (m : Io W A) (f : A → Io W B)
      → Stays ps m
      → ((a : A) → Stays ps (f a))
      → Stays ps (bind m f)
  bind-Stays ps m f h k w = continue-Stays ps w (m w) f (h w) k

  -- The same of a method, which keeps the root.
  abbrev Keeps : {A : Type 0} → List S → D → Job W D A → Type 0
  Keeps ps d m =
      (k : Work D) (w : W)
      → k.root ≡ d
      → SameBut fs disk ps w (m (k, w)).1.1 × ((m (k, w)).1.0.root ≡ d)

  continue-Keeps :
      {A B : Type 0} (ps : List S) (d : D) (w : W) (p : Result A × (Work D × W)) (f : A → Job W D B)
      → SameBut fs disk ps w p.1.1 × (p.1.0.root ≡ d)
      → ((a : A) → Keeps ps d (f a))
      → SameBut fs disk ps w (continue p f).1.1 × ((continue p f).1.0.root ≡ d)
  continue-Keeps ps d w (ok a, (k, v)) f h g =
      let (same, root) = g a k v h.1 in ((λ q clear. same q clear ∙ h.0 q clear), root)
  continue-Keeps ps d w (err e, (k, v)) f h g = h
  continue-Keeps ps d w (panic, (k, v)) f h g = h

  bind-Keeps :
      {A B : Type 0} (ps : List S) (d : D) (m : Job W D A) (f : A → Job W D B)
      → Keeps ps d m
      → ((a : A) → Keeps ps d (f a))
      → Keeps ps d (bind m f)
  bind-Keeps ps d m f h g k w e = continue-Keeps ps d w (m (k, w)) f (h k w e) g

  outcome-Keeps :
      {A : Type 0} (ps : List S) (d : D) (w : W) (p : Result A × W) (k : Work D)
      → SameBut fs disk ps w p.1
      → k.root ≡ d
      → SameBut fs disk ps w (outcome {W = Work D × W} (p.0, (k, p.1))).1.1
        × ((outcome {W = Work D × W} (p.0, (k, p.1))).1.0.root ≡ d)
  outcome-Keeps ps d w (ok a, v) k h e = (h, e)
  outcome-Keeps ps d w (err m, v) k h e = (h, e)
  outcome-Keeps ps d w (panic, v) k h e = (h, e)

  on_disk-Keeps :
      {A : Type 0} (ps : List S) (d : D) (m : Io W A) → Stays ps m → Keeps ps d (on_disk m)
  on_disk-Keeps ps d m h k w e = (h w, e)

  attempt-Keeps :
      {A : Type 0} (ps : List S) (d : D) (m : Io W A)
      → Stays ps m
      → Keeps ps d (attempt (on_disk m))
  attempt-Keeps ps d m h k w e = outcome-Keeps ps d w (m w) k (h w) e

  module _ (codec : Codec) (marker_bytes : SwapMarker → Result (List ℕ))
      (posix : LikePosix fs disk) where
    abbrev spots : D → Text → List S
    spots d name = disk.spot d name ∷ disk.spot d (name ++ next_suffix) ∷ []

    discard-Stays :
        (d : D) (name : Text) → Stays (spots d name) (discard fs d (name ++ next_suffix))
    unfolding discard
    discard-Stays d name =
        bind-Stays (spots d name) (fs.unlink d (name ++ next_suffix)) _
          (λ w q clear. posix.unlinks d (name ++ next_suffix) w q clear.1) (λ r w q clear. refl)

    written-Stays :
        (d : D) (name : Text) (f : F) (raw : List ℕ)
        → Stays
            (spots d name)
            (fs.write_all f raw >> fs.sync_all f >> fs.rename d (name ++ next_suffix) name)
    written-Stays d name f raw =
        bind-Stays (spots d name) (fs.write_all f raw >> fs.sync_all f) _
          (bind-Stays (spots d name) (fs.write_all f raw) _ (λ w q clear. posix.writes f raw w q tt)
            (λ _ w q clear. posix.syncs f w q tt))
          (λ _ w q clear. posix.renames d (name ++ next_suffix) name w q (clear.1.0, (clear.0, tt)))

    abbrev failed_write : D → Text → Text → Job W D (Unit {0})
    failed_write d name m = do r ← attempt (on_disk (discard fs d (name ++ next_suffix))); fail m

    marker_written-Keeps :
        (d : D) (name : Text) (r : Result (Unit {0}))
        → Keeps (spots d name) d (marker_written fs codec marker_bytes name (name ++ next_suffix) r)
    marker_written-Keeps d name (ok u) k w e =
        ((λ q clear. posix.syncs (fs.handle k.root) w q tt), e)
    marker_written-Keeps d name (err m) k w e =
        subst
          (λ x.
            SameBut fs disk (spots x name) w (failed_write k.root name m (k, w)).1.1
            × ((failed_write k.root name m (k, w)).1.0.root ≡ x))
          e
          (bind-Keeps (spots k.root name) k.root
            (attempt (on_disk (discard fs k.root (name ++ next_suffix)))) _
            (attempt-Keeps (spots k.root name) k.root (discard fs k.root (name ++ next_suffix))
              (discard-Stays k.root name))
            (λ r j v same. ((λ q clear. refl), same)) k w refl)
    marker_written-Keeps d name panic k w e = ((λ q clear. refl), e)

    pub write_marker-SameBut :
        (k : Work D) (w : W)
        → SameBut fs disk (marker_spots k) w (write_marker fs codec marker_bytes (k, w)).1.1
    unfolding write_marker
    write_marker-SameBut k w =
        let name : Text = swap_mark ++ k.tag in
        let next : Text = name ++ next_suffix in
        (bind-Keeps (marker_spots k) k.root (lift (marker_bytes (marker_of k))) _
          (λ j v e. ((λ q clear. refl), e))
          (λ raw.
            bind-Keeps (marker_spots k) k.root (on_disk (fs.create k.root next)) _
              (on_disk-Keeps (marker_spots k) k.root (fs.create k.root next)
                (λ v q clear. posix.creates k.root next v q clear.1))
              (λ f.
                bind-Keeps (marker_spots k) k.root
                  (attempt
                    (on_disk (fs.write_all f raw >> fs.sync_all f >> fs.rename k.root next name)))
                  _
                  (attempt-Keeps (marker_spots k) k.root
                    (fs.write_all f raw >> fs.sync_all f >> fs.rename k.root next name)
                    (written-Stays k.root name f raw))
                  (marker_written-Keeps k.root name)))
          k w refl).0

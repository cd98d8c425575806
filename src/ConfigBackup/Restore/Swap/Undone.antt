-- ===== src/ConfigBackup/Restore/Swap/Undone.antt =====
-- A swap that fails leaves every file in its place.
use pbs.Base.{
  ℕ, true, false, Option, none, some, List, [], ◌∷◌, ◌++◌, append_assoc, ◌≡◌, inl, inr, refl, sym,
  ap, subst, ◌∙◌,
}
use pbs.Base.Lists.{All, All_mono, All-append, All-both, All-left, All-right}
use pbs.Base.Text.{Text}
use pbs.Base.Result.{Result, ok, err, panic, continue, continue-eq-err}
use pbs.Base.Action.{outcome}
use pbs.ConfigBackup.Files.{Fs}
use pbs.ConfigBackup.Verify.{Codec}
use pbs.ConfigBackup.Restore.{SwapMarker, rolling_back, Staged, Work, Job, write_marker}
use pbs.ConfigBackup.Restore.Disk.{
  Disk, Clear, SameBut, LikePosix, aside, own, needed, AwayFrom, Separate, InPlace, HasSaved,
  IsSaved,
}
use pbs.ConfigBackup.Restore.Disk.Marker.{marker_spots, write_marker-SameBut}
use pbs.ConfigBackup.Restore.Swap.{
  put_back, put_back_one, put_back_by, put_back_ended, recorded_rollback, replace_failed,
  renamed_or, swap_each, swap,
}
use pbs.ConfigBackup.Restore.Swap.Rollback.{InPlace-kept, HasSaved-kept, put_back_lem}
use pbs.ConfigBackup.Restore.Swap.Apart.{
  Apart, All-marked, Separate-marked, Separate-left, Separate-right, Separate-cross,
}

module _ {W D F S N : Type 0} (fs : Fs W D F) (codec : Codec)
    (marker_bytes : SwapMarker → Result (List ℕ)) (disk : Disk W D S N) (posix : LikePosix fs disk)
    (w0 : W) where
  -- Putting back never fails: what fails is put on record.
  ended-ne-err :
      (s : Staged D) (k : Work D) (p : Result (Unit {0}) × W) {e : Text} {st : Work D × W}
      → ¬ (
          continue (outcome (p.0, (k, p.1))) (put_back_ended fs codec marker_bytes fs.rename s)
          ≡ (err e, st))
  ended-ne-err s k (ok u, v) h = cc
  ended-ne-err s k (err m, v) h = cc
  ended-ne-err s k (panic, v) h = cc

  put_back-ne-err :
      (ss : List (Staged D)) (k : Work D) (w : W) {e : Text} {st : Work D × W}
      → ¬ (put_back fs codec marker_bytes fs.rename ss (k, w) ≡ (err e, st))
  unfolding put_back
  put_back-ne-err [] k w h = cc
  put_back-ne-err (s ∷ ss) k w h =
      elim (continue-eq-err (put_back fs codec marker_bytes fs.rename ss (k, w)) _ h) [
        | inl early ↦ put_back-ne-err ss k w early
        | inr (rest, (k1, w1), first, more) ↦
            elim (continue-eq-err (put_back_one fs codec marker_bytes fs.rename s (k1, w1)) _
              more) [
                | inl mine ↦
                    ended-ne-err s k1 (put_back_by fs codec marker_bytes fs.rename s s.prev w1) mine
                | inr (s', st', one, last) ↦ cc last
              ]
      ]

  -- The rest of the run after a rename failed, by how the rollback was put on record.
  module _ (before : List (Staged D)) (s : Staged D) (after : List (Staged D)) (m : Text)
      (separate : Separate disk (before ++ s ∷ after)) where
    recorded-InPlace :
        (w : W) (q : Result (Unit {0}) × (Work D × W)) {e : Text} {k' : Work D} {w' : W}
        → continue (outcome q) (recorded_rollback fs codec marker_bytes fs.rename before s after m)
          ≡ (err e, (k', w'))
        → k'.stranded ≡ false
        → k'.failures ≡ []
        → All (IsSaved disk w0 q.1.1) before
        → All (InPlace disk w0 q.1.1) (s ∷ after)
        → All (InPlace disk w0 w') before × All (InPlace disk w0 w') (s ∷ after)
    recorded-InPlace w (ok u, (k, v)) {k' = k'} {w' = w'} h free fine saved there =
        elim (continue-eq-err (put_back fs codec marker_bytes fs.rename before (k, v)) _ h) [
          | inl failed ↦ absurd (put_back-ne-err before k v failed)
          | inr (ss', (k1, v1), back, rest) ↦
              let none_failed : k1.failures ≡ k'.failures =
                ap (λ (r : Result (Unit {0}) × (Work D × W)). r.1.0.failures) rest in
              let same : v1 ≡ w' = ap (λ (r : Result (Unit {0}) × (Work D × W)). r.1.1) rest in
              let (none_before, placed, kept) =
                put_back_lem fs codec marker_bytes disk posix w0 before ss' k k1 v v1 back
                  (none_failed ∙ fine) (Separate-left disk before (s ∷ after) separate) saved in
              subst (λ x. All (InPlace disk w0 x) before × All (InPlace disk w0 x) (s ∷ after)) same
                (
                  placed,
                  All-both (λ t. All (λ b. Apart disk b t) before) (InPlace disk w0 v)
                      (InPlace disk w0 v1) (s ∷ after)
                      (λ t away h'.
                        kept _ (
                          All_mono (λ b. Apart disk b t)
                            (λ b. Clear (own disk b) (disk.spot t.dir t.name)) before (λ b a. a.0.0)
                            away)
                        ∙ h')
                      (Separate-cross disk before (s ∷ after) separate) there,
                )
        ]
    recorded-InPlace w (err x, (k, v)) h free fine saved there =
        let stuck : true ≡ false =
          ap (λ (r : Result (Unit {0}) × (Work D × W)). r.1.0.stranded) h ∙ free in
        absurd (cc stuck)
    recorded-InPlace w (panic, (k, v)) h free fine saved there = cc

    replace_failed-InPlace :
        (k : Work D) (w : W) {e : Text} {k' : Work D} {w' : W}
        → replace_failed fs codec marker_bytes fs.rename before s after m (k, w) ≡ (err e, (k', w'))
        → k'.stranded ≡ false
        → k'.failures ≡ []
        → All (λ t. All (Clear (marker_spots fs disk k)) (needed disk t)) (before ++ s ∷ after)
        → All (IsSaved disk w0 w) before
        → All (InPlace disk w0 w) (s ∷ after)
        → All (InPlace disk w0 w') before × All (InPlace disk w0 w') (s ∷ after)
    replace_failed-InPlace k w h free fine clear saved there =
        let k1 : Work D = record k { phase = rolling_back } in
        let ps : List S = marker_spots fs disk k1 in
        let q : Result (Unit {0}) × (Work D × W) = write_marker fs codec marker_bytes (k1, w) in
        let same = write_marker-SameBut fs disk codec marker_bytes posix k1 w in
        recorded-InPlace w q h free fine
          (All-both (λ t. All (Clear ps) (needed disk t)) (IsSaved disk w0 w)
            (IsSaved disk w0 q.1.1) before
            (λ t c s'.
              HasSaved-kept fs codec marker_bytes disk posix w0 ps w q.1.1 t t.prev same c.1 s')
            (All-left _ before (s ∷ after) clear) saved)
          (All-both (λ t. All (Clear ps) (needed disk t)) (InPlace disk w0 w)
            (InPlace disk w0 q.1.1) (s ∷ after)
            (λ t c p. InPlace-kept fs codec marker_bytes disk posix w0 ps w q.1.1 t same c p)
            (All-right _ before (s ∷ after) clear) there)

  -- A file is saved and in its place, before it is replaced.
  abbrev IsWhole : W → Staged D → Type 0
  IsWhole w t = IsSaved disk w0 w t × InPlace disk w0 w t

  abbrev Restores : List (Staged D) → List (Staged D) → W → Type 0
  Restores before after w' = All (InPlace disk w0 w') before × All (InPlace disk w0 w') after

  -- What the swap is to be given.
  record Ready (k : Work D) (w : W) (before after : List (Staged D)) : Type 0 where
    separate : Separate disk (before ++ after)
    clear : All (λ t. All (Clear (marker_spots fs disk k)) (needed disk t)) (before ++ after)
    saved : All (IsSaved disk w0 w) before
    whole : All (IsWhole w) after

  -- What is away from all of a file is away from the two spots of a rename.
  swapped :
      (s : Staged D) (prev : Option Text) (t : Staged D)
      → All (Clear (own disk s)) (aside disk t prev)
      → All (Clear (disk.spot s.dir s.tmp ∷ disk.spot s.dir s.name ∷ [])) (aside disk t prev)
  swapped s prev t h = All_mono _ _ (aside disk t prev) (λ q c. (c.1.0, (c.0, tt))) h

  own_two :
      (s t : Staged D)
      → AwayFrom disk s t
      → All (Clear (disk.spot s.dir s.tmp ∷ disk.spot s.dir s.name ∷ [])) (needed disk t)
  own_two s t h = All_mono _ _ (needed disk t) (λ q c. (c.1.0, (c.0, tt))) h

  -- Replacing `s` leaves the other files as they are, and the original of `s`.
  replaced-Ready :
      (k : Work D) (w w1 : W) (before : List (Staged D)) (s : Staged D) (after : List (Staged D))
      → Ready k w before (s ∷ after)
      → SameBut fs disk (disk.spot s.dir s.tmp ∷ disk.spot s.dir s.name ∷ []) w w1
      → let s' : Staged D = record s { displaced = true } in
        Ready (record k { staged = before ++ s' ∷ after }) w1 (before ++ s' ∷ []) after
  replaced-Ready k w w1 before s after ready same =
      let s' : Staged D = record s { displaced = true } in
      let one : (before ++ s' ∷ []) ++ after ≡ before ++ s' ∷ after =
        append_assoc before (s' ∷ []) after in
      let ps : List S = disk.spot s.dir s.tmp ∷ disk.spot s.dir s.name ∷ [] in
      let rest = Separate-right disk before (s ∷ after) ready.separate in
      record {
        separate =
            subst (Separate disk) (sym one)
              (Separate-marked disk before after s true ready.separate);
        clear = subst (All (λ t. All (Clear (marker_spots fs disk k)) (needed disk t))) (sym one) (
            All-marked disk (λ t. All (Clear (marker_spots fs disk k)) (needed disk t)) before after
              s s' (λ c. c) ready.clear);
        saved =
            All-append (IsSaved disk w0 w1) before (s' ∷ [])
              (All-both (λ t. Apart disk t s) (IsSaved disk w0 w) (IsSaved disk w0 w1) before
                (λ t a h.
                  HasSaved-kept fs codec marker_bytes disk posix w0 ps w w1 t t.prev same
                    (swapped s t.prev t a.1.1) h)
                (Separate-cross disk before (s ∷ after) ready.separate).0 ready.saved)
              (
                HasSaved-kept fs codec marker_bytes disk posix w0 ps w w1 s s.prev same
                    (All_mono _ (Clear ps) (aside disk s s.prev) (λ q c. (c.1.0, (c.0, tt))) rest.1)
                    ready.whole.0.0,
                tt,
              );
        whole =
            All-both (Apart disk s) (IsWhole w) (IsWhole w1) after
              (λ t a h. (
                HasSaved-kept fs codec marker_bytes disk posix w0 ps w w1 t t.prev same
                    (swapped s t.prev t a.0.1) h.0,
                InPlace-kept fs codec marker_bytes disk posix w0 ps w w1 t same (own_two s t a.0)
                    h.1,
              ))
              rest.0 ready.whole.1;
      }

  kept_all :
      (t : Staged D) (prev : Option Text) (w w1 : W)
      → ((q : S) → disk.node w1 q ≡ disk.node w q)
      → HasSaved disk w0 w t prev
      → HasSaved disk w0 w1 t prev
  kept_all t none w w1 still h = h
  kept_all t (some prev) w w1 still h = still _ ∙ h

  -- What the recursive call gives is that of the shorter list.
  shifted :
      (before : List (Staged D)) (s : Staged D) (after : List (Staged D)) (w' : W)
      → Restores (before ++ record s { displaced = true } ∷ []) after w'
      → Restores before (s ∷ after) w'
  shifted before s after w' (left, right) = (
    All-left (InPlace disk w0 w') before _ left,
    ((All-right (InPlace disk w0 w') before (record s { displaced = true } ∷ []) left).0, right),
  )

  IsWhole-InPlace : (w : W) (ss : List (Staged D)) → All (IsWhole w) ss → All (InPlace disk w0 w) ss
  IsWhole-InPlace w ss h = All_mono (IsWhole w) (InPlace disk w0 w) ss (λ t x. x.1) h

  rename-Restores :
      (before : List (Staged D)) (s : Staged D) (after : List (Staged D)) (k : Work D) (w : W)
      (go : Job W D (Unit {0})) (p : Result (Unit {0}) × W) {e : Text} {k' : Work D} {w' : W}
      → fs.rename s.dir s.tmp s.name w ≡ p
      → ((w1 : W)
          → SameBut fs disk (disk.spot s.dir s.tmp ∷ disk.spot s.dir s.name ∷ []) w w1
          → go (k, w1) ≡ (err e, (k', w'))
          → Restores before (s ∷ after) w')
      → continue
          (outcome (p.0, (k, p.1)))
          (renamed_or fs codec marker_bytes fs.rename before s after go)
        ≡ (err e, (k', w'))
      → k'.stranded ≡ false
      → k'.failures ≡ []
      → Ready k w before (s ∷ after)
      → Restores before (s ∷ after) w'
  rename-Restores before s after k w go (ok u, w1) pe ih h free fine ready =
      ih w1
        (subst (SameBut fs disk (disk.spot s.dir s.tmp ∷ disk.spot s.dir s.name ∷ []) w)
          (ap (λ (r : Result (Unit {0}) × W). r.1) pe) (posix.renames s.dir s.tmp s.name w))
        h
  rename-Restores before s after k w go (err m, w1) pe ih h free fine ready =
      let same : SameBut fs disk [] w w1 = posix.not_renamed s.dir s.tmp s.name m w w1 pe in
      let still : (q : S) → disk.node w1 q ≡ disk.node w q = λ q. same q tt in
      replace_failed-InPlace before s after m ready.separate k w1 h free fine ready.clear
        (All_mono (IsSaved disk w0 w) (IsSaved disk w0 w1) before
          (λ t x. kept_all t t.prev w w1 still x) ready.saved)
        (All_mono (IsWhole w) (InPlace disk w0 w1) (s ∷ after) (λ t x. still _ ∙ x.1) ready.whole)
  rename-Restores before s after k w go (panic, w1) pe ih h free fine ready = absurd (cc h)

  swap_each-Restores :
      (before after : List (Staged D)) (k : Work D) (w : W) {e : Text} {k' : Work D} {w' : W}
      → swap_each fs codec marker_bytes fs.rename before after (k, w) ≡ (err e, (k', w'))
      → k'.stranded ≡ false
      → k'.failures ≡ []
      → Ready k w before after
      → Restores before after w'
  unfolding swap_each
  swap_each-Restores before [] k w h free fine ready = absurd (cc h)
  swap_each-Restores before (s ∷ after) k w {w' = w'} h free fine ready =
      let s' : Staged D = record s { displaced = true } in
      rename-Restores before s after k w _ (fs.rename s.dir s.tmp s.name w) refl
        (λ w1 same go. shifted before s after w' (
          swap_each-Restores (before ++ s' ∷ []) after (record k { staged = before ++ s' ∷ after })
            w1 go free fine (replaced-Ready k w w1 before s after ready same)))
        h free fine ready

-- If a swap fails, and neither the rollback could not be recorded nor a file not be put back, then the
-- file at each staged name is the one that was there before, where the operating system keeps to
-- POSIX, the spots of the staged files and of the marker do not meet, and the originals were linked
-- aside.
pub swap-InPlace :
    {W D F S N : Type 0} (fs : Fs W D F) (codec : Codec)
    (marker_bytes : SwapMarker → Result (List ℕ)) (disk : Disk W D S N)
    → LikePosix fs disk
    → (k : Work D) (w : W) {e : Text} {k' : Work D} {w' : W}
    → swap fs codec marker_bytes fs.rename (k, w) ≡ (err e, (k', w'))
    → k'.stranded ≡ false
    → k'.failures ≡ []
    → Separate disk k.staged
    → All (λ t. All (Clear (marker_spots fs disk k)) (needed disk t)) k.staged
    → All (IsSaved disk w w) k.staged
    → All (InPlace disk w w') k.staged
unfolding swap
swap-InPlace {D = D} fs codec marker_bytes disk posix k w h free fine separate clear saved =
    (swap_each-Restores fs codec marker_bytes disk posix w [] k.staged k w h free fine (record {
      separate = separate;
      clear = clear;
      saved = tt;
      whole =
          All_mono (IsSaved disk w w) (λ t. IsSaved disk w w t × InPlace disk w w t) k.staged
            (λ t x. (x, refl)) saved;
    })).1

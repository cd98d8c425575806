-- ===== src/ConfigBackup/Restore/Swap/Rollback.antt =====
-- Putting the replaced files back.
use pbs.Base.{ℕ, Option, none, some, List, [], ◌∷◌, ◌++◌, ◌≡◌, ◌≢◌, sym, ap, subst, ◌∙◌}
use pbs.Base.Lists.{All, All_mono, All-both}
use pbs.Base.Text.{Text}
use pbs.Base.Result.{Result, ok, err, panic, continue, lift, continue-eq-ok}
use pbs.Base.Action.{outcome}
use pbs.ConfigBackup.Files.{Fs, Removal, removed, not_found, must, unlink}
use pbs.ConfigBackup.Verify.{Codec}
use pbs.ConfigBackup.Restore.{SwapMarker, Staged, Work}
use pbs.ConfigBackup.Restore.Disk.{
  Disk, Clear, SameBut, LikePosix, aside, own, needed, AwayFrom, Separate, InPlace, HasSaved,
  IsSaved,
}
use pbs.ConfigBackup.Restore.Swap.{
  back_message, put_back, put_back_one, put_back_by, put_back_ended,
}

module _ {W D F S N : Type 0} (fs : Fs W D F) (codec : Codec)
    (marker_bytes : SwapMarker → Result (List ℕ)) (disk : Disk W D S N) (posix : LikePosix fs disk)
    (w0 : W) where
  -- What a step leaves alone.
  pub InPlace-kept :
      (ps : List S) (w w' : W) (t : Staged D)
      → SameBut fs disk ps w w'
      → All (Clear ps) (needed disk t)
      → InPlace disk w0 w t
      → InPlace disk w0 w' t
  InPlace-kept ps w w' t same clear h = same _ clear.0 ∙ h

  pub HasSaved-kept :
      (ps : List S) (w w' : W) (t : Staged D) (prev : Option Text)
      → SameBut fs disk ps w w'
      → All (Clear ps) (aside disk t prev)
      → HasSaved disk w0 w t prev
      → HasSaved disk w0 w' t prev
  HasSaved-kept ps w w' t none same clear h = h
  HasSaved-kept ps w w' t (some prev) same clear h = same _ clear.0 ∙ h

  -- One file is put back, unless that is on record as a failure.
  abbrev PutBack : Staged D → Work D → W → Work D → W → Type 0
  PutBack s k w k' w' =
      (k.failures ≡ [])
      × (IsSaved disk w0 w s → InPlace disk w0 w' s)
      × SameBut fs disk (own disk s) w w'

  append-ne-nil : (xs : List Text) (x : Text) → xs ++ x ∷ [] ≢ []
  append-ne-nil [] x h = cc
  append-ne-nil (y ∷ ys) x h = cc

  -- No failure was put on record, so the call succeeded.
  ended-eq-ok :
      (s s' : Staged D) (k k' : Work D) (w' : W) (p : Result (Unit {0}) × W)
      → continue (outcome (p.0, (k, p.1))) (put_back_ended fs codec marker_bytes fs.rename s)
        ≡ (ok s', (k', w'))
      → k'.failures ≡ []
      → (p ≡ (ok tt, w')) × (k ≡ k')
  ended-eq-ok s s' k k' w' (ok u, v) h e = (cc, cc)
  ended-eq-ok s s' k k' w' (err m, v) h e =
      let same : k.failures ++ back_message fs codec marker_bytes fs.rename s m ∷ [] ≡ k'.failures =
        ap (λ (r : Result (Staged D) × (Work D × W)). r.1.0.failures) h in
      absurd (append-ne-nil k.failures _ (same ∙ e))
  ended-eq-ok s s' k k' w' (panic, v) h e = cc

  unlink-eq-ok :
      (p : Result Removal × W) (w' : W)
      → continue p (λ r. lift (must r)) ≡ (ok tt, w')
      → p ≡ (ok removed, w')
  unlink-eq-ok (ok removed, v) w' h = cc
  unlink-eq-ok (ok (not_found m), v) w' h = cc
  unlink-eq-ok (err m, v) w' h = cc
  unlink-eq-ok (panic, v) w' h = cc

  back_by-PutBack :
      (s : Staged D) (prev : Option Text) (w w' : W)
      → put_back_by fs codec marker_bytes fs.rename s prev w ≡ (ok tt, w')
      → (HasSaved disk w0 w s prev → InPlace disk w0 w' s)
        × SameBut fs disk (disk.spot s.dir s.name ∷ aside disk s prev) w w'
  unfolding unlink
  back_by-PutBack s (some prev) w w' h = (
    λ saved. posix.renamed s.dir prev s.name w w' h ∙ saved,
    λ q clear.
        subst (λ v. SameBut fs disk (disk.spot s.dir prev ∷ disk.spot s.dir s.name ∷ []) w v)
          (ap (λ (r : Result (Unit {0}) × W). r.1) h) (posix.renames s.dir prev s.name w) q
          (clear.1.0, (clear.0, tt)),
  )
  back_by-PutBack s none w w' h =
      let gone = unlink-eq-ok (fs.unlink s.dir s.name w) w' h in
      (
        λ saved. posix.unlinked s.dir s.name w w' gone ∙ sym saved,
        λ q clear.
            subst (λ v. SameBut fs disk (disk.spot s.dir s.name ∷ []) w v)
              (ap (λ (r : Result Removal × W). r.1) gone) (posix.unlinks s.dir s.name w) q clear,
      )

  put_back_one-PutBack :
      (s s' : Staged D) (k k' : Work D) (w w' : W)
      → put_back_one fs codec marker_bytes fs.rename s (k, w) ≡ (ok s', (k', w'))
      → k'.failures ≡ []
      → PutBack s k w k' w'
  put_back_one-PutBack s s' k k' w w' h e =
      let (back, same) =
        ended-eq-ok s s' k k' w' (put_back_by fs codec marker_bytes fs.rename s s.prev w) h e in
      let (placed, kept) = back_by-PutBack s s.prev w w' back in
      (ap (λ (j : Work D). j.failures) same ∙ e, placed, λ q clear. kept q (clear.0, clear.1.1))

  -- The files put back, and what is left alone.
  abbrev pub Untouched : List (Staged D) → S → Type 0
  Untouched ss q = All (λ s. Clear (own disk s) q) ss

  abbrev pub Restored : List (Staged D) → Work D → W → W → Type 0
  Restored ss k w w' =
      (k.failures ≡ [])
      × All (InPlace disk w0 w') ss
      × ((q : S) → Untouched ss q → disk.node w' q ≡ disk.node w q)

  saved_through :
      (s : Staged D) (ss : List (Staged D)) (w w1 : W) (prev : Option Text)
      → ((q : S) → Untouched ss q → disk.node w1 q ≡ disk.node w q)
      → All (λ t. All (Clear (own disk t)) (aside disk s prev)) ss
      → HasSaved disk w0 w s prev
      → HasSaved disk w0 w1 s prev
  saved_through s ss w w1 none kept away h = h
  saved_through s ss w w1 (some prev) kept away h =
      kept _ (All_mono _ (λ t. Clear (own disk t) _) ss (λ t a. a.0) away) ∙ h

  one_more :
      (s : Staged D) (ss : List (Staged D)) (k k1 k' : Work D) (w w1 w' : W)
      → Restored ss k w w1
      → PutBack s k1 w1 k' w'
      → Separate disk (s ∷ ss)
      → IsSaved disk w0 w s
      → Restored (s ∷ ss) k w w'
  one_more s ss k k1 k' w w1 w' (none_failed, placed, kept) (fine, place, kept1) sep saved = (
    none_failed,
    (
      place (
          saved_through s ss w w1 s.prev kept
            (All_mono _ (λ t. All (Clear (own disk t)) (aside disk s s.prev)) ss (λ t a. a.1.1)
              sep.0)
            saved),
      All-both (λ t. AwayFrom disk s t × AwayFrom disk t s) (InPlace disk w0 w1)
          (InPlace disk w0 w') ss (λ t a h. InPlace-kept (own disk s) w1 w' t kept1 a.0 h) sep.0
          placed,
    ),
    λ q clear. kept1 q clear.0 ∙ kept q clear.1,
  )

  pub put_back_lem :
      (ss ss' : List (Staged D)) (k k' : Work D) (w w' : W)
      → put_back fs codec marker_bytes fs.rename ss (k, w) ≡ (ok ss', (k', w'))
      → k'.failures ≡ []
      → Separate disk ss
      → All (IsSaved disk w0 w) ss
      → Restored ss k w w'
  unfolding put_back
  put_back_lem [] ss' k k' w w' h e sep saved =
      let same : k ≡ k' = cc in
      let still : w ≡ w' = cc in
      (ap (λ (j : Work D). j.failures) same ∙ e, tt, λ q clear. ap (λ v. disk.node v q) (sym still))
  put_back_lem (s ∷ ss) ss' k k' w w' h e sep saved =
      let (rest, (k1, w1), first, more) =
        continue-eq-ok (put_back fs codec marker_bytes fs.rename ss (k, w)) _ h in
      let (s', (k2, w2), one, last) =
        continue-eq-ok (put_back_one fs codec marker_bytes fs.rename s (k1, w1)) _ more in
      let end : (k2, w2) ≡ (k', w') = cc last in
      let mine = put_back_one-PutBack s s' k1 k' w1 w' (one ∙ ap (λ st. (ok s', st)) end) e in
      one_more s ss k k1 k' w w1 w' (put_back_lem ss rest k k1 w w1 first mine.0 sep.2 saved.1) mine
        sep saved.0

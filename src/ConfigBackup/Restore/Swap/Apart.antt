-- ===== src/ConfigBackup/Restore/Swap/Apart.antt =====
-- Staged files whose spots do not meet.
use pbs.Base.{Bool, List, [], ◌∷◌, ◌++◌}
use pbs.Base.Lists.{All, All-both, All-left, All-right}
use pbs.ConfigBackup.Restore.{Staged}
use pbs.ConfigBackup.Restore.Disk.{Disk, AwayFrom, Separate}

module _ {W D S N : Type 0} (disk : Disk W D S N) where
  abbrev pub Apart : Staged D → Staged D → Type 0
  Apart s t = AwayFrom disk s t × AwayFrom disk t s

  pub All-marked :
      (P : Staged D → Type 0) (ss ts : List (Staged D)) (s t : Staged D)
      → (P s → P t)
      → All P (ss ++ s ∷ ts)
      → All P (ss ++ t ∷ ts)
  All-marked P [] ts s t f h = (f h.0, h.1)
  All-marked P (x ∷ ss) ts s t f h = (h.0, All-marked P ss ts s t f h.1)

  -- Whether a file is marked as displaced is no matter.
  pub Separate-marked :
      (ss ts : List (Staged D)) (s : Staged D) (b : Bool)
      → Separate disk (ss ++ s ∷ ts)
      → Separate disk (ss ++ record s { displaced = b } ∷ ts)
  Separate-marked [] ts s b h = h
  Separate-marked (x ∷ ss) ts s b h = (
    All-marked (Apart x) ss ts s (record s { displaced = b }) (λ a. a) h.0,
    h.1,
    Separate-marked ss ts s b h.2,
  )

  pub Separate-left : (ss ts : List (Staged D)) → Separate disk (ss ++ ts) → Separate disk ss
  Separate-left [] ts h = tt
  Separate-left (s ∷ ss) ts h = (All-left (Apart s) ss ts h.0, h.1, Separate-left ss ts h.2)

  pub Separate-right : (ss ts : List (Staged D)) → Separate disk (ss ++ ts) → Separate disk ts
  Separate-right [] ts h = h
  Separate-right (s ∷ ss) ts h = Separate-right ss ts h.2

  -- Every file of the one part is apart from every file of the other.
  pub Separate-cross :
      (ss ts : List (Staged D)) → Separate disk (ss ++ ts) → All (λ t. All (λ s. Apart s t) ss) ts
  Separate-cross [] ts h = trivial ts
    where
      trivial : (us : List (Staged D)) → All (λ t. All (λ s. Apart s t) []) us
      trivial [] = tt
      trivial (u ∷ us) = (tt, trivial us)
  Separate-cross (s ∷ ss) ts h =
      All-both (Apart s) (λ t. All (λ s'. Apart s' t) ss) (λ t. All (λ s'. Apart s' t) (s ∷ ss)) ts
        (λ t a b. (a, b)) (All-right (Apart s) ss ts h.0) (Separate-cross ss ts h.2)

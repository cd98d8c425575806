-- ===== src/ConfigBackup/Manifest/Restorable.antt =====
-- The manifests that `validate` accepts.
use pbs.Base.{
  ℕ, ◌+◌, ◌*◌, ◌≤◌, ◌<◌, Bool, true, false, not, ◌||◌, List, [], ◌∷◌, map, ◌≡◌, ◌≢◌, ◌↔◌, ◌⊎◌, inl,
  inr, refl, sym, ap, ◌∙◌, arith,
}
use pbs.Api.Namespaces.{add_u64}
use pbs.Base.Tests.{nat_eq, nat_eq_iff, leb, leb→le, Bool-cases}
use pbs.Base.Lists.{length, All, Any}
use pbs.Base.Text.{Text, ◌==◌, one_of, is_empty}
use pbs.Base.Text.Equality.{text_eq_iff}
use pbs.Base.Result.{Result, ok, err, panic, ◌>>=◌, ◌>>◌, ensure}
use pbs.ConfigBackup.{manifest_version, file_cap, total_cap, check_rel, split_rel}
use pbs.ConfigBackup.Manifest.{
  FileEntry, DirEntry, Manifest, Entry, entries_of, only_permissions, check_entries, check_parents,
  check_sizes, validate,
}
use pbs.ConfigBackup.Manifest.PlainPath.{IsPlainPath, check_rel_iff, is_empty_iff}

-- No path is listed twice.
abbrev pub IsDistinct : List Entry → Type 0
IsDistinct [] = Unit
IsDistinct (e ∷ es) = All (λ (x : Entry). x.0 ≢ e.0) es × IsDistinct es

-- The directory of a path is the root or one of the directories.
abbrev pub IsUnder : List DirEntry → Text → Type 0
IsUnder dirs path =
    ((split_rel path).0 ≡ []) ⊎ Any (λ (d : DirEntry). d.path ≡ (split_rel path).0) dirs

abbrev pub total_size : List FileEntry → ℕ
total_size [] = 0
total_size (f ∷ fs) = f.size + total_size fs

pub record IsRestorable (m : Manifest) : Type 0 where
  pub version : m.version ≡ manifest_version
  pub paths : All (λ (e : Entry). IsPlainPath e.0) (entries_of m)
  pub distinct : IsDistinct (entries_of m)
  pub modes : All (λ (e : Entry). e.1 < 0x200) (entries_of m)
  pub parents : All (λ (e : Entry). IsUnder m.dirs e.0) (entries_of m)
  pub sizes : All (λ (f : FileEntry). f.size ≤ file_cap) m.files
  pub total : total_size m.files ≤ total_cap

-- Checks one after the other.
then_iff : (m n : Result (Unit {0})) → ((m >> n) ≡ ok tt) ↔ ((m ≡ ok tt) × (n ≡ ok tt))
then_iff (ok u) n = (λ h. (refl, h), λ h. h.1)
then_iff (err e) n = (λ h. cc, λ h. cc)
then_iff panic n = (λ h. cc, λ h. cc)

ensure_iff : (b : Bool) (e : Text) → (ensure b e ≡ ok tt) ↔ (b ≡ true)
ensure_iff true e = (λ h. refl, λ h. refl)
ensure_iff false e = (λ h. cc, λ h. cc)

then-eq-ok :
    {A : Type 0} (m : Result (Unit {0})) (n : Result A) {a : A}
    → (m >> n) ≡ ok a
    → (m ≡ ok tt) × (n ≡ ok a)
then-eq-ok (ok u) n h = (refl, h)
then-eq-ok (err e) n h = cc
then-eq-ok panic n h = cc

-- The paths that were seen.
seen-cons_iff :
    (path : Text) (seen : List Text) (es : List Entry)
    → All (λ (e : Entry). one_of e.0 (path ∷ seen) ≡ false) es
      ↔ (All (λ (e : Entry). e.0 ≢ path) es × All (λ (e : Entry). one_of e.0 seen ≡ false) es)
unfolding one_of
seen-cons_iff path seen [] = (λ h. (tt, tt), λ h. tt)
seen-cons_iff path seen ((p, mode) ∷ es) =
    let (rest, rest') = seen-cons_iff path seen es in
    (
      λ h.
          let here : (path == p) || one_of p seen ≡ false = h.0 in
          let more = rest h.1 in
          ((ground (arith, text_eq_iff path p, here), more.0), (ground arith, more.1)),
      λ h. (ground (arith, text_eq_iff path p, h.0.0, h.1.0), rest' (h.0.1, h.1.1)),
    )

module _ (debug : Text → Text) where
  -- The loop over the entries.
  abbrev Accepted : List Text → List Entry → Type 0
  Accepted seen es =
      All (λ (e : Entry). IsPlainPath e.0) es
      × IsDistinct es
      × All (λ (e : Entry). e.1 < 0x200) es
      × All (λ (e : Entry). one_of e.0 seen ≡ false) es

  check_entries-Accepted :
      (seen : List Text) (es : List Entry) → check_entries debug seen es ≡ ok tt → Accepted seen es
  unfolding check_entries
  check_entries-Accepted seen [] h = (tt, tt, tt, tt)
  check_entries-Accepted seen ((path, mode) ∷ es) h =
      let (three, rest) = (then_iff _ _).0 h in
      let (two, permitted) = (then_iff _ _).0 three in
      let (plain, fresh) = (then_iff _ _).0 two in
      let (paths, distinct, modes, seen_es) = check_entries-Accepted (path ∷ seen) es rest in
      let (others, unseen) = (seen-cons_iff path seen es).0 seen_es in
      let new : not (one_of path seen) ≡ true = (ensure_iff _ _).0 fresh in
      let low : only_permissions mode ≡ true = (ensure_iff _ _).0 permitted in
      (
        ((check_rel_iff debug path).0 plain, paths),
        (others, distinct),
        (ground (arith, low), modes),
        (ground (arith, new), unseen),
      )

  Accepted-check_entries :
      (seen : List Text) (es : List Entry) → Accepted seen es → check_entries debug seen es ≡ ok tt
  unfolding check_entries
  Accepted-check_entries seen [] h = refl
  Accepted-check_entries seen ((path, mode) ∷ es) (paths, distinct, modes, unseen) =
      let plain : check_rel debug path ≡ ok tt = (check_rel_iff debug path).1 paths.0 in
      let low : only_permissions mode ≡ true = ground (arith, modes.0) in
      rw (plain, unseen.0, low)
        (Accepted-check_entries (path ∷ seen) es
          (paths.1, distinct.1, modes.1, (seen-cons_iff path seen es).1 (distinct.0, unseen.1)))

  one_of-map_iff :
      (d : Text) (dirs : List DirEntry)
      → (one_of d (map (λ (x : DirEntry). x.path) dirs) ≡ true)
        ↔ Any (λ (x : DirEntry). x.path ≡ d) dirs
  unfolding one_of
  one_of-map_iff d [] = (λ h. cc, λ h. absurd h)
  one_of-map_iff d (x ∷ dirs) =
      let (rest, rest') = one_of-map_iff d dirs in
      let (same, same') = text_eq_iff x.path d in
      (
        λ h. elim (Bool-cases (x.path == d)) [
          | inl e ↦ inl (same e)
          | inr n ↦ inr (rest (ground (arith, h, n)))
        ],
        λ h. elim h [ inl e ↦ rw (same' e) refl | inr r ↦ ground (arith, rest' r) ],
      )

  parent_iff :
      (path : Text) (dirs : List DirEntry)
      → ((is_empty (split_rel path).0
            || one_of (split_rel path).0 (map (λ (d : DirEntry). d.path) dirs))
          ≡ true)
        ↔ IsUnder dirs path
  parent_iff path dirs =
      let (nil, nil') = is_empty_iff (split_rel path).0 in
      let (listed, listed') = one_of-map_iff (split_rel path).0 dirs in
      (
        λ h. elim (Bool-cases (is_empty (split_rel path).0)) [
          | inl e ↦ inl (nil e)
          | inr n ↦ inr (listed (ground (arith, h, n)))
        ],
        λ h. elim h [ inl e ↦ rw (nil' e) refl | inr r ↦ ground (arith, listed' r) ],
      )

  check_parents_iff :
      (dirs : List DirEntry) (es : List Entry)
      → (check_parents debug (map (λ (d : DirEntry). d.path) dirs) es ≡ ok tt)
        ↔ All (λ (e : Entry). IsUnder dirs e.0) es
  unfolding check_parents
  check_parents_iff dirs [] = (λ h. tt, λ h. refl)
  check_parents_iff dirs ((path, mode) ∷ es) =
      let (rest, rest') = check_parents_iff dirs es in
      let (under, under') = parent_iff path dirs in
      (
        λ h. let (one, more) = (then_iff _ _).0 h in (under ((ensure_iff _ _).0 one), rest more),
        λ h. (then_iff _ _).1 ((ensure_iff _ _).1 (under' h.0), rest' h.1),
      )

  -- The loop over the sizes, whose sum does not wrap for so few files.
  check_sizes-sizes :
      (t : ℕ) (fs : List FileEntry) {r : ℕ}
      → check_sizes debug t fs ≡ ok r
      → All (λ (f : FileEntry). f.size ≤ file_cap) fs
  unfolding check_sizes
  check_sizes-sizes t [] h = tt
  check_sizes-sizes t (f ∷ fs) h =
      let (small, rest) = then-eq-ok _ (check_sizes debug (add_u64 t f.size) fs) h in
      (leb→le _ _ ((ensure_iff _ _).0 small), check_sizes-sizes (add_u64 t f.size) fs rest)

  check_sizes-eq-ok :
      (t : ℕ) (fs : List FileEntry)
      → All (λ (f : FileEntry). f.size ≤ file_cap) fs
      → t + length fs * file_cap < 0x10000000000000000
      → check_sizes debug t fs ≡ ok (t + total_size fs)
  unfolding check_sizes
  check_sizes-eq-ok t [] h few = ap ok (omega arith)
  check_sizes-eq-ok t (f ∷ fs) h few =
      let small : leb f.size file_cap ≡ true = ground (arith, h.0) in
      let sum : add_u64 t f.size ≡ t + f.size = omega (arith, few, h.0) in
      rw (small, sum)
        (check_sizes-eq-ok (t + f.size) fs h.1 (omega (arith, few, h.0)) ∙ ap ok (omega arith))

-- A sum that is then checked.
checked_sum :
    (sum : Result ℕ) (check : ℕ → Result (Unit {0}))
    → (sum >>= check) ≡ ok tt
    → (total : ℕ) × (check total ≡ ok tt) × (sum ≡ ok total)
checked_sum (ok total) check h = (total, h, refl)
checked_sum (err e) check h = cc
checked_sum panic check h = cc

ok-inj : {A : Type 0} {a b : A} → ok a ≡ ok b → a ≡ b
ok-inj h = cc

unseen_nil : (es : List Entry) → All (λ (e : Entry). one_of e.0 [] ≡ false) es
unfolding one_of
unseen_nil [] = tt
unseen_nil (e ∷ es) = (refl, unseen_nil es)

module _ (debug : Text → Text) (at : Text) (m : Manifest)
    (few : length m.files < 0x10000000000) where
  summed :
      All (λ (f : FileEntry). f.size ≤ file_cap) m.files
      → check_sizes debug 0 m.files ≡ ok (total_size m.files)
  summed sizes = check_sizes-eq-ok debug 0 m.files sizes (omega (arith, few)) ∙ ap ok (omega arith)

  validate_sound : validate debug at m ≡ ok tt → IsRestorable m
  unfolding validate
  validate_sound h =
      let (three, sized) = (then_iff _ _).0 h in
      let (two, under) = (then_iff _ _).0 three in
      let (one, entries) = (then_iff _ _).0 two in
      let (paths, distinct, modes, unseen) =
        check_entries-Accepted debug [] (entries_of m) entries in
      let (total, within, counted) = checked_sum (check_sizes debug 0 m.files) _ sized in
      let sizes = check_sizes-sizes debug 0 m.files counted in
      let same : total ≡ total_size m.files = ok-inj (sym counted ∙ summed sizes) in
      record {
        version = (nat_eq_iff _ _).0 ((ensure_iff _ _).0 one);
        paths = paths;
        distinct = distinct;
        modes = modes;
        parents = (check_parents_iff debug m.dirs (entries_of m)).0 under;
        sizes = sizes;
        total = rw (← same) (leb→le _ _ ((ensure_iff _ _).0 within));
      }

  validate_complete : IsRestorable m → validate debug at m ≡ ok tt
  unfolding validate
  validate_complete r =
      let version : nat_eq m.version manifest_version ≡ true = (nat_eq_iff _ _).1 r.version in
      let entries : check_entries debug [] (entries_of m) ≡ ok tt =
        Accepted-check_entries debug [] (entries_of m)
          (r.paths, r.distinct, r.modes, unseen_nil (entries_of m)) in
      let parents = (check_parents_iff debug m.dirs (entries_of m)).1 r.parents in
      let total : leb (total_size m.files) total_cap ≡ true = ground (arith, r.total) in
      rw (version, entries, parents, summed r.sizes, total) refl

  -- Where fewer than 2 ^ 40 files are listed, a manifest is accepted exactly when it is of the version
  -- that is read; its paths are plain, relative and distinct; it lists the directory of each; every
  -- mode has permission bits alone; and no file is over its limit, nor their sum, which has not
  -- wrapped, over that of them all.
  pub validate_iff : (validate debug at m ≡ ok tt) ↔ IsRestorable m
  validate_iff = (validate_sound, validate_complete)

-- ===== src/ConfigBackup/Files/Quiet.antt =====
-- Reading files leaves the disk as it is.
use pbs.Base.{ℕ, ◌+◌, List, [], ◌∷◌, ◌++◌, refl}
use pbs.Base.Tests.{ltb}
use pbs.Base.Lists.{length}
use pbs.Base.Text.{Text, str, is_empty, split}
use pbs.Base.Result.{lift, pure, fail}
use pbs.Base.Action.{◌>>◌, in_context}
use pbs.Base.Quiet.{IsQuiet, bind-IsQuiet, choice-IsQuiet}
use pbs.ConfigBackup.{file_cap, check_rel, split_rel}
use pbs.ConfigBackup.Files.{
  Fs, walk, open_root, open_dir, parent_of, open_rel, read_capped, read_rel, read_path,
}

-- The calls that only read.
pub record ReadsQuietly {W D F : Type 0} (fs : Fs W D F) : Type 0 where
  pub clones : (d : D) → IsQuiet (fs.try_clone d)
  pub subs : (d : D) (name : Text) → IsQuiet (fs.sub d name)
  pub files : (d : D) (name : Text) → IsQuiet (fs.file d name)
  pub metas : (f : F) → IsQuiet (fs.metadata f)
  pub reads : (f : F) (n : ℕ) → IsQuiet (fs.read_to f n)
  pub resolves : (path : Text) → IsQuiet (fs.canonicalize path)
  pub opens : (path : Text) → IsQuiet (fs.open_path path)
  pub opens_regular : (path : Text) → IsQuiet (fs.open_regular path)
  pub stats : (d : D) (name : Text) → IsQuiet (fs.stat d name)
  pub lists : (d : D) → IsQuiet (fs.names d)

module _ {W D F : Type 0} (fs : Fs W D F) (quiet : ReadsQuietly fs) where
  walk-IsQuiet : (rel : Text) (d : D) (segs : List Text) → IsQuiet (walk fs rel d segs)
  unfolding walk
  walk-IsQuiet rel d [] w = refl
  walk-IsQuiet rel d (seg ∷ segs) w =
      bind-IsQuiet (in_context (str "open " ++ (rel ++ (str " at " ++ seg))) (fs.sub d seg)) _
        (quiet.subs d seg) (λ next. walk-IsQuiet rel next segs) w

  pub open_dir-IsQuiet : (root : D) (rel : Text) → IsQuiet (open_dir fs root rel)
  unfolding open_dir
  open_dir-IsQuiet root rel = bind-IsQuiet (fs.try_clone root) _ (quiet.clones root) λ d.
      choice-IsQuiet (is_empty rel) (pure d)
        (lift (check_rel fs.debug rel) >> walk fs rel d (split b'/' rel)) (λ w. refl)
        (bind-IsQuiet (lift (check_rel fs.debug rel)) _ (λ w. refl)
          (λ _. walk-IsQuiet rel d (split b'/' rel)))

  pub read_capped-IsQuiet : (f : F) (what : Text) → IsQuiet (read_capped fs f what)
  unfolding read_capped
  read_capped-IsQuiet f what = bind-IsQuiet (fs.metadata f) _ (quiet.metas f) λ meta.
      choice-IsQuiet (ltb file_cap meta.len) (fail _) _ (λ w. refl)
        (bind-IsQuiet (fs.read_to f (file_cap + 1)) _ (quiet.reads f (file_cap + 1)) λ buf.
          choice-IsQuiet (ltb file_cap (length buf)) (fail _) (pure buf) (λ w. refl) (λ w. refl))

  pub open_root-IsQuiet : (path : Text) → IsQuiet (open_root fs path)
  open_root-IsQuiet path = quiet.opens path

  parent_of-IsQuiet : (root : D) (rel : Text) → IsQuiet (parent_of fs root rel)
  unfolding parent_of
  parent_of-IsQuiet root rel =
      bind-IsQuiet (lift (check_rel fs.debug rel)) _ (λ w. refl)
        λ _.
          bind-IsQuiet (open_dir fs root (split_rel rel).0) _
            (open_dir-IsQuiet root (split_rel rel).0) λ d w. refl

  open_rel-IsQuiet : (root : D) (rel : Text) → IsQuiet (open_rel fs root rel)
  unfolding open_rel
  open_rel-IsQuiet root rel =
      bind-IsQuiet (parent_of fs root rel) _ (parent_of-IsQuiet root rel)
        λ at. quiet.files at.0 at.1

  pub read_rel-IsQuiet : (root : D) (rel : Text) → IsQuiet (read_rel fs root rel)
  unfolding read_rel
  read_rel-IsQuiet root rel =
      bind-IsQuiet (open_rel fs root rel) _ (open_rel-IsQuiet root rel)
        λ f. read_capped-IsQuiet f rel

  pub read_path-IsQuiet : (path : Text) → IsQuiet (read_path fs path)
  unfolding read_path
  read_path-IsQuiet path =
      bind-IsQuiet (in_context (str "open " ++ path) (fs.open_regular path)) _
        (quiet.opens_regular path) λ f. read_capped-IsQuiet f path

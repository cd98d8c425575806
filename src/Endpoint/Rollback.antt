-- ===== src/Endpoint/Rollback.antt =====
-- What a failed registration leaves behind.
use pbs.Base.{Bool, Option, some, ◌≡◌, inl, inr, ap}
use pbs.Base.Text.{Text}
use pbs.Base.Result.{Result, ok, err, panic, continue, continue-eq-err}
use pbs.Orca.{Orca}
use pbs.Tls.{Fingerprint}
use pbs.Endpoint.{EndpointRow, Registry, ignored, store_secrets}
use pbs.Endpoint.Create.{
  PbsCreateArgs, PbsCreateOutput, new_row, removed, or_rollback, inserted, register,
}

module _ {W : Type 0} (orca : Orca W) (db : Registry W) where
  -- How a registration fails: the row was not inserted; or it was, its secrets could not be stored,
  -- and the removal of the row was the last thing done.
  pub data Undone (args : PbsCreateArgs) (secret : Text) (fp : Option Fingerprint) (w : W)
      (e : Text) (w' : W) : Type 0 where
    not_inserted :
        {cause : Text}
        → db.insert_row (new_row args) w ≡ (err cause, w')
        → e ≡ db.insert_conflict cause args.name
        → Undone args secret fp w e w'
    rolled_back :
        {w1 w2 : W} {removal : Result Bool}
        → db.insert_row (new_row args) w ≡ (ok tt, w1)
        → store_secrets orca args.name (some secret) fp w1 ≡ (err e, w2)
        → db.remove_row args.name w2 ≡ (removal, w')
        → Undone args secret fp w e w'

  inserted-eq-err :
      (row : EndpointRow) (m : Result (Unit {0}) × W) {e : Text} {w' : W}
      → inserted orca db row m ≡ (err e, w')
      → (cause : Text) × (m ≡ (err cause, w')) × (e ≡ db.insert_conflict cause row.name)
  inserted-eq-err row (ok u, w) h = cc
  inserted-eq-err row (err cause, w) h = (cause, cc, cc)
  inserted-eq-err row (panic, w) h = cc

  inserted-eq-ok :
      (row : EndpointRow) (m : Result (Unit {0}) × W) {u : Unit {0}} {w' : W}
      → inserted orca db row m ≡ (ok u, w')
      → m ≡ (ok u, w')
  inserted-eq-ok row (ok u, w) h = h
  inserted-eq-ok row (err cause, w) h = cc
  inserted-eq-ok row (panic, w) h = cc

  removed-eq-err :
      (name cause : Text) (m : Result Bool × W) {e : Text} {w' : W}
      → removed orca db name cause m ≡ (err e, w')
      → (r : Result Bool) × (m ≡ (r, w')) × (cause ≡ e)
  removed-eq-err name cause (ok b, w) h = (ok b, cc, cc)
  removed-eq-err name cause (err e0, w) h = (err e0, cc, cc)
  removed-eq-err name cause (panic, w) h = cc

  or_rollback-eq-err :
      (name : Text) (m : Result (Unit {0}) × W) {e : Text} {w' : W}
      → or_rollback orca db name m ≡ (err e, w')
      → (w2 : W) × (r : Result Bool) × (m ≡ (err e, w2)) × (db.remove_row name w2 ≡ (r, w'))
  or_rollback-eq-err name (ok u, w) h = cc
  or_rollback-eq-err name (panic, w) h = cc
  or_rollback-eq-err name (err cause, w) h =
      let (r, gone, same) = removed-eq-err name cause (db.remove_row name w) h in
      (w, r, ap (λ c. (err c, w)) same, gone)

  ending :
      (args : PbsCreateArgs) (out : PbsCreateOutput) (m : Result Bool × W) {e : Text} {w' : W}
      → ¬ (continue (ignored orca m) (λ _ w. (ok out, w)) ≡ (err e, w'))
  ending args out (ok b, w) h = cc
  ending args out (err e, w) h = cc
  ending args out (panic, w) h = cc

  -- If a registration fails, then the row was not inserted, or its secrets could not be stored and
  -- the last thing done was to remove the row.
  pub register-Undone :
      (args : PbsCreateArgs) (secret : Text) (fp : Option Fingerprint) (w : W) {e : Text} {w' : W}
      → register orca db args secret fp w ≡ (err e, w')
      → Undone args secret fp w e w'
  unfolding register
  register-Undone args secret fp w h =
      elim (continue-eq-err (inserted orca db (new_row args) (db.insert_row (new_row args) w)) _
        h) [
          | inl failed ↦
              let (cause, refused, why) =
                inserted-eq-err (new_row args) (db.insert_row (new_row args) w) failed in
              not_inserted refused why
          | inr (u, w1, there, rest) ↦
              elim (continue-eq-err
                (or_rollback orca db args.name (store_secrets orca args.name (some secret) fp w1)) _
                rest) [
                  | inl failed ↦
                      let (w2, r, unsaved, gone) =
                        or_rollback-eq-err args.name
                          (store_secrets orca args.name (some secret) fp w1) failed in
                      rolled_back
                        (inserted-eq-ok (new_row args) (db.insert_row (new_row args) w) there)
                        unsaved gone
                  | inr (v, w2, saved, last) ↦
                      absurd (ending args _ (orca.delete_secret args.token_secret_ref w2) last)
                ]
        ]

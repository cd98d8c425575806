-- ===== src/Enroll/Run/Minted.antt =====
-- A minted secret is in the secrets domain before the next call is made.
use pbs.Base.{true, some, ◌++◌, ◌≡◌, subst}
use pbs.Base.Text.{Text, str}
use pbs.Base.Json.{Value}
use pbs.Base.Result.{
  Result, ok, ok_or, with_context, Io, bind, lift, pure, continue-eq-ok, ok_or-eq-ok, map_err-eq-ok,
}
use pbs.Client.Request.{Net, PbsClient}
use pbs.Plan.{Step}
use pbs.Plan.Apply.{recontext, send_step, attempt}
use pbs.Api.{Codec}
use pbs.Orca.{Orca}
use pbs.Enroll.Identity.{Identity}
use pbs.Enroll.Run.{minted_secret, minted_message, stored_or, store_minted}

abbrev pub note_for : Text → Identity → Text
note_for ep id = str "PBS token " ++ (id.tokenid ++ (str " (pbs endpoint '" ++ (ep ++ str "')")))

module _ {W : Type 0} (net : Net W) (codec : Codec) (orca : Orca W) (c : PbsClient) (ep : Text)
    (id : Identity) (sname : Text) where
  -- The step went to the server, whose reply held a secret, and that secret was stored.
  pub record IsStored (s : Step) (v : Value) (w w' : W) : Type 0 where
    pub replied : W
    pub secret : Text
    pub sent : send_step net c s.call w ≡ (ok v, replied)
    pub minted : minted_secret v ≡ some secret
    pub kept : orca.set_secret sname secret (note_for ep id) replied ≡ (ok tt, w')

  abbrev after : Step → Value → Io W (Unit {0})
  after = store_minted net codec orca ep id sname

  abbrev minting : Value → W → Result (Unit {0}) × W
  minting v =
      bind (lift (ok_or (minted_secret v) (str "PBS returned no secret for " ++ id.tokenid)))
        (λ secret w. stored_or net codec orca id (orca.set_secret sname secret (note_for ep id) w))

  after_sensitive :
      (s : Step) (v : Value) (w : W) → s.sensitive_result ≡ true → after s v w ≡ minting v w
  unfolding store_minted
  after_sensitive s v w h = rw h

  minting-IsStored :
      (s : Step) (v : Value) {w w1 w' : W} (u : Unit {0})
      → send_step net c s.call w ≡ (ok v, w1)
      → minting v w1 ≡ (ok u, w')
      → IsStored s v w w'
  minting-IsStored s v {w1 = w1} {w' = w'} u sent h =
      let (secret, w2, found, put) = continue-eq-ok (ok_or (minted_secret v) _, w1) _ h in
      let (minted, same) = ok_or-eq-ok (minted_secret v) _ w1 found in
      record {
        replied = w1;
        secret = secret;
        sent = sent;
        minted = minted;
        kept = rw same (
            map_err-eq-ok (minted_message id) (orca.set_secret sname secret (note_for ep id) w2)
              put);
      }

  IsStored-cong :
      (s : Step) {v v' : Value} {w w1 w' : W}
      → IsStored s v w w1
      → ◌≡◌ {A = Result Value × W} (ok v, w1) (ok v', w')
      → IsStored s v' w w'
  IsStored-cong s {v} {v'} {w} {w1} {w'} stored h =
      let same : v ≡ v' = cc in
      let there : w1 ≡ w' = cc in
      subst (λ x. IsStored s x w w') same (subst (λ x. IsStored s v w x) there stored)

  -- If a sensitive step of an enrolment succeeds, its reply held a secret, and that secret was
  -- stored under the host's name before anything else happened.
  pub attempt-IsStored :
      (s : Step) (v : Value) (w w' : W)
      → s.sensitive_result ≡ true
      → attempt net c (store_minted net codec orca ep id sname) s w ≡ (ok v, w')
      → IsStored s v w w'
  unfolding attempt
  attempt-IsStored s v w w' sens h =
      let (v0, w1, sent, rest) = continue-eq-ok (send_step net c s.call w) _ h in
      let (u, w2, done, last) =
        continue-eq-ok (recontext (str "after the call succeeded") (after s v0) w1) (λ _. pure v0)
          rest in
      let ran =
        map_err-eq-ok (with_context (str "after the call succeeded")) (after s v0 w1) done in
      let minted = subst (λ m. m ≡ (ok u, w2)) (after_sensitive s v0 w1 sens) ran in
      IsStored-cong s (minting-IsStored s v0 u sent minted) last

-- ===== src/Tests/Endpoint.antt =====
-- Fingerprints and the registry of endpoints at concrete inputs.
use pbs.Base.{ℕ, true, false, none, some, List, [], ◌∷◌, ◌++◌, ◌≡◌, refl, arith}
use pbs.Base.Lists.{All}
use pbs.Base.Text.{Text, str}
use pbs.Base.Result.{ok, err, panic}
use pbs.Base.Int.{pos}
use pbs.Orca.{Orca}
use pbs.Tls.{Fingerprint, parse, display, radix_16, octets_of}
use pbs.Tls.RoundTrip.{IsOctet, parse-display}
use pbs.Endpoint.{EndpointRow, Registry}
use pbs.Endpoint.Create.{PbsCreateArgs, register}
use pbs.Endpoint.Rollback.{Undone, register-Undone}

abbrev eight : List ℕ
eight = 0 ∷ 15 ∷ 16 ∷ 171 ∷ 205 ∷ 239 ∷ 254 ∷ 255 ∷ []

abbrev print : Fingerprint
print = record { octets = eight ++ (eight ++ (eight ++ eight)) }

print-IsOctet : All IsOctet print.octets
print-IsOctet = grind arith

parse-display_example : parse (display print) ≡ ok print
parse-display_example = parse-display print refl print-IsOctet

-- A plus sign is taken in place of the first digit of a pair, and a character of three bytes makes
-- the slice panic.
odd_pairs : (radix_16 b'+' b'a' ≡ some 10) × (octets_of (8364 ∷ b'a' ∷ []) ≡ panic)
unfolding radix_16 octets_of
odd_pairs = (refl, refl)

-- The rows there are, by name; the secrets domain refuses every write.
abbrev Rows : Type 0
Rows = List Text

abbrev orca : Orca Rows
orca = record {
  get_secret = λ name w. (ok none, w);
  set_secret = λ name secret note w. (err (str "sealed"), w);
  delete_secret = λ name w. (ok false, w);
  secret_exists = λ name w. (ok false, w);
  scoped_name = λ plugin endpoint name. ok name;
  now = λ w. pos 0;
}

abbrev without_first : Rows → Rows
without_first [] = []
without_first (n ∷ ns) = ns

abbrev row : EndpointRow
row = record {
  name = str "main";
  token_id = str "root@pam!orca";
  insecure = false;
  routes = [];
  enabled = true;
}

abbrev registry : Registry Rows
registry = record {
  get_row = λ name w. (ok (some row), w);
  list_rows = λ w. (ok (row ∷ []), w);
  insert_row = λ r w. (ok tt, r.name ∷ w);
  update_row = λ r w. (ok true, w);
  remove_row = λ name w. (ok true, without_first w);
  insert_conflict = λ e name. e;
  missing_row = λ name. name;
  resolve_reachable = λ name routes skip w. (ok name, w);
  transport = λ policy. err (str "no transport");
}

abbrev args : PbsCreateArgs
args = record {
  name = str "main";
  token_id = str "root@pam!orca";
  token_secret_ref = str "pbs.main.staged";
  fingerprint = none;
  insecure = false;
  routes = [];
}

refused : register orca registry args (str "s") none [] ≡ (err (str "sealed"), [])
unfolding register
refused = refl

register-Undone_example : Undone orca registry args (str "s") none [] (str "sealed") []
register-Undone_example = register-Undone orca registry args (str "s") none [] refused

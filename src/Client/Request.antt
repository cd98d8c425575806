-- ===== src/Client/Request.antt =====
-- src/client.rs: the calls and replies of the REST API, and the client's requests. The transport
-- and the JSON codec are third-party code, and enter as the record `Net`.
pub mod Secrecy
use pbs.Base.{ℕ, ◌&&◌, Option, none, some, List, [], ◌∷◌, ◌++◌, map}
use pbs.Base.Tests.{ltb, leb, nat_eq, if◌then◌else◌}
use pbs.Base.Lists.{take}
use pbs.Base.Text.{Text, str, is_empty, strip_suffix, join, trim, show_nat}
use pbs.Base.Utf8.{from_utf8_lossy}
use pbs.Base.Json.{
  Value, null, object, Map, get, remove, entries, field, as_str, as_object, and_then,
}
use pbs.Base.Result.{Result, ok, err, ◌>>=◌, map_err, Io, bind, lift, pure}
use pbs.Client.Token.{ApiToken, header, redact}
use pbs.Client.Encode.{encode_query}

pub data Method : Type 0 where
  get_method post_method put_method delete_method : Method

unfoldable pub as_str_method : Method → Text
unfolding str
as_str_method get_method = str "GET"
as_str_method post_method = str "POST"
as_str_method put_method = str "PUT"
as_str_method delete_method = str "DELETE"

pub record HttpCall : Type 0 where
  pub method : Method
  pub url : Text
  pub headers : List (Text × Text)
  pub body : Option (List ℕ)

pub record HttpReply : Type 0 where
  pub status : ℕ
  pub body : List ℕ

pub record Envelope : Type 0 where
  pub data_value : Value
  pub extra : Map

pub record PbsClient : Type 0 where
  pub base : Text
  pub token : ApiToken

-- `trim_end_matches('/')`
unfoldable pub trim_end_slashes : Text → Text
trim_end_slashes [] = []
trim_end_slashes (c ∷ s) =
    let rest = trim_end_slashes s in if nat_eq c b'/' && is_empty rest then [] else c ∷ rest

abbrev unwrap_or : Option Text → Text → Text
unwrap_or none d = d
unwrap_or (some a) d = a

unfoldable pub new_client : Text → ApiToken → PbsClient
unfolding trim_end_slashes is_empty str strip_suffix
new_client base token =
    let trimmed = trim_end_slashes base in
    record { base = unwrap_or (strip_suffix (str "/api2/json") trimmed) trimmed; token = token }

abbrev pub with_token : PbsClient → ApiToken → PbsClient
with_token c token = record c { token = token }

-- What the client takes from the libraries: the transport, and serde_json's codec, whose
-- `to_vec` does not fail on a `Value`.
pub record Net (W : Type 0) : Type 0 where
  pub send : HttpCall → Io W HttpReply
  pub to_vec : Value → List ℕ
  pub from_slice : List ℕ → Option Value
  pub render : Value → Text

-- `{"message": …}` or `{"errors": {"param": "why"}}`
message_part : Option Value → List Text
unfolding trim
message_part none = []
message_part (some m) = elim (as_str m) [ none ↦ [] | some t ↦ trim t ∷ [] ]

module _ {W : Type 0} (net : Net W) where
  unfoldable pub error_part : Text × Value → Text
  unfolding trim str as_str
  error_part kv =
      kv.0 ++ (str ": " ++ trim (elim (as_str kv.1) [ none ↦ net.render kv.1 | some t ↦ t ]))

  unfoldable pub error_parts : Value → List Text
  unfolding message_part error_part field as_object entries str
  error_parts v =
      message_part (field (str "message") v)
      ++ (elim (and_then (field (str "errors") v) as_object) [
        | none ↦ []
        | some errs ↦ map error_part (entries errs)
      ])

  unfoldable pub error_message : Option Value → List ℕ → Text
  unfolding error_parts trim from_utf8_lossy join str
  error_message parsed raw =
      let parts : List Text = elim parsed [ none ↦ [] | some v ↦ error_parts v ] in
      let text = trim (take 300 (from_utf8_lossy raw)) in
      elim parts [ [] ↦ text | p ∷ ps ↦ join (str "; ") (p ∷ ps) ]

  abbrev taken : Option Value → Value
  taken none = null
  taken (some v) = v

  abbrev envelope : Text → Option Value → Result Envelope
  envelope what (some (object obj)) =
      ok (record { data_value = taken (get (str "data") obj); extra = remove (str "data") obj })
  envelope what other = err (str "PBS " ++ (what ++ str ": response is not a JSON object"))

  unfoldable pub parse_reply : Text → HttpReply → Result Envelope
  unfolding error_message str get remove show_nat
  parse_reply what reply =
      let parsed = net.from_slice reply.body in
      if leb 200 reply.status && ltb reply.status 300
      then envelope what parsed
      else err (
          str "PBS "
          ++ (what
              ++ (str ": HTTP "
                  ++ (show_nat reply.status ++ (str ": " ++ error_message parsed reply.body)))))

  unfoldable pub build : PbsClient → Method → Text → List (Text × Text) → Option Value → HttpCall
  unfolding encode_query header str
  build c method path query body =
      let url = c.base ++ (str "/api2/json" ++ path) in
      let headers =
        (str "authorization", header c.token) ∷ (str "accept", str "application/json") ∷ [] in
      record {
        method = method;
        url = elim query [ [] ↦ url | kv ∷ kvs ↦ url ++ (b'?' ∷ encode_query (kv ∷ kvs)) ];
        headers = elim body [
          | none ↦ headers
          | some v ↦ headers ++ ((str "content-type", str "application/json") ∷ [])
        ];
        body = elim body [ none ↦ none | some v ↦ some (net.to_vec v) ];
      }

  abbrev pub request_line : Method → Text → Text
  request_line method path = as_str_method method ++ (b' ' ∷ path)

  unfoldable pub call :
      PbsClient → Method → Text → List (Text × Text) → Option Value → Io W Envelope
  unfolding build parse_reply redact as_str_method str
  call c method path query body w =
      let (reply, w') = net.send (build c method path query body) w in
      (
        map_err (λ e. redact c.token (str "PBS " ++ (request_line method path ++ (str ": " ++ e))))
              reply
            >>= (λ r. map_err (redact c.token) (parse_reply (request_line method path) r)),
        w',
      )

  -- `get`, `post`, `put` and `delete`, read as a plain `Value`; `decode` is then the identity.
  abbrev pub get_envelope : PbsClient → Text → List (Text × Text) → Io W Envelope
  get_envelope c path query = call c get_method path query none

  abbrev data_of : Io W Envelope → Io W Value
  data_of m = bind m (λ env. pure env.data_value)

  unfoldable pub get_value : PbsClient → Text → List (Text × Text) → Io W Value
  unfolding call
  get_value c path query = data_of (call c get_method path query none)

  unfoldable pub post : PbsClient → Text → Value → Io W Value
  unfolding call
  post c path body = data_of (call c post_method path [] (some body))

  unfoldable pub put : PbsClient → Text → Value → Io W Value
  unfolding call
  put c path body = data_of (call c put_method path [] (some body))

  unfoldable pub delete : PbsClient → Text → List (Text × Text) → Io W Value
  unfolding call
  delete c path query = data_of (call c delete_method path query none)

  -- The status alone; any status is a success here.
  unfoldable pub status_of : PbsClient → Text → Io W ℕ
  unfolding build redact str
  status_of c path w =
      let (reply, w') = net.send (build c get_method path [] none) w in
      (
        map_err (λ e. redact c.token (str "PBS GET " ++ (path ++ (str ": " ++ e)))) reply
            >>= (λ r. ok r.status),
        w',
      )

  -- `decode` of the `data` member, by the deserialiser of the type that is asked for.
  abbrev decode : {A : Type 0} → (Value → Result A) → PbsClient → Value → Result A
  decode from_value c v =
      map_err (λ e. redact c.token (str "decode PBS response: " ++ e)) (from_value v)

  unfoldable pub get_as :
      {A : Type 0} → (Value → Result A) → PbsClient → Text → List (Text × Text) → Io W A
  unfolding call redact str
  get_as from_value c path query =
      bind (call c get_method path query none) (λ env. lift (decode from_value c env.data_value))

  unfoldable pub post_as : {A : Type 0} → (Value → Result A) → PbsClient → Text → Value → Io W A
  unfolding call redact str
  post_as from_value c path body =
      bind (call c post_method path [] (some body))
        (λ env. lift (decode from_value c env.data_value))

-- ===== src/Jwt.antt =====
-- utils/jwt/subject.go: the creation and the verification of tokens.
pub mod Verify
use freego.Prelude.{
  ℕ, ℤ, pos, ltb_ℤ, leb_ℤ, ◌+ℤ◌, wrap64, Text, String, codes, text_eq, ◌==◌, Bool, true, false, not,
  Option, none, some, List, [], ◌∷◌, ◌++◌, if◌then◌else◌,
}

-- What the tokens use of the cryptographic and the JSON library: HMAC in base64 and in hexadecimal,
-- base64, the reads of a JSON text, and the base64 of the JSON of a record. The local keys and the
-- clock are the process's.
pub record Crypto : Type 0 where
  pub hmac_sha256_base64 : Text → Text → Text
  pub hmac_sha256 : Text → Text → Text
  pub hmac_sha512 : Text → Text → Text
  pub base64_decode : Text → Text
  pub json_int : Text → Text → ℤ
  pub json_string : Text → Text → Text
  pub local_secret_key : Text
  pub local_token_secret_key : Text

pub record JwtConfig : Type 0 where
  pub token_key : Text
  pub token_alg : Text
  pub token_typ : Text
  pub token_exp : ℤ

pub record Header : Type 0 where
  pub alg : Text
  pub typ : Text

pub record Payload : Type 0 where
  pub sub : Text
  pub aud : Text
  pub iss : Text
  pub iat : ℤ
  pub exp : ℤ
  pub dev : Text
  pub jti : Text
  pub ext : Text

pub record Subject : Type 0 where
  pub header : Header
  pub payload : Payload
  pub token_bytes : Text
  pub payload_bytes : Text

-- utils.ToJsonBase64 of a header and of a payload; none is its error.
pub record Printer : Type 0 where
  pub header_base64 : Header → Option Text
  pub payload_base64 : Payload → Option Text

abbrev pub is_blank : Text → Bool
is_blank [] = true
is_blank _ = false

-- Create: the id `jti` is drawn by the caller. int64 arithmetic.
unfoldable pub create : ℤ → Text → Text → Subject → Subject
create now jti sub s = record s {
  payload = record {
    sub = sub;
    aud = [];
    iss = [];
    iat = pos 0;
    exp = wrap64 (now +ℤ pos 1209600);
    dev = [];
    jti = jti;
    ext = [];
  };
}

-- The common step of Expired and Generate.
unfoldable pub expired : ℤ → ℤ → Payload → Payload
expired now exp p =
    if ltb_ℤ (pos 0) exp
    then record p {
      exp = if ltb_ℤ (pos 0) p.iat then wrap64 (p.iat +ℤ exp) else wrap64 (now +ℤ exp);
    }
    else p

unfoldable pub signature : Crypto → Text → Text → Text
signature cr text key = cr.hmac_sha256_base64 text (cr.local_secret_key ++ key)

-- The two parts with a dot between them, or an empty text if one cannot be printed.
unfoldable pub joined : Option Text → Option Text → Text
joined (some h) (some p) = h ++ (codes "." ++ p)
joined _ _ = []

-- The header is set before it is printed, and the expiry of the payload after that.
generated : Option Text → Header → Payload → Subject → Subject
generated none header payload s = record s { header = header }
generated (some _) header payload s = record s { header = header; payload = payload }

-- Generate2
unfoldable pub generate2 : Printer → ℤ → JwtConfig → Subject → Text × Subject
unfolding expired joined generated
generate2 pr now config s =
    let header : Header = record { alg = config.token_alg; typ = config.token_typ } in
    let payload = expired now config.token_exp s.payload in
    (
      joined (pr.header_base64 header) (pr.payload_base64 payload),
      generated (pr.header_base64 header) header payload s,
    )

-- Generate signs what Generate2 returns.
unfoldable pub sign : Crypto → Text → Text → Text
unfolding signature
sign cr key [] = []
sign cr key part1 = part1 ++ (codes "." ++ signature cr part1 key)

unfoldable pub generate : Crypto → Printer → ℤ → JwtConfig → Subject → Text × Subject
unfolding generate2 sign
generate cr pr now config s =
    let r = generate2 pr now config s in (sign cr config.token_key r.0, r.1)

unfoldable pub get_token_secret : Crypto → Text → Text → Text
get_token_secret cr [] secret = []
get_token_secret cr token secret =
    let res = cr.hmac_sha512 (token ++ (cr.local_token_secret_key ++ cr.local_secret_key)) secret in
    cr.hmac_sha256 res secret ++ res

-- strings.Split(s, "."): the parts between the dots, one at least.
abbrev pub onto_first : ℕ → List Text → List Text
onto_first c [] = (c ∷ []) ∷ []
onto_first c (p ∷ ps) = (c ∷ p) ∷ ps

unfoldable pub split_dots : Text → List Text
split_dots [] = [] ∷ []
split_dots (c ∷ s) = if c == b'.' then [] ∷ split_dots s else onto_first c (split_dots s)

pub data Verdict : Type 0 where
  verified : Subject → Verdict
  rejected : String → Verdict

unfoldable pub get_string_value : Crypto → Text → Subject → Text
get_string_value cr k s = if is_blank s.payload_bytes then [] else cr.json_string s.payload_bytes k

-- The end of Verify, from the decoded payload on. `now` is utils.UnixSecond().
unfoldable pub verify_payload : Crypto → ℤ → Bool → Text → Subject → Verdict
unfolding get_string_value
verify_payload cr now decode b64 s =
    if is_blank b64
    then rejected "token part base64 data decode failed"
    else if leb_ℤ (cr.json_int b64 (codes "exp")) now
    then rejected "token expired or invalid"
    else if not decode
    then verified s
    else (let t = record s { payload_bytes = b64 } in
        verified
          (record t { payload = record t.payload { sub = get_string_value cr (codes "sub") t } }))

unfoldable pub verify_parts : Crypto → ℤ → Text → Bool → List Text → Subject → Verdict
unfolding verify_payload signature
verify_parts cr now key decode (part0 ∷ (part1 ∷ (part2 ∷ []))) s =
    if text_eq (signature cr (part0 ++ (codes "." ++ part1)) key) part2
    then verify_payload cr now decode (cr.base64_decode part1) s
    else rejected "token signature invalid"
verify_parts cr now key decode _ s = rejected "token part length invalid"

-- Verify
unfoldable pub verify : Crypto → ℤ → Text → Text → Bool → Subject → Verdict
unfolding split_dots verify_parts
verify cr now token key decode s =
    if is_blank token
    then rejected "token is nil"
    else verify_parts cr now key decode (split_dots token) s

unfoldable pub check_ready : Subject → Bool
check_ready s = not (is_blank s.payload.sub)

-- GetRawBytes
abbrev pub get_raw_bytes : Subject → Text
get_raw_bytes s = s.token_bytes

-- ===== src/Node/Render.antt =====
-- node/node_http.go: defaultRenderPre and defaultRenderTo, which write the response of a request, and
-- Json and Text of node/node.go, which set it.
pub mod Sealed
use freego.Prelude.{
  ℕ, ℤ, pos, eq_ℤ, format_int, Text, String, codes, text_eq, Bool, true, false, not, Option, none,
  some, List, [], ◌∷◌, ◌++◌, if◌then◌else◌,
}
use freego.Jwt.{is_blank, get_raw_bytes}
use freego.Node.Context.{Throw, Answer, done, thrown, Context, Encipher, Node}
use freego.Node.Request.{token_secret}

-- ContentEntity: nil, a string, or a value of another type, which is opaque. `empty_map` is the
-- package variable emptyMap.
pub data Entity : Type 0 where
  nil_entity empty_map : Entity
  text_entity : Text → Entity
  object_entity : ℕ → Entity

-- ContentType
pub data ContentType : Type 0 where
  text_plain application_json : ContentType
  other_type : Text → ContentType

pub record Response : Type 0 where
  pub content_type : ContentType
  pub content_entity : Entity
  pub status_code : ℤ
  pub content_entity_byte : Text

-- JsonResp; the data is a string where it is set.
pub record JsonResp : Type 0 where
  pub code : ℤ
  pub message : Text
  pub data_ : Text
  pub time : ℤ
  pub nonce : Text
  pub plan : ℤ
  pub sign : Text

-- The libraries that the rendering calls: JSON of an entity and of the response, with none for an
-- error, the clock, the nonce, AES and base64, and the remote service's encryption.
pub record Renderer : Type 0 where
  pub marshal : Entity → Option Text
  pub marshal_resp : JsonResp → Option Text
  pub unix_milli : ℤ
  pub rand_nonce : Text
  pub aes_encrypt2 : Text → Text → Text
  pub base64_encode : Text → Text
  pub token_encrypt : Text → Text → Option Text

-- The rest of a rendering, with the value of a call that returns an error for none.
abbrev pub with_value : {A B : Type 0} → Option A → ℕ → String → (A → Answer B) → Answer B
with_value none code msg f = thrown (record { code = pos code; msg = msg })
with_value (some a) code msg f = f a

abbrev pub then_do : {A B : Type 0} → Answer A → (A → Answer B) → Answer B
then_do (thrown t) f = thrown t
then_do (done a) f = f a

unfoldable pub get_storage : Text → List (Text × Text) → Option Text
get_storage k [] = none
get_storage k ((j, v) ∷ m) = if text_eq j k then some v else get_storage k m

-- GetHmac256Sign and its text, with the key or else the token's secret.
unfoldable pub signed_text : Context → Text → JsonResp → Text
signed_text c d r = c.path ++ (d ++ (r.nonce ++ (format_int r.time ++ format_int r.plan)))

unfoldable pub get_hmac256_sign : Node → Context → Text → JsonResp → Text → Text
unfolding signed_text
get_hmac256_sign node c d r key =
    node.crypto.hmac_sha256_base64 (signed_text c d r)
      (if is_blank key then token_secret node c else key)

-- TokenSignature of the remote service for the token.
unfoldable pub remote_sign : Encipher → Context → Text → JsonResp → Option Text
unfolding signed_text
remote_sign e c d r = e.token_signature (get_raw_bytes c.subject) (signed_text c d r)

-- The anonymous response, encrypted and signed with the random code of the client.
unfoldable pub coded_resp : Renderer → Node → Context → Text → JsonResp → Text → JsonResp
unfolding get_hmac256_sign
coded_resp rd node c plain r key =
    let d = rd.aes_encrypt2 plain key in
    let r' = record r { data_ = d; plan = pos 2 } in
    record r' { sign = get_hmac256_sign node c d r' key }

unfoldable pub random_resp : Renderer → Node → Context → Text → JsonResp → Answer JsonResp
unfolding coded_resp get_storage
random_resp rd node c plain r =
    if not (eq_ℤ c.json_body.plan (pos 2))
    then thrown (record { code = pos 0; msg = "anonymous response plan invalid" })
    else with_value (get_storage (codes "RandomCode") c.storage) 0 "encryption random code is nil"
        (λ key. done (coded_resp rd node c plain r key))

-- The response that is encrypted with the token's secret.
unfoldable pub aes_resp :
    Renderer → Node → Option Encipher → Context → Text → JsonResp → Answer JsonResp
unfolding get_hmac256_sign remote_sign
aes_resp rd node none c plain r =
    let d = rd.aes_encrypt2 plain (token_secret node c) in
    let r' = record r { data_ = d; plan = pos 1 } in
    done (record r' { sign = get_hmac256_sign node c d r' [] })
aes_resp rd node (some e) c plain r =
    with_value (rd.token_encrypt (get_raw_bytes c.subject) plain) 500
      "AES encryption response data failed"
      λ d.
        let r' = record r { data_ = d; plan = pos 1 } in
        with_value (remote_sign e c d r') 500 "encipher encryption response data failed"
          λ s. done (record r' { sign = s })

-- The response in base64.
unfoldable pub base64_resp :
    Renderer → Node → Option Encipher → Context → Text → JsonResp → Answer JsonResp
unfolding get_hmac256_sign remote_sign
base64_resp rd node none c plain r =
    let r' = record r { data_ = rd.base64_encode plain } in
    done (record r' { sign = get_hmac256_sign node c r'.data_ r' [] })
base64_resp rd node (some e) c plain r =
    let r' = record r { data_ = rd.base64_encode plain } in
    with_value (remote_sign e c r'.data_ r') 500 "encipher encryption response data failed"
      λ s. done (record r' { sign = s })

-- The response as it begins.
abbrev pub ok_resp : Renderer → JsonResp
ok_resp rd = record {
  code = pos 200;
  message = [];
  data_ = [];
  time = rd.unix_milli;
  nonce = rd.rand_nonce;
  plan = pos 0;
  sign = [];
}

unfoldable pub sealed_resp : Renderer → Node → Context → Text → Answer JsonResp
unfolding random_resp aes_resp base64_resp
sealed_resp rd node c plain =
    if c.router_config.use_rsa
    then random_resp rd node c plain (ok_resp rd)
    else if c.router_config.aes_response
    then aes_resp rd node node.encipher c plain (ok_resp rd)
    else base64_resp rd node node.encipher c plain (ok_resp rd)

abbrev pub written : Response → Text → Response
written p t = record p { content_entity_byte = p.content_entity_byte ++ t }

text_of : Entity → Text
text_of (text_entity t) = t
text_of _ = []

unfoldable pub render_json : Renderer → Node → Context → Response → Answer Response
unfolding sealed_resp
render_json rd node c p =
    if c.router_config.guest
    then with_value (rd.marshal p.content_entity) 500 "response JSON data failed"
        (λ t. done (written p t))
    else with_value (rd.marshal p.content_entity) 500 "response conversion JSON failed" (λ plain.
      then_do (sealed_resp rd node c plain) (λ r.
        with_value (rd.marshal_resp r) 500 "response JSON data failed" (λ t. done (written p t))))

unfoldable pub is_nil_entity : Entity → Bool
is_nil_entity nil_entity = true
is_nil_entity _ = false

unfoldable pub render_type : Renderer → Node → Context → Response → ContentType → Answer Response
unfolding render_json is_nil_entity text_of
render_type rd node c p text_plain = done (written p (text_of p.content_entity))
render_type rd node c p application_json =
    if is_nil_entity p.content_entity
    then thrown (record { code = pos 500; msg = "response ContentEntity is nil" })
    else render_json rd node c p
render_type rd node c p (other_type _) =
    thrown (record { code = pos 415; msg = "invalid response ContentType" })

-- defaultRenderPre; the random code, which it deletes from the storage, is not read again.
unfoldable pub default_render_pre : Renderer → Node → Context → Response → Answer Response
unfolding render_type
default_render_pre rd node c p = render_type rd node c p p.content_type

-- Json and Text
unfoldable pub json : Entity → Response → Response
json nil_entity p = record p { content_type = application_json; content_entity = empty_map }
json e p = record p { content_type = application_json; content_entity = e }

unfoldable pub text_response : Text → Response → Response
text_response t p = record p { content_type = text_plain; content_entity = text_entity t }

-- defaultRenderTo: the status and the body that are sent.
unfoldable pub default_render_to : Response → ℤ × Text
default_render_to p =
    ((if eq_ℤ p.status_code (pos 0) then pos 200 else p.status_code), p.content_entity_byte)

abbrev or_json : ContentType → ContentType
or_json (other_type []) = application_json
or_json t = t

-- resetResponse
unfoldable pub reset_response : Response → Response
reset_response p = record {
  content_type = or_json p.content_type;
  content_entity = nil_entity;
  status_code = pos 0;
  content_entity_byte = [];
}

-- ===== src/Node/Tests.antt =====
-- Runs of the node on a small application, and the theorems at these inputs.
use freego.Prelude.{
  ℤ, pos, format_int, ◌+ℤ◌, ◌-ℤ◌, wrap64, replicate, length, leb, Text, codes, text_eq, ◌≡◌, refl,
  Bool, true, false, none, some, [], ◌∷◌, ◌||◌, ◌++◌, if◌then◌else◌, arith,
}
use freego.Jwt.{
  Crypto, JwtConfig, Payload, Subject, Printer, verified, verify, generate, check_ready, expired,
  split_dots, verify_parts, verify_payload, signature, get_string_value,
}
use freego.Jwt.Verify.{verify-generate}
use freego.Node.Context.{no_data, Permission, done, Context, RequestCtx, Node}
use freego.Node.Request.{
  read_params, valid_signed, valid_text, read_secured, valid_json_body, valid_replay_attack,
  check_signature, request_key, decode_data, parsed, body_tests, check_int64, check_str_len,
  math_abs, replay_in,
}
use freego.Node.Filter.{
  default_filters, match_loop, do_chain, handle, has_access, do_filter, match_filter_url,
  session_filter, role_filter, authenticated,
}
use freego.Node.Filter.Roles.{pairs, all_held, has_access-pairs}
use freego.Node.Filter.Copies.{has_access-all}
use freego.Node.Filter.Urls.{is_nil, any_match, match_filter_url-any}
use freego.Node.Language.{
  find_names, close_name, lookup_text, fill_args, replace_all, replace_from, translate,
}
use freego.Node.Render.{
  Renderer, Response, application_json, empty_map, default_render_pre, render_type, render_json,
  is_nil_entity, sealed_resp, base64_resp,
}
use freego.Node.Render.Sealed.{Gives, IsSealedBody, default_render_pre-IsSealedBody}

-- A library that signs everything alike, decodes base64 as it stands, and finds in every JSON text
-- the same members.
abbrev member : Text → Text
member k =
    if text_eq k (codes "sub")
    then codes "7"
    else if text_eq k (codes "d")
    then codes "data"
    else replicate 40 b'x'

abbrev number : Text → ℤ
number k =
    if text_eq k (codes "exp") then pos 2000 else if text_eq k (codes "t") then pos 1000 else pos 0

abbrev crypto : Crypto
crypto = record {
  hmac_sha256_base64 = λ t k. replicate 40 b'x';
  hmac_sha256 = λ t k. codes "s";
  hmac_sha512 = λ t k. codes "r";
  base64_decode = λ t. t;
  json_int = λ b k. number k;
  json_string = λ b k. member k;
  local_secret_key = codes "l";
  local_token_secret_key = codes "m";
}

abbrev printer : Printer
printer = record { header_base64 = λ h. some (codes "h"); payload_base64 = λ p. some (codes "p") }

abbrev config : JwtConfig
config = record {
  token_key = codes "k";
  token_alg = codes "HS256";
  token_typ = codes "JWT";
  token_exp = pos 1000;
}

abbrev blank_payload : Payload
blank_payload = record {
  sub = codes "7";
  aud = [];
  iss = [];
  iat = pos 0;
  exp = pos 0;
  dev = [];
  jti = [];
  ext = [];
}

abbrev blank_subject : Subject
blank_subject = record {
  header = record { alg = []; typ = [] };
  payload = record blank_payload { sub = [] };
  token_bytes = [];
  payload_bytes = [];
}

abbrev user_subject : Subject
user_subject = record blank_subject { payload = blank_payload }

abbrev token : Text
token = codes "h.p." ++ replicate 40 b'x'

verify-generate_example :
    verify crypto
      (pos 1500)
      (generate crypto printer (pos 1000) config user_subject).0
      (codes "k")
      true
      blank_subject
    ≡ verified (record blank_subject {
      payload_bytes = codes "p";
      payload = record blank_payload { sub = codes "7" };
    })
unfolding signature expired wrap64 ◌+ℤ◌
verify-generate_example =
    verify-generate crypto printer (pos 1000) (pos 1500) config user_subject blank_subject
      (codes "h") (codes "p") refl refl refl refl refl refl refl refl refl refl

abbrev accepted : Subject
accepted = record blank_subject {
  payload_bytes = codes "p";
  payload = record blank_payload { sub = codes "7" };
}

abbrev permission : Bool → Permission
permission all = record {
  match_all = all;
  need_login = true;
  has_role = [];
  need_role = pos 1 ∷ (pos 2 ∷ []);
}

-- A user with one of the two roles, twice.
has_access-pairs_example :
    has_access (permission true) (pos 1 ∷ (pos 1 ∷ []))
    ≡ leb 2 (pairs (pos 1 ∷ (pos 1 ∷ [])) (pos 1 ∷ (pos 2 ∷ [])))
has_access-pairs_example =
    has_access-pairs (permission true) (pos 1 ∷ (pos 1 ∷ [])) refl (omega arith)

has_access-all_example :
    has_access (permission true) (pos 2 ∷ (pos 1 ∷ []))
    ≡ all_held (pos 1 ∷ (pos 2 ∷ [])) (pos 2 ∷ (pos 1 ∷ []))
has_access-all_example =
    has_access-all (permission true) (pos 2 ∷ (pos 1 ∷ [])) refl (omega arith) refl

abbrev node : Node
node = record {
  crypto = crypto;
  now = pos 1100;
  token_key = codes "k";
  rsa_public_key = [];
  rsa_decrypt = λ t. none;
  aes_decrypt = λ d k. none;
  encipher = none;
  cache_aware =
      some (record { ready = true; exists = λ signs s. some false; put = λ signs s. true });
  role_realm =
      some (λ c own. done (some (record (permission true) { has_role = pos 2 ∷ (pos 1 ∷ []) })));
  post_handle = λ c. (done tt, c);
}

abbrev request : RequestCtx
request = record { post_body = codes "{}"; header = λ k. token }

abbrev context : Context
context = record {
  method = codes "POST";
  path = codes "/user";
  router_config = record {
    guest = false;
    use_rsa = false;
    aes_request = false;
    aes_response = false;
  };
  subject = blank_subject;
  json_body = record { data_ = no_data; time = pos 0; nonce = []; plan = pos 0; sign = [] };
  storage = [];
  post_completed = false;
  put_signs = [];
  handled = [];
}

-- The request of the last example is handled.
request_handled : length ((do_chain node request default_filters context).1.handled) ≡ 1
unfolding do_chain default_filters handle read_params valid_signed valid_text read_secured
    valid_json_body valid_replay_attack check_signature request_key decode_data parsed body_tests
    check_int64 check_str_len math_abs replay_in do_filter match_filter_url session_filter
    role_filter authenticated has_access verify split_dots verify_parts verify_payload signature
    get_string_value wrap64 ◌-ℤ◌ check_ready
request_handled = refl

match_filter_url-any_example :
    match_filter_url (codes "/user/list") (codes "/login" ∷ (codes "/user/*" ∷ []))
    ≡ is_nil (codes "/login" ∷ (codes "/user/*" ∷ []))
      || any_match (codes "/user/list") (codes "/login" ∷ (codes "/user/*" ∷ []))
match_filter_url-any_example =
    match_filter_url-any (codes "/user/list") (codes "/login" ∷ (codes "/user/*" ∷ [])) refl

-- A prefix pattern that is longer than the path hides the patterns behind it.
url_order :
    (match_filter_url (codes "/a") (codes "/user/*" ∷ (codes "/a" ∷ [])) ≡ false)
    × (match_filter_url (codes "/a") (codes "/a" ∷ (codes "/user/*" ∷ [])) ≡ true)
unfolding match_filter_url match_loop
url_order = (refl, refl)

abbrev renderer : Renderer
renderer = record {
  marshal = λ e. some (codes "{}");
  marshal_resp = λ r. some r.data_;
  unix_milli = pos 1000;
  rand_nonce = codes "n";
  aes_encrypt2 = λ d k. codes "e" ++ d;
  base64_encode = λ d. codes "b" ++ d;
  token_encrypt = λ t d. some d;
}

abbrev blank_response : Response
blank_response = record {
  content_type = application_json;
  content_entity = empty_map;
  status_code = pos 0;
  content_entity_byte = [];
}

default_render_pre-IsSealedBody_example :
    Gives
      (IsSealedBody renderer node context blank_response)
      (default_render_pre renderer node context blank_response)
default_render_pre-IsSealedBody_example =
    default_render_pre-IsSealedBody renderer node context blank_response refl refl refl

base64_body :
    default_render_pre renderer node context blank_response
    ≡ done (record blank_response { content_entity_byte = codes "b{}" })
unfolding default_render_pre render_type render_json is_nil_entity sealed_resp base64_resp
base64_body = refl

-- A text with two arguments.
filled_test :
    fill_args 0 (codes "ann" ∷ (codes "7" ∷ [])) (codes "user $1 has $2") ≡ codes "user ann has 7"
unfolding fill_args replace_all replace_from format_int
filled_test = refl

-- The tenth argument is taken for the first one with a 0 behind it.
tenth_test : fill_args 0 (codes "a" ∷ []) (codes "$10") ≡ codes "a0"
unfolding fill_args replace_all replace_from format_int
tenth_test = refl

translate_test :
    translate
      ((codes "k", codes "hello $1") ∷ [])
      (codes "ann" ∷ [])
      (find_names 0 (codes "<${k}>"))
      (codes "<${k}>")
    ≡ codes "<hello ann>"
unfolding translate find_names close_name lookup_text fill_args replace_all replace_from format_int
translate_test = refl

-- ===== src/Node/Request.antt =====
-- node/node.go: readParams, validJsonBody and validReplayAttack, which check a request.
pub mod Checked
pub mod Login
use freego.Prelude.{
  ℕ, ℤ, pos, negsuc, ◌-ℤ◌, eq_ℤ, leb_ℤ, ltb_ℤ, wrap64, format_int, leb, ltb, length, Text, String,
  codes, text_eq, Bool, true, false, not, ◌&&◌, ◌||◌, Option, none, some, List, [], ◌∷◌, ◌++◌,
  if◌then◌else◌,
}
use freego.Jwt.{is_blank, get_token_secret, Subject}
use freego.Node.Context.{
  BodyData, no_data, string_data, raw_data, JsonBody, Answer, done, thrown, Context, RequestCtx,
  Cache, Encipher, Node, Act, ◌>>=◌, pure, throw, refuse_if, refuse_any, or_throw, add_storage,
}

-- utils.MathAbs: `n >> 63` is 0 or -1, and `n ^ -1` is -n - 1.
unfoldable pub math_abs : ℤ → ℤ
math_abs (pos n) = pos n
math_abs (negsuc n) = wrap64 (pos n -ℤ negsuc 0)

-- utils.CheckInt64
unfoldable pub check_int64 : ℤ → List ℤ → Bool
check_int64 c [] = false
check_int64 c (v ∷ vs) = if eq_ℤ v c then true else check_int64 c vs

-- utils.CheckStrLen, and utils.CheckLen of a string
unfoldable pub check_str_len : Text → ℕ → ℕ → Bool
check_str_len s low high = leb low (length s) && leb (length s) high

-- GetTokenSecret
unfoldable pub token_secret : Node → Context → Text
token_secret node c = get_token_secret node.crypto c.subject.token_bytes node.token_key

-- The end of validReplayAttack: the answers of Exists and of Put.
replay_put : Bool → Text → Act (Unit {0})
replay_put true sign c = pure tt (record c { put_signs = sign ∷ c.put_signs })
replay_put false sign c = throw 400 "cache replay attack value error" c

replay_known : Cache → Text → Option Bool → Act (Unit {0})
unfolding replay_put
replay_known cache sign none = throw 400 "replay attack invalid"
replay_known cache sign (some true) = throw 400 "replay attack invalid"
replay_known cache sign (some false) = λ c. replay_put (cache.put c.put_signs sign) sign c

unfoldable pub replay_in : Option Cache → Text → Act (Unit {0})
unfolding replay_known
replay_in none sign c = pure tt c
replay_in (some cache) sign c =
    refuse_if (not cache.ready) 400 "cache instance invalid"
      (replay_known cache sign (cache.exists c.put_signs sign)) c

-- validReplayAttack
unfoldable pub valid_replay_attack : Node → Text → Act (Unit {0})
unfolding replay_in
valid_replay_attack node sign = replay_in node.cache_aware sign

-- The key of an anonymous request, and an empty one otherwise.
encipher_key : Option Encipher → Text → Act Text
encipher_key none public = pure public
encipher_key (some e) public = or_throw e.config_ecdsa 0 "publicKey is nil"

unfoldable pub request_key : Node → Act Text
unfolding encipher_key
request_key node c =
    if c.router_config.use_rsa then encipher_key node.encipher node.rsa_public_key c else pure [] c

-- `checkBody`
unfoldable pub check_body : Context → Text → Text
check_body c d =
    c.path
    ++ (d ++ (c.json_body.nonce ++ (format_int c.json_body.time ++ format_int c.json_body.plan)))

-- `checkSign`, and the comparison with the signature of the body. The remote service is given the
-- checked text in place of the token, and an empty text.
expected_sign : Node → Option Encipher → Text → Text → Act Text
expected_sign node none body secret = pure (node.crypto.hmac_sha256_base64 body secret)
expected_sign node (some e) body secret =
    or_throw (e.token_signature body []) 400 "encipher request signature invalid"

unfoldable pub check_signature : Node → Text → Text → Act (Unit {0})
unfolding expected_sign
check_signature node d key c =
    ((if is_blank key
          then expected_sign node node.encipher (check_body c d) (token_secret node c)
          else pure (node.crypto.hmac_sha256_base64 (check_body c d) key))
        >>= λ sign c'.
            refuse_if (not (text_eq sign c'.json_body.sign)) 400 "request signature invalid"
              (pure tt) c')
      c

-- The decoding of `d` by the plan: base64 or AES with the token's secret, or AES with a random code
-- that the client encrypted for the server.
token_aes : Node → Option Encipher → Text → Act Text
token_aes node none d c =
    (or_throw (node.aes_decrypt d (token_secret node c)) 400 "AES failed to parse data" >>= λ raw.
    refuse_if (is_blank raw) 400 "AES failed to parse data is nil" (pure raw))
      c
token_aes node (some e) d c =
    or_throw (e.token_decrypt c.subject.token_bytes d) 400 "AES failed to parse data" c

random_code : Node → Option Encipher → Text → Act Text
random_code node none code =
    or_throw (node.rsa_decrypt code) 400 "server private-key decrypt failed"
random_code node (some e) code =
    or_throw (e.ecc_decrypt code) 400 "server private-key decrypt failed" >>= λ r.
    refuse_if (is_blank r) 400 "server private-key decrypt failed" (pure r)

code_aes : Node → RequestCtx → Text → Act Text
unfolding random_code add_storage
code_aes node req d =
    let client = req.header (codes "RandomCode") in
    refuse_if (ltb 1024 (length client)) 400 "client random code invalid" (
      refuse_if (is_blank client) 400 "client random code invalid" (
        random_code node node.encipher client >>= λ code.
        refuse_if (is_blank code) 400 "server private-key decrypt data is nil" (
          refuse_if (not (check_str_len code 64 128)) 400
            "client random code length must >= 64 and <= 128"
            (or_throw (node.aes_decrypt d code) 400 "AES failed to parse data" >>= λ raw.
              refuse_if (is_blank raw) 400 "AES failed to parse data is nil"
                (add_storage (codes "RandomCode") code >>= λ _. pure raw)))))

unfoldable pub decode_data : Node → RequestCtx → Text → Act Text
unfolding token_aes code_aes
decode_data node req d c =
    let plan = c.json_body.plan in
    let anonymous = c.router_config.use_rsa in
    if eq_ℤ plan (pos 0) && not anonymous
    then (let raw = node.crypto.base64_decode d in
        refuse_if (is_blank raw) 400 "parameter Base64 parsing failed" (pure raw) c)
    else if eq_ℤ plan (pos 1) && not anonymous
    then token_aes node node.encipher d c
    else if eq_ℤ plan (pos 2) && anonymous
    then code_aes node req d c
    else throw 400 "request parameters plan invalid" c

set_data : BodyData → Act (Unit {0})
set_data d c = pure tt (record c { json_body = record c.json_body { data_ = d } })

-- validJsonBody from the signature on.
unfoldable pub valid_signed : Node → RequestCtx → Text → Act (Unit {0})
unfolding set_data
valid_signed node req d c =
    (request_key node >>= λ key. check_signature node d key >>= λ _.
    valid_replay_attack node c.json_body.sign >>= λ _.
    decode_data node req d >>= λ raw. set_data (raw_data raw))
      c

-- The tests of validJsonBody in their order. FIVE_MINUTES is 300.
unfoldable pub body_tests : Node → Text → Context → List (Bool × String)
body_tests node d c =
    (is_blank d, "request data is nil")
    ∷ ((not (check_int64 c.json_body.plan (pos 0 ∷ pos 1 ∷ pos 2 ∷ [])), "request plan invalid")
        ∷ ((not (check_str_len c.json_body.nonce 32 96), "request nonce length invalid [32-96]")
            ∷ ((leb_ℤ c.json_body.time (pos 0), "request time must be > 0")
                ∷ ((
                  ltb_ℤ (pos 300) (math_abs (wrap64 (node.now -ℤ c.json_body.time))),
                  "request time invalid",
                )
                    ∷ ((
                      c.router_config.aes_request && not (eq_ℤ c.json_body.plan (pos 1)),
                      "request parameters must use AES encryption",
                    )
                        ∷ ((
                          not (check_str_len c.json_body.sign 32 96),
                          "request signature length invalid [32-96]",
                        )
                            ∷ ((
                              check_int64 c.json_body.plan (pos 0 ∷ pos 1 ∷ [])
                                  && is_blank c.subject.token_bytes,
                              "request header token is nil",
                            )
                                ∷ ((
                                  eq_ℤ c.json_body.plan (pos 2) && not c.router_config.use_rsa,
                                  "request parameters must use RSA encryption",
                                )
                                    ∷ []))))))))

-- validJsonBody of a body whose data is the string d.
unfoldable pub valid_text : Node → RequestCtx → Text → Act (Unit {0})
unfolding body_tests valid_signed
valid_text node req d c = refuse_any (body_tests node d c) (valid_signed node req d) c

unfoldable pub valid_json_body : Node → RequestCtx → Act (Unit {0})
unfolding valid_text
valid_json_body node req c = elim c.json_body.data_ [
  | string_data d ↦ valid_text node req d c
  | _ ↦ throw 400 "request data is nil" c
]

-- The fields of the body, read from its JSON text.
unfoldable pub parsed : Node → Text → JsonBody
parsed node body = record {
  data_ = string_data (node.crypto.json_string body (codes "d"));
  time = node.crypto.json_int body (codes "t");
  nonce = node.crypto.json_string body (codes "n");
  plan = node.crypto.json_int body (codes "p");
  sign = node.crypto.json_string body (codes "s");
}

-- The secured half of readParams.
unfoldable pub read_secured : Node → RequestCtx → Act (Unit {0})
unfolding valid_json_body parsed
read_secured node req c =
    let auth = req.header (codes "Authorization") in
    refuse_if (ltb 2048 (length auth)) 400 "authorization parameters length is too long"
      (λ c0.
        let c1 = record c0 { subject = record c0.subject { token_bytes = auth } } in
        refuse_if (is_blank req.post_body) 400 "body parameters is nil"
          (refuse_if (ltb 200000 (length req.post_body)) 411 "body parameters length is too long"
            (λ c2. valid_json_body node req (record c2 { json_body = parsed node req.post_body })))
          c1)
      c

-- readParams
unfoldable pub read_params : Node → RequestCtx → Act (Unit {0})
unfolding read_secured
read_params node req c =
    if not (text_eq c.method (codes "POST"))
    then pure tt c
    else if c.router_config.guest
    then (if is_blank req.post_body
        then pure tt c
        else pure tt
            (record c { json_body = record c.json_body { data_ = raw_data req.post_body } }))
    else read_secured node req c

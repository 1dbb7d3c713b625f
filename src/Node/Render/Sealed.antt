-- ===== src/Node/Render/Sealed.antt =====
-- What a response on a route that is not for guests holds.
use freego.Prelude.{
  pos, Text, codes, format_int, ◌++◌, ◌≡◌, refl, ◌⊎◌, inl, inr, Bool, true, false, Option, none,
  some, if◌then◌else◌,
}
use freego.Jwt.{is_blank}
use freego.Node.Context.{Throw, Answer, done, thrown, Context, Encipher, Node}
use freego.Node.Request.{token_secret}
use freego.Node.Render.{
  ContentType, text_plain, application_json, other_type, Response, JsonResp, Renderer, get_storage,
  get_hmac256_sign, signed_text, coded_resp, random_resp, aes_resp, base64_resp, ok_resp,
  sealed_resp, render_json, render_type, default_render_pre, with_value, then_do, written,
}

-- The local signature with this key of the path, the data, the nonce, the time and the plan.
abbrev IsSigned : Node → Context → JsonResp → Text → Type 0
IsSigned node c r key =
    r.sign
    ≡ node.crypto.hmac_sha256_base64
        (c.path ++ (r.data_ ++ (r.nonce ++ (format_int r.time ++ format_int r.plan)))) key

-- A response to an anonymous client, encrypted with the random code that it sent, and signed with
-- this code, or with the secret of the token if the code is blank.
abbrev IsAnonymous : Renderer → Node → Context → Text → JsonResp → Type 0
IsAnonymous rd node c plain r =
    (code : Text) × (get_storage (codes "RandomCode") c.storage ≡ some code)
    × (r.data_ ≡ rd.aes_encrypt2 plain code)
    × (r.plan ≡ pos 2)
    × IsSigned node c r (if is_blank code then token_secret node c else code)

-- A response to the holder of a token, signed with its secret, and encrypted with it if the route
-- says so.
abbrev IsForToken : Renderer → Node → Context → Text → JsonResp → Type 0
IsForToken rd node c plain r =
    ((c.router_config.aes_response ≡ true)
        × (r.data_ ≡ rd.aes_encrypt2 plain (token_secret node c))
        × (r.plan ≡ pos 1)
      ⊎ (c.router_config.aes_response ≡ false)
        × (r.data_ ≡ rd.base64_encode plain)
        × (r.plan ≡ pos 0))
    × IsSigned node c r (token_secret node c)

-- What is returned without an error satisfies P.
abbrev pub Gives : {A : Type 0} → (A → Type 0) → Answer A → Type 0
Gives P (thrown t) = Unit
Gives P (done a) = P a

random_case :
    (rd : Renderer) (node : Node) (c : Context) (plain : Text) (r : JsonResp) (b : Bool)
    (o : Option Text)
    → get_storage (codes "RandomCode") c.storage ≡ o
    → Gives (IsAnonymous rd node c plain) (
        if b
        then thrown (record { code = pos 0; msg = "anonymous response plan invalid" })
        else with_value o 0 "encryption random code is nil"
            (λ key. done (coded_resp rd node c plain r key)))
unfolding coded_resp get_hmac256_sign signed_text
random_case rd node c plain r true o h = tt
random_case rd node c plain r false none h = tt
random_case rd node c plain r false (some key) h = (key, h, refl, refl, refl)

token_case :
    (rd : Renderer) (node : Node) (c : Context) (plain : Text) (r : JsonResp) (b : Bool)
    (e : Option Encipher)
    → c.router_config.aes_response ≡ b
    → e ≡ none
    → r.plan ≡ pos 0
    → Gives
        (IsForToken rd node c plain)
        (if b then aes_resp rd node e c plain r else base64_resp rd node e c plain r)
unfolding aes_resp base64_resp get_hmac256_sign signed_text
token_case rd node c plain r b (some e) h none_set k = absurd cc
token_case rd node c plain r true none h none_set k = (inl (h, refl, refl), refl)
token_case rd node c plain r false none h none_set k = (inr (h, refl, k), refl)

-- A response that is sealed for the client of the route.
abbrev IsSealed : Renderer → Node → Context → Text → JsonResp → Type 0
IsSealed rd node c plain r =
    (c.router_config.use_rsa ≡ true) × IsAnonymous rd node c plain r
    ⊎ (c.router_config.use_rsa ≡ false) × IsForToken rd node c plain r

Gives-map :
    {A : Type 0} (P Q : A → Type 0) (a : Answer A) → ((x : A) → P x → Q x) → Gives P a → Gives Q a
Gives-map P Q (thrown t) f h = tt
Gives-map P Q (done a) f h = f a h

sealed_case :
    (P Q R : JsonResp → Type 0) (U : Bool → Type 0) (b : Bool) (x y : Answer JsonResp)
    → U b
    → Gives P x
    → Gives Q y
    → ((r : JsonResp) → U true → P r → R r)
    → ((r : JsonResp) → U false → Q r → R r)
    → Gives R (if b then x else y)
sealed_case P Q R U true x y u h k f g = Gives-map P R x (λ r. f r u) h
sealed_case P Q R U false x y u h k f g = Gives-map Q R y (λ r. g r u) k

sealed_resp-IsSealed :
    (rd : Renderer) (node : Node) (c : Context) (plain : Text)
    → node.encipher ≡ none
    → Gives (IsSealed rd node c plain) (sealed_resp rd node c plain)
unfolding sealed_resp random_resp
sealed_resp-IsSealed rd node c plain local =
    sealed_case (IsAnonymous rd node c plain) (IsForToken rd node c plain) _
      (λ b. c.router_config.use_rsa ≡ b) c.router_config.use_rsa _ _ refl
      (random_case rd node c plain (ok_resp rd) _ _ refl)
      (token_case rd node c plain (ok_resp rd) _ node.encipher refl local refl)
      (λ r u h. inl (u, h)) (λ r u h. inr (u, h))

-- The body is the JSON of a sealed response, behind what the response held.
abbrev pub IsSealedBody : Renderer → Node → Context → Response → Response → Type 0
IsSealedBody rd node c p p' =
    (plain : Text) × (r : JsonResp) × (t : Text) × (rd.marshal p.content_entity ≡ some plain)
    × IsSealed rd node c plain r
    × (rd.marshal_resp r ≡ some t)
    × (p' ≡ written p t)

module _ (rd : Renderer) (node : Node) (c : Context) (p : Response) where
  resp_case :
      (plain : Text) (r : JsonResp) (o : Option Text)
      → rd.marshal p.content_entity ≡ some plain
      → IsSealed rd node c plain r
      → rd.marshal_resp r ≡ o
      → Gives
          (IsSealedBody rd node c p)
          (with_value o 500 "response JSON data failed" (λ t. done (written p t)))
  resp_case plain r none h k e = tt
  resp_case plain r (some t) h k e = (plain, r, t, h, k, e, refl)

  answer_case :
      (plain : Text) (a : Answer JsonResp)
      → rd.marshal p.content_entity ≡ some plain
      → Gives (IsSealed rd node c plain) a
      → Gives (IsSealedBody rd node c p) (
          then_do a (λ r.
            with_value
              (rd.marshal_resp r)
              500
              "response JSON data failed"
              (λ t. done (written p t))))
  answer_case plain (thrown t) h k = tt
  answer_case plain (done r) h k = resp_case plain r (rd.marshal_resp r) h k refl

  plain_case :
      (b : Bool) (o : Option Text)
      → b ≡ false
      → node.encipher ≡ none
      → rd.marshal p.content_entity ≡ o
      → Gives (IsSealedBody rd node c p) (
          if b
          then with_value o 500 "response JSON data failed" (λ t. done (written p t))
          else with_value o 500 "response conversion JSON failed" (λ plain.
            then_do (sealed_resp rd node c plain) (λ r.
              with_value
                (rd.marshal_resp r)
                500
                "response JSON data failed"
                (λ t. done (written p t)))))
  plain_case true o g local h = absurd cc
  plain_case false none g local h = tt
  plain_case false (some plain) g local h =
      answer_case plain (sealed_resp rd node c plain) h (sealed_resp-IsSealed rd node c plain local)

  nil_case :
      (b : Bool) (t : Throw) (a : Answer Response)
      → Gives (IsSealedBody rd node c p) a
      → Gives (IsSealedBody rd node c p) (if b then thrown t else a)
  nil_case true t a h = tt
  nil_case false t a h = h

  type_case :
      (ct : ContentType)
      → ct ≡ application_json
      → c.router_config.guest ≡ false
      → node.encipher ≡ none
      → Gives (IsSealedBody rd node c p) (render_type rd node c p ct)
  unfolding render_type render_json
  type_case text_plain e g local = absurd cc
  type_case application_json e g local =
      nil_case _ _ _ (plain_case c.router_config.guest _ g local refl)
  type_case (other_type t) e g local = absurd cc

-- On a route that is not for guests, with the local cipher, a JSON response that defaultRenderPre writes
-- without an error is sealed for its client. On a route for anonymous clients its data is encrypted
-- with the random code that the client sent, and it is signed with this code, or with the secret of
-- the token if the code is blank; on any other route it is signed with the secret of the token, and
-- its data is encrypted with it if the route says so, and in base64 otherwise. The signature is of
-- the path, the data, the nonce, the time and the plan.
pub default_render_pre-IsSealedBody :
    (rd : Renderer) (node : Node) (c : Context) (p : Response)
    → p.content_type ≡ application_json
    → c.router_config.guest ≡ false
    → node.encipher ≡ none
    → Gives (IsSealedBody rd node c p) (default_render_pre rd node c p)
unfolding default_render_pre
default_render_pre-IsSealedBody rd node c p e g local =
    type_case rd node c p p.content_type e g local

-- ===== src/Node/Context.antt =====
-- node/node.go: the context of a request, and what a handler of it does.
use freego.Prelude.{ℕ, ℤ, pos, Text, String, Bool, true, false, Option, none, some, List, [], ◌∷◌}
use freego.Jwt.{Crypto, Subject}

pub record RouterConfig : Type 0 where
  pub guest : Bool
  pub use_rsa : Bool
  pub aes_request : Bool
  pub aes_response : Bool

-- `Data interface{}`: nil, a string, or the bytes that the validation has decoded.
pub data BodyData : Type 0 where
  no_data : BodyData
  string_data raw_data : Text → BodyData

pub record JsonBody : Type 0 where
  pub data_ : BodyData
  pub time : ℤ
  pub nonce : Text
  pub plan : ℤ
  pub sign : Text

pub record Permission : Type 0 where
  pub match_all : Bool
  pub need_login : Bool
  pub has_role : List ℤ
  pub need_role : List ℤ

-- ex.Throw, as far as the node fills it: a code, 0 if none is given, and the message.
pub record Throw : Type 0 where
  pub code : ℤ
  pub msg : String

pub data Answer {ℓ} (A : Type ℓ) : Type ℓ where
  done : A → Answer A
  thrown : Throw → Answer A

-- A request that was passed to the handler of its route.
pub record Handled : Type 0 where
  pub path : Text
  pub subject : Subject
  pub data_ : BodyData

-- Context. `put_signs` holds the signatures that were put into the cache, and `handled` the
-- requests that reached postHandle.
pub record Context : Type 0 where
  pub method : Text
  pub path : Text
  pub router_config : RouterConfig
  pub subject : Subject
  pub json_body : JsonBody
  pub storage : List (Text × Text)
  pub post_completed : Bool
  pub put_signs : List Text
  pub handled : List Handled

-- fasthttp.RequestCtx: the body, and the headers by their names.
pub record RequestCtx : Type 0 where
  pub post_body : Text
  pub header : Text → Text

-- The cache of CacheAware, whose answers may depend on the signatures put before: Exists, none for
-- its error, and whether Put succeeds. `ready` tells whether CacheAware returns a cache.
pub record Cache : Type 0 where
  pub ready : Bool
  pub exists : List Text → Text → Option Bool
  pub put : List Text → Text → Bool

-- EncipherClient, a remote service; none is an error.
pub record Encipher : Type 0 where
  pub config_ecdsa : Option Text
  pub token_signature : Text → Text → Option Text
  pub token_decrypt : Text → Text → Option Text
  pub ecc_decrypt : Text → Option Text

-- What the node reads besides the context: the libraries, the clock, and the handlers of the
-- application.
pub record Node : Type 0 where
  pub crypto : Crypto
  pub now : ℤ
  pub token_key : Text
  pub rsa_public_key : Text
  pub rsa_decrypt : Text → Option Text
  pub aes_decrypt : Text → Text → Option Text
  pub encipher : Option Encipher
  pub cache_aware : Option Cache
  pub role_realm : Option (Context → Bool → Answer (Option Permission))
  pub post_handle : Context → Answer (Unit {0}) × Context

-- A method of the context: it returns a value or throws, and leaves a context.
abbrev pub Act : Type 0 → Type 0
Act A = Context → Answer A × Context

abbrev pub continue : {A B : Type 0} → Answer A × Context → (A → Act B) → Answer B × Context
continue (thrown t, c) f = (thrown t, c)
continue (done a, c) f = f a c

infixl 5 ◌>>=◌
abbrev pub ◌>>=◌ : {A B : Type 0} → Act A → (A → Act B) → Act B
◌>>=◌ m f c = continue (m c) f

abbrev pub pure : {A : Type 0} → A → Act A
pure a c = (done a, c)

abbrev pub throw : {A : Type 0} → ℕ → String → Act A
throw code msg c = (thrown (record { code = pos code; msg = msg }), c)

-- `if b { return ex.Throw{…} }`
abbrev pub refuse_if : {A : Type 0} → Bool → ℕ → String → Act A → Act A
refuse_if true code msg m = throw code msg
refuse_if false code msg m = m

-- A row of such tests, each with the code 400.
abbrev pub refuse_any : {A : Type 0} → List (Bool × String) → Act A → Act A
refuse_any [] m = m
refuse_any ((b, msg) ∷ tests) m = refuse_if b 400 msg (refuse_any tests m)

-- The value of a call that returns an error for none.
abbrev pub or_throw : {A : Type 0} → Option A → ℕ → String → Act A
or_throw none code msg = throw code msg
or_throw (some a) code msg = pure a

-- AddStorage; an empty value is no nil, and is stored.
unfoldable pub add_storage : Text → Text → Act (Unit {0})
add_storage [] v c = (done tt, c)
add_storage k v c = (done tt, record c { storage = (k, v) ∷ c.storage })

-- ===== src/Node/Request/Login.antt =====
-- What a request is that readParams lets pass on a route that wants a login.
use freego.Prelude.{
  pos, ◌-ℤ◌, ltb_ℤ, wrap64, format_int, Text, codes, text_eq, true, false, ◌++◌, ◌≡◌, ◌⊎◌,
}
use freego.Jwt.{get_token_secret}
use freego.Node.Context.{BodyData, Context, RequestCtx, Node}
use freego.Node.Request.{math_abs, token_secret, check_body}
use freego.Node.Request.Checked.{is_unseen, remember}

-- A request was sent by POST, with a token in its header, and a body that was signed with the
-- token's secret together with the path at most 300 seconds ago, or ahead; the signature was not
-- seen before, and is remembered.
pub record IsChecked (node : Node) (req : RequestCtx) (c d : Context) : Type 0 where
  pub by_post : text_eq c.method (codes "POST") ≡ true
  pub signed :
      node.crypto.hmac_sha256_base64
        (c.path
          ++ (node.crypto.json_string req.post_body (codes "d")
              ++ (node.crypto.json_string req.post_body (codes "n")
                  ++ (format_int (node.crypto.json_int req.post_body (codes "t"))
                      ++ format_int (node.crypto.json_int req.post_body (codes "p"))))))
        (get_token_secret node.crypto (req.header (codes "Authorization")) node.token_key)
      ≡ node.crypto.json_string req.post_body (codes "s")
  pub recent :
      ltb_ℤ
        (pos 300)
        (math_abs (wrap64 (node.now -ℤ node.crypto.json_int req.post_body (codes "t"))))
      ≡ false
  pub unseen :
      is_unseen node.cache_aware c.put_signs (node.crypto.json_string req.post_body (codes "s"))
      ≡ true
  pub remembered :
      d.put_signs
      ≡ remember node.cache_aware c.put_signs (node.crypto.json_string req.post_body (codes "s"))
  pub subject : d.subject ≡ record c.subject { token_bytes = req.header (codes "Authorization") }
  pub config : d.router_config ≡ c.router_config
  pub completed : d.post_completed ≡ c.post_completed
  pub kept : d.handled ≡ c.handled

-- What the second half of validJsonBody leaves.
record IsSigned (node : Node) (c : Context) (d : Text) (e : Context) : Type 0 where
  signed : node.crypto.hmac_sha256_base64 (check_body c d) (token_secret node c) ≡ c.json_body.sign
  unseen : is_unseen node.cache_aware c.put_signs c.json_body.sign ≡ true
  data_ : BodyData
  left : e ≡ record c {
    json_body = record c.json_body { data_ = data_ };
    put_signs = remember node.cache_aware c.put_signs c.json_body.sign;
  }

-- What readParams leaves on a route that wants a login: a checked request, or one that was not
-- sent by POST, as it was.
abbrev pub IsRead : Node → RequestCtx → Context → Unit {0} → Context → Type 0
IsRead node req c _ d = IsChecked node req c d ⊎ (d ≡ c)

abbrev with_token : RequestCtx → Context → Context
with_token req c = record c {
  subject = record c.subject { token_bytes = req.header (codes "Authorization") };
}

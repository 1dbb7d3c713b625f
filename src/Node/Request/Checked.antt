-- ===== src/Node/Request/Checked.antt =====
-- The steps of validJsonBody: what holds when they return, and that they handle nothing.
use mathlib.Core.Path.{subst}
use freego.Prelude.{
  ℕ, pos, eq_ℤ, Text, String, text_eq, eq_of_text_eq, Bool, true, false, not, ◌&&◌, Option, none,
  some, List, [], ◌∷◌, if◌then◌else◌, ◌≡◌, refl, ap, ◌∙◌, sym, arith,
}
use freego.Jwt.{is_blank}
use freego.Node.Context.{
  Answer, done, thrown, Context, RequestCtx, Cache, Encipher, Node, Act, continue, pure, refuse_if,
  refuse_any, or_throw,
}
use freego.Node.Request.{
  token_secret, replay_put, replay_known, replay_in, request_key, encipher_key, check_body,
  expected_sign, check_signature, token_aes, decode_data,
}

-- Nothing was handled on the way to an error, and Q holds of what was returned.
abbrev pub Ended : {A : Type 0} → (A → Context → Type 0) → Context → Answer A × Context → Type 0
Ended Q c (thrown t, d) = d.handled ≡ c.handled
Ended Q c (done a, d) = Q a d

pub record Ends {A : Type 0} (Q : A → Context → Type 0) (c : Context) (r : Answer A × Context)
    : Type 0 where
  pub at : Ended Q c r

module _ {A : Type 0} {Q : A → Context → Type 0} (c0 c : Context) (h : c.handled ≡ c0.handled) where
  pub Ends-refuse :
      (b : Bool) (code : ℕ) (msg : String) (m : Act A)
      → (b ≡ false → Ends Q c0 (m c))
      → Ends Q c0 (refuse_if b code msg m c)
  Ends-refuse true code msg m k = record { at = h }
  Ends-refuse false code msg m k = k refl

  Ends-or_throw :
      (o : Option A) (code : ℕ) (msg : String)
      → ((a : A) → Q a c)
      → Ends Q c0 (or_throw o code msg c)
  Ends-or_throw none code msg k = record { at = h }
  Ends-or_throw (some a) code msg k = record { at = k a }

  pub Ends-if :
      (b : Bool) (m n : Answer A × Context)
      → (b ≡ true → Ends Q c0 m)
      → (b ≡ false → Ends Q c0 n)
      → Ends Q c0 (if b then m else n)
  Ends-if true m n k l = k refl
  Ends-if false m n k l = l refl

pub Ends-bind :
    {A B : Type 0} {P : A → Context → Type 0} {Q : B → Context → Type 0} (c0 : Context)
    (r : Answer A × Context) (f : A → Act B)
    → Ends P c0 r
    → ((a : A) (d : Context) → P a d → Ends Q c0 (f a d))
    → Ends Q c0 (continue r f)
Ends-bind c0 (thrown t, d) f h k = record { at = h.at }
Ends-bind c0 (done a, d) f h k = k a d h.at

pub Ends-map :
    {A : Type 0} {P Q : A → Context → Type 0} (c : Context) (r : Answer A × Context)
    → Ends P c r
    → ((a : A) (d : Context) → P a d → Q a d)
    → Ends Q c r
Ends-map c (thrown t, d) h f = record { at = h.at }
Ends-map c (done a, d) h f = record { at = f a d h.at }

pub Ends-from :
    {A : Type 0} {Q : A → Context → Type 0} (c d : Context) (r : Answer A × Context)
    → d.handled ≡ c.handled
    → Ends Q d r
    → Ends Q c r
Ends-from c d (thrown t, e) h k = record { at = k.at ∙ h }
Ends-from c d (done a, e) h k = record { at = k.at }

-- None of the tests holds.
abbrev pub NoneHolds : List (Bool × String) → Type 0
NoneHolds [] = Unit
NoneHolds ((b, _) ∷ tests) = (b ≡ false) × NoneHolds tests

pub Ends-refuse_any :
    {A : Type 0} {Q : A → Context → Type 0} (c : Context) (tests : List (Bool × String)) (m : Act A)
    → (NoneHolds tests → Ends Q c (m c))
    → Ends Q c (refuse_any tests m c)
Ends-refuse_any c [] m k = k tt
Ends-refuse_any c ((true, msg) ∷ tests) m k = record { at = refl }
Ends-refuse_any c ((false, msg) ∷ tests) m k = Ends-refuse_any c tests m (λ h. k (refl, h))

-- The cache, if there is one, does not have the signature, and remembers it afterwards.
abbrev is_new : Option Bool → Bool
is_new (some false) = true
is_new _ = false

unfoldable pub is_unseen : Option Cache → List Text → Text → Bool
is_unseen none signs sign = true
is_unseen (some cache) signs sign = is_new (cache.exists signs sign)

unfoldable pub remember : Option Cache → List Text → Text → List Text
remember none signs sign = signs
remember (some cache) signs sign = sign ∷ signs

abbrev pub Replayed : Option Cache → Text → Context → Unit {0} → Context → Type 0
Replayed cache sign c _ d =
    (is_unseen cache c.put_signs sign ≡ true)
    × (d ≡ record c { put_signs = remember cache c.put_signs sign })

put_case :
    (cache : Cache) (sign : Text) (c : Context) (b : Bool)
    → is_new (cache.exists c.put_signs sign) ≡ true
    → Ends (Replayed (some cache) sign c) c (replay_put b sign c)
unfolding replay_put is_unseen remember
put_case cache sign c true h = record { at = (h, refl) }
put_case cache sign c false h = record { at = refl }

known_case :
    (cache : Cache) (sign : Text) (c : Context) (seen : Option Bool)
    → is_new (cache.exists c.put_signs sign) ≡ is_new seen
    → Ends (Replayed (some cache) sign c) c (replay_known cache sign seen c)
unfolding replay_known
known_case cache sign c none e = record { at = refl }
known_case cache sign c (some true) e = record { at = refl }
known_case cache sign c (some false) e = put_case cache sign c (cache.put c.put_signs sign) e

pub replay-Ends :
    (cache : Option Cache) (sign : Text) (c : Context)
    → Ends (Replayed cache sign c) c (replay_in cache sign c)
unfolding replay_in is_unseen remember
replay-Ends none sign c = record { at = (refl, refl) }
replay-Ends (some cache) sign c =
    Ends-refuse c c refl (not cache.ready) 400 "cache instance invalid"
      (replay_known cache sign (cache.exists c.put_signs sign))
      (λ _. known_case cache sign c (cache.exists c.put_signs sign) refl)

pub not-false : (b : Bool) → not b ≡ false → b ≡ true
not-false true h = refl
not-false false h = sym h

not_both : (a b : Bool) → b ≡ false → (a && b) ≡ true → ⊥
not_both a b h k = ground arith

module _ (node : Node) (req : RequestCtx) (c : Context) (login : c.router_config.use_rsa ≡ false)
    (local : node.encipher ≡ none) where
  pub signature-Ends :
      (d : Text)
      → Ends
          (λ _ e.
            (node.crypto.hmac_sha256_base64 (check_body c d) (token_secret node c)
              ≡ c.json_body.sign)
            × (e ≡ c))
          c
          (check_signature node d [] c)
  unfolding check_signature expected_sign
  signature-Ends d =
      let sign = node.crypto.hmac_sha256_base64 (check_body c d) (token_secret node c) in
      subst
        (λ o.
          Ends (λ _ e. (sign ≡ c.json_body.sign) × (e ≡ c)) c
            (continue (expected_sign node o (check_body c d) (token_secret node c) c) (λ s c'.
              refuse_if (not (text_eq s c'.json_body.sign)) 400 "request signature invalid"
                (pure tt) c')))
        (sym local)
        (Ends-refuse c c refl (not (text_eq sign c.json_body.sign)) 400 "request signature invalid"
          (pure tt)
          (λ h. record {
            at = (
              eq_of_text_eq sign c.json_body.sign (not-false (text_eq sign c.json_body.sign) h),
              refl,
            );
          }))

  token_aes-Ends : (o : Option Encipher) (d : Text) → Ends (λ _ e. e ≡ c) c (token_aes node o d c)
  unfolding token_aes
  token_aes-Ends none d =
      Ends-bind c
        (or_throw (node.aes_decrypt d (token_secret node c)) 400 "AES failed to parse data" c) _
        (Ends-or_throw c c refl (node.aes_decrypt d (token_secret node c)) 400
          "AES failed to parse data" (λ a. refl))
        (λ raw e q.
          Ends-refuse c e (ap (λ x. x.handled) q) (is_blank raw) 400
            "AES failed to parse data is nil" (pure raw) (λ _. record { at = q }))
  token_aes-Ends (some o) d =
      Ends-or_throw c c refl (o.token_decrypt c.subject.token_bytes d) 400
        "AES failed to parse data" (λ a. refl)

  pub decode-Ends : (d : Text) → Ends (λ _ e. e ≡ c) c (decode_data node req d c)
  unfolding decode_data
  decode-Ends d =
      Ends-if c c refl (eq_ℤ c.json_body.plan (pos 0) && not c.router_config.use_rsa) _ _
        (λ _.
          Ends-refuse c c refl (is_blank (node.crypto.base64_decode d)) 400
            "parameter Base64 parsing failed" (pure (node.crypto.base64_decode d))
            (λ _. record { at = refl }))
        (λ _.
          Ends-if c c refl (eq_ℤ c.json_body.plan (pos 1) && not c.router_config.use_rsa) _ _
            (λ _. token_aes-Ends node.encipher d)
            (λ _.
              Ends-if c c refl (eq_ℤ c.json_body.plan (pos 2) && c.router_config.use_rsa) _ _
                (λ h.
                  absurd (not_both (eq_ℤ c.json_body.plan (pos 2)) c.router_config.use_rsa login h))
                (λ _. record { at = refl })))

  pub key-Ends : Ends (λ key e. (key ≡ []) × (e ≡ c)) c (request_key node c)
  unfolding request_key
  key-Ends =
      subst
        (λ b.
          Ends (λ key e. (key ≡ []) × (e ≡ c)) c
            (if b then encipher_key node.encipher node.rsa_public_key c else (done [], c)))
        (sym login) (record { at = (refl, refl) })

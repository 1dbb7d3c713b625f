-- ===== src/Jwt/Verify.antt =====
-- What a verified token is, and that a generated token is verified.
use mathlib.Core.Bool.{false≢true}
use mathlib.Core.List.{append_assoc}
use freego.Prelude.{
  ℕ, ℤ, ltb_ℤ, leb_ℤ, Text, codes, text_eq_refl, ◌==◌, ◌≡◌, refl, ◌∙◌, sym, arith, Bool, true,
  false, some, List, [], ◌∷◌, ◌++◌, if◌then◌else◌,
}
use freego.Jwt.{
  Crypto, JwtConfig, Subject, Printer, is_blank, expired, signature, generate, generate2, joined,
  sign, split_dots, Verdict, verified, rejected, get_string_value, verify_payload, verify_parts,
  verify,
}

-- No dot in the text.
abbrev pub has_dot : Text → Bool
has_dot [] = false
has_dot (c ∷ s) = if c == b'.' then true else has_dot s

no_dot : (b r : Bool) → (if b then true else r) ≡ false → (b ≡ false) × (r ≡ false)
no_dot b r h = ground arith

split_dots-plain : (s : Text) → has_dot s ≡ false → split_dots s ≡ s ∷ []
unfolding split_dots
split_dots-plain [] h = refl
split_dots-plain (c ∷ s) h =
    let (p, q) = no_dot (c == b'.') (has_dot s) h in rw p (rw (split_dots-plain s q) refl)

split_dots-append :
    (s t : Text) → has_dot s ≡ false → split_dots (s ++ (codes "." ++ t)) ≡ s ∷ split_dots t
unfolding split_dots
split_dots-append [] t h = refl
split_dots-append (c ∷ s) t h =
    let (p, q) = no_dot (c == b'.') (has_dot s) h in rw p (rw (split_dots-append s t q) refl)

-- The text with these three parts.
abbrev pub parts : Text → Text → Text → Text
parts a b c = a ++ (codes "." ++ (b ++ (codes "." ++ c)))

-- The token is a header, a payload and the signature of both under the local key and the given
-- one; the payload has not expired; and the subject of s is the payload's.
pub record IsGenuine (cr : Crypto) (now : ℤ) (key token : Text) (s : Subject) : Type 0 where
  pub head : Text
  pub body : Text
  pub of_parts :
      split_dots token
      ≡ head
        ∷ (body
            ∷ (cr.hmac_sha256_base64 (head ++ (codes "." ++ body)) (cr.local_secret_key ++ key)
                ∷ []))
  pub fresh : leb_ℤ (cr.json_int (cr.base64_decode body) (codes "exp")) now ≡ false
  pub payload : s.payload_bytes ≡ cr.base64_decode body
  pub subject : s.payload.sub ≡ cr.json_string (cr.base64_decode body) (codes "sub")

abbrev Meets : (Subject → Type 0) → Verdict → Type 0
Meets P (verified t) = P t
Meets P (rejected _) = Unit

abbrev Told : Crypto → ℤ → Text → Subject → Type 0
Told cr now b64 t =
    (leb_ℤ (cr.json_int b64 (codes "exp")) now ≡ false)
    × (t.payload_bytes ≡ b64)
    × (t.payload.sub ≡ cr.json_string b64 (codes "sub"))

generate-parts :
    (cr : Crypto) (pr : Printer) (now : ℤ) (config : JwtConfig) (s : Subject) (c : ℕ) (h p : Text)
    → pr.header_base64 (record { alg = config.token_alg; typ = config.token_typ }) ≡ some (c ∷ h)
    → pr.payload_base64 (expired now config.token_exp s.payload) ≡ some p
    → (generate cr pr now config s).0
      ≡ parts (c ∷ h) p (signature cr ((c ∷ h) ++ (codes "." ++ p)) config.token_key)
unfolding generate generate2 sign joined
generate-parts cr pr now config s c h p eh ep =
    rw (eh, generate) (rw (ep, generate) (append_assoc (c ∷ h) (codes "." ++ p) (codes "." ++ _)))

payload-verified :
    (cr : Crypto) (later exp : ℤ) (b64 sub : Text) (t : Subject)
    → is_blank b64 ≡ false
    → cr.json_int b64 (codes "exp") ≡ exp
    → cr.json_string b64 (codes "sub") ≡ sub
    → ltb_ℤ later exp ≡ true
    → verify_payload cr later true b64 t
      ≡ verified (record t { payload_bytes = b64; payload = record t.payload { sub = sub } })
unfolding verify_payload get_string_value
payload-verified cr later exp [] sub t b e js lt = absurd (false≢true (sym b))
payload-verified cr later exp (c ∷ b64) sub t b e js lt =
    let k : leb_ℤ exp later ≡ false = ground (arith, lt) in rw e (rw k (rw js refl))

parts-verified :
    (cr : Crypto) (later : ℤ) (key : Text) (c : ℕ) (h p sig : Text) (t : Subject)
    → has_dot (c ∷ h) ≡ false
    → has_dot p ≡ false
    → has_dot sig ≡ false
    → signature cr ((c ∷ h) ++ (codes "." ++ p)) key ≡ sig
    → verify cr later (parts (c ∷ h) p sig) key true t
      ≡ verify_payload cr later true (cr.base64_decode p) t
unfolding verify verify_parts
parts-verified cr later key c h p sig t dh dp ds e =
    rw (split_dots-append (c ∷ h) (p ++ (codes "." ++ sig)) dh) (
      rw (split_dots-append p sig dp)
        (rw (split_dots-plain sig ds) (rw e (rw (text_eq_refl sig) refl))))

-- A token that Generate returned is verified under the same configuration as long as it has not
-- expired, and the user is the one it was generated for. Base64 has no dot and is decoded to the
-- JSON text, which is not empty and has the payload's `exp` and `sub`; the header's base64 is not
-- empty.
pub verify-generate :
    (cr : Crypto) (pr : Printer) (now later : ℤ) (config : JwtConfig) (s t : Subject) (h p : Text)
    → pr.header_base64 (record { alg = config.token_alg; typ = config.token_typ }) ≡ some h
    → pr.payload_base64 (expired now config.token_exp s.payload) ≡ some p
    → has_dot h ≡ false
    → is_blank h ≡ false
    → has_dot p ≡ false
    → has_dot (signature cr (h ++ (codes "." ++ p)) config.token_key) ≡ false
    → is_blank (cr.base64_decode p) ≡ false
    → cr.json_int (cr.base64_decode p) (codes "exp") ≡ (expired now config.token_exp s.payload).exp
    → cr.json_string (cr.base64_decode p) (codes "sub") ≡ s.payload.sub
    → ltb_ℤ later (expired now config.token_exp s.payload).exp ≡ true
    → verify cr later (generate cr pr now config s).0 config.token_key true t
      ≡ verified (record t {
        payload_bytes = cr.base64_decode p;
        payload = record t.payload { sub = s.payload.sub };
      })
verify-generate cr pr now later config s t [] p eh ep dh bh dp ds bp je js lt =
    absurd (false≢true (sym bh))
verify-generate cr pr now later config s t (c ∷ h) p eh ep dh bh dp ds bp je js lt =
    rw (generate-parts cr pr now config s c h p eh ep) (
      parts-verified cr later config.token_key c h p _ t dh dp ds refl
      ∙ payload-verified cr later _ (cr.base64_decode p) _ t bp je js lt)

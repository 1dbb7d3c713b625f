-- ===== src/Node/Language.antt =====
-- node/node_http.go: ErrorMsgToLang, and defaultRenderError, which writes the response of an error.
use freego.Prelude.{
  ℕ, zero, suc, ◌+◌, ◌-◌, ◌==◌, ℤ, pos, leb_ℤ, length, format_int, Text, codes, text_eq, Bool, true,
  false, ◌&&◌, Option, none, some, List, [], ◌∷◌, ◌++◌, if◌then◌else◌,
}
use freego.Jwt.{is_blank}
use freego.Node.Context.{Context}
use freego.Node.Render.{text_plain, application_json, Response, Renderer, ok_resp, written}

-- The rest of a match of `\$\{([^}]+)\}` behind its `${`: the name, with the part acc of it read.
unfoldable pub close_name : Text → Text → Option Text
close_name acc [] = none
close_name acc (c ∷ s) =
    let rest = close_name (acc ++ c ∷ []) s in
    if c == b'}' then (if is_blank acc then none else some acc) else rest

abbrev open_name : Text → Option Text
open_name [] = none
open_name (c ∷ s) = if c == b'{' then close_name [] s else none

-- SPEL.FindAllStringSubmatch: the names of the matches, from left to right; the bytes of a match that
-- was found are passed over.
unfoldable pub find_names : ℕ → Text → List Text
unfolding close_name
find_names n [] = []
find_names (suc n) (c ∷ s) = find_names n s
find_names zero (c ∷ s) =
    let rest = find_names 0 s in
    if c == b'$'
    then (elim (open_name s) [ none ↦ rest | some name ↦ name ∷ find_names (length name + 2) s ])
    else rest

abbrev starts_with : Text → Text → Bool
starts_with [] s = true
starts_with (c ∷ p) [] = false
starts_with (c ∷ p) (d ∷ s) = c == d && starts_with p s

-- strings.ReplaceAll of a text that is not empty.
unfoldable pub replace_from : ℕ → Text → Text → Text → Text
replace_from n old new [] = []
replace_from (suc n) old new (c ∷ s) = replace_from n old new s
replace_from zero old new (c ∷ s) =
    let hit = replace_from (length old - 1) old new s in
    let miss = replace_from 0 old new s in if starts_with old (c ∷ s) then new ++ hit else c ∷ miss

unfoldable pub replace_all : Text → Text → Text → Text
unfolding replace_from
replace_all s old new = replace_from 0 old new s

-- The loop over the arguments, which fills `$1`, `$2` and so on in turn.
unfoldable pub fill_args : ℕ → List Text → Text → Text
unfolding replace_all
fill_args i [] fill = fill
fill_args i (arg ∷ args) fill =
    fill_args (suc i) args (replace_all fill (codes "$" ++ format_int (pos (suc i))) arg)

unfoldable pub lookup_text : Text → List (Text × Text) → Text
lookup_text k [] = []
lookup_text k ((j, v) ∷ m) = if text_eq j k then v else lookup_text k m

-- The loop over the matches; a name without a text is left as it is.
unfoldable pub translate : List (Text × Text) → List Text → List Text → Text → Text
unfolding lookup_text fill_args replace_all
translate lang_kv args [] msg = msg
translate lang_kv args (name ∷ names) msg =
    let kv = lookup_text name lang_kv in
    let next =
      if is_blank kv
      then msg
      else replace_all msg (codes "${" ++ (name ++ codes "}")) (fill_args 0 args kv) in
    translate lang_kv args names next

-- The languages of Configs.
pub record Languages : Type 0 where
  pub default_lang : Text
  pub lang_configs : List (Text × List (Text × Text))

unfoldable pub texts_of : Text → List (Text × List (Text × Text)) → List (Text × Text)
texts_of lang [] = []
texts_of lang ((l, kv) ∷ ls) = if text_eq l lang then kv else texts_of lang ls

abbrev or_default : List (Text × Text) → List (Text × Text) → List (Text × Text)
or_default [] d = d
or_default kv d = kv

-- The texts of the client's language, or else those of the default one. Without a default language
-- `texts_of []` is empty, since AddLanguage takes no empty name.
unfoldable pub client_texts : Languages → Text → List (Text × Text)
unfolding texts_of
client_texts l [] = if is_blank l.default_lang then [] else texts_of l.default_lang l.lang_configs
client_texts l (c ∷ lang) =
    or_default (texts_of (c ∷ lang) l.lang_configs)
      (if is_blank l.default_lang then [] else texts_of l.default_lang l.lang_configs)

-- ErrorMsgToLang
unfoldable pub error_msg_to_lang : Languages → Text → Text → List Text → Text
unfolding client_texts find_names translate
error_msg_to_lang l lang msg args = translate (client_texts l lang) args (find_names 0 msg) msg

-- The error as ex.Catch returns it.
pub record Caught : Type 0 where
  pub code : ℤ
  pub msg : Text
  pub arg : List Text

error_text : Renderer → Response → Text → Option Text → Response
error_text rd p failure none = written (record p { content_type = text_plain }) failure
error_text rd p failure (some t) = written (record p { content_type = application_json }) t

-- defaultRenderError, behind the errorHandle of the application; `failure` is the text of the error
-- of JsonMarshal.
unfoldable pub default_render_error :
    Renderer → Context → Languages → Text → Text → Caught → Response → Response
unfolding error_msg_to_lang error_text
default_render_error rd c l lang failure out p =
    let message = error_msg_to_lang l lang out.msg out.arg in
    if c.router_config.guest
    then written
        (record p {
          status_code = if leb_ℤ out.code (pos 600) then out.code else p.status_code;
          content_type = text_plain;
        })
        message
    else error_text rd p failure
        (rd.marshal_resp (record (ok_resp rd) { code = out.code; message = message }))

-- ===== src/Router/Body.antt =====
-- `readJSONBody`, `requestLang` and `baseURL` of bkcam-go/main.go: what the handlers read of a request.
-- `unmarshal` is json.Unmarshal into a map: `none` is an error, `some none` the nil map that a JSON null gives.
use bk7252n_gate.Prelude.{
  ℕ, ◌+◌, ◌*◌, [], ◌++◌, Option, none, some, take, length, ltb, if◌then◌else◌, Text, text, is_empty,
}
use bk7252n_gate.Input.{Object, Result, ok, err, bad_request}
use bk7252n_gate.Input.Strings.{trim_space}
use bk7252n_gate.Pages.{normalize_lang}

-- What the handlers read of an http.Request: `query_lang` is the query's `lang`, `cookie_lang` the cookie
-- `bkcam_lang`; the body is `none` when reading it fails.
pub record Request : Type 0 where
  pub method : Text
  pub path : Text
  pub host : Text
  pub forwarded_proto : Text
  pub query_lang : Text
  pub cookie_lang : Option Text
  pub body : Option Text

abbrev pub body_limit : ℕ
body_limit = 128 * 1024

module _ {F : Type 0} (unmarshal : Text → Option (Option (Object F))) where
  unfoldable pub parse_body : Text → Result (Option (Object F))
  parse_body b =
      if ltb body_limit (length b)
      then err (record { status = 413; msg = text "request body too large" })
      else if is_empty (trim_space b)
      then ok (some [])
      else elim (unmarshal b) [
        | none ↦ err (record { status = bad_request; msg = text "invalid JSON body" })
        | some body ↦ ok body
      ]

  -- The reader stops one byte past the limit; a read that fails is no `apiError`.
  unfoldable pub read_json_body : Option Text → Result (Option (Object F))
  read_json_body none = err (record { status = 500; msg = text "body not read" })
  read_json_body (some sent) = parse_body (take (body_limit + 1) sent)

unfoldable pub cookie_lang_or : Option Text → Text → Text
cookie_lang_or none fallback = fallback
cookie_lang_or (some cookie) fallback =
    if is_empty (normalize_lang cookie) then fallback else normalize_lang cookie

unfoldable pub request_lang : Request → Text
request_lang r =
    if is_empty (normalize_lang r.query_lang)
    then cookie_lang_or r.cookie_lang (text "ru")
    else normalize_lang r.query_lang

unfoldable pub base_url : Request → Text
base_url r =
    let host = if is_empty r.host then text "127.0.0.1" else r.host in
    let proto = if is_empty r.forwarded_proto then text "http" else r.forwarded_proto in
    proto ++ (text "://" ++ host)

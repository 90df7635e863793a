-- ===== src/Csrf.antt =====
-- `CsrfMiddleware` of app/csrf.py. A request is what the middleware reads of it; the parsing of its
-- form is Starlette's, a parameter from the content type and the buffered body to the value of the field.
pub mod Admitted
use hivesync.Prelude.{
  ℕ, ◌+◌, Bool, true, false, not, ◌&&◌, ◌||◌, Option, none, some, List, [], ◌∷◌, ◌++◌, Text, codes,
  text_eq, strip, non_empty, ltb, if◌then◌else◌, length, map,
}
use hivesync.Prelude.Parts.{partition, head_of, lowercase}
use hivesync.Parsers.{member}

abbrev pub safe_methods : List Text
safe_methods = codes "GET" ∷ codes "HEAD" ∷ codes "OPTIONS" ∷ codes "TRACE" ∷ []

abbrev pub form_types : List Text
form_types = codes "application/x-www-form-urlencoded" ∷ codes "multipart/form-data" ∷ []

abbrev pub max_buffered_body : ℕ
max_buffered_body = 8388608

-- A message of the ASGI server: a part of the body and whether more follows, or the end.
pub data Message : Type 0 where
  body_part : Text → Bool → Message
  disconnect : Message

pub record HttpRequest : Type 0 where
  pub is_http : Bool
  pub method : Text
  pub authorization : Text
  pub session_token : Option Text
  pub header_token : Option Text
  pub content_type : Text
  pub messages : List Message

pub data Decision : Type 0 where
  -- The application gets the request, with the body that was buffered for it if any was.
  passed : Option Text → Decision
  forbidden : Decision
  entity_too_large : Decision

-- `hmac.compare_digest` of the presented token and the configured one.
unfoldable pub api_token_authenticated : Option Text → Text → Bool
api_token_authenticated none authorization = false
api_token_authenticated (some token) authorization =
    let (scheme, presented) = partition 32 authorization in
    non_empty (strip token)
    && text_eq (lowercase scheme) (codes "bearer")
    && non_empty presented
    && text_eq (strip presented) (strip token)

unfoldable pub matches : Option Text → Option Text → Bool
matches none presented = false
matches (some expected) none = false
matches (some expected) (some presented) =
    non_empty expected && (non_empty presented && text_eq presented expected)

-- `_buffer`: the parts read so far, their total, and `none` for a body that is too large.
unfoldable pub buffer : Text → ℕ → List Message → Option Text
buffer chunks total [] = some chunks
buffer chunks total (disconnect ∷ ms) = some chunks
buffer chunks total (body_part chunk more ∷ ms) =
    let rest = buffer (chunks ++ chunk) (total + length chunk) ms in
    if ltb max_buffered_body (total + length chunk)
    then none
    else if more
    then rest
    else some (chunks ++ chunk)

abbrev pub given : Option Text → Bool
given none = false
given (some t) = non_empty t

abbrev pub by_form : (Text → Option Text) → Option Text → Option Text → Decision
by_form form_token expected none = entity_too_large
by_form form_token expected (some body) =
    if matches expected (form_token body) then passed (some body) else forbidden

-- `CsrfMiddleware.__call__`
unfoldable pub admit : (Text → Text → Option Text) → Option Text → HttpRequest → Decision
unfolding api_token_authenticated matches buffer
admit form_token api_token r =
    if not r.is_http
    then passed none
    else if member r.method safe_methods || api_token_authenticated api_token r.authorization
    then passed none
    else if given r.header_token
    then (if matches r.session_token r.header_token then passed none else forbidden)
    else if not (member (lowercase (strip (head_of 59 r.content_type))) form_types)
    then forbidden
    else by_form (form_token r.content_type) r.session_token (buffer [] 0 r.messages)

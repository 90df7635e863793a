-- ===== src/Csrf/Admitted.antt =====
-- The requests that the middleware of app/csrf.py lets through.
use hivesync.Prelude.{
  ℕ, ◌+◌, ◌≤◌, ◌≡◌, refl, ◌⊎◌, inl, inr, true, false, Bool-cases, Option, none, some, if◌then◌else◌,
  List, [], ◌∷◌, ◌++◌, Text, length, length-append, non_empty, strip, codes, text_eq→eq, arith,
}
use hivesync.Prelude.Parts.{partition, lowercase}
use hivesync.Parsers.{member}
use hivesync.Csrf.{
  Message, body_part, disconnect, HttpRequest, passed, safe_methods, api_token_authenticated,
  matches, buffer, by_form, admit, given,
}

-- A body that is buffered is within the limit, if what was read before it is.
buffer-bound :
    (chunks : Text) (total : ℕ) (ms : List Message) (body : Text)
    → length chunks ≡ total
    → total ≤ 8388608
    → buffer chunks total ms ≡ some body
    → length body ≤ 8388608
unfolding buffer
buffer-bound chunks total [] body e h done = ground (arith, e, h, done)
buffer-bound chunks total (disconnect ∷ ms) body e h done = ground (arith, e, h, done)
buffer-bound chunks total (body_part chunk more ∷ ms) body e h done = ground (
  arith,
  e,
  h,
  done,
  length-append chunks chunk,
  buffer-bound (chunks ++ chunk) (total + length chunk) ms body,
)

matches-token :
    (expected shown : Option Text)
    → matches expected shown ≡ true
    → (token : Text) × (expected ≡ some token) × (non_empty token ≡ true) × (shown ≡ some token)
unfolding matches
matches-token none shown h = ground (arith, h)
matches-token (some e) none h = ground (arith, h)
matches-token (some e) (some p) h = (e, refl, ground (arith, h), ground (arith, h, text_eq→eq p e))

-- The token that a request presents: its header's, or else its form's.
abbrev pub presented : (Text → Text → Option Text) → HttpRequest → Option Text
presented form_token r =
    if given r.header_token
    then r.header_token
    else elim (buffer [] 0 r.messages) [ none ↦ none | some body ↦ form_token r.content_type body ]

by_form-passed :
    (form : Text → Option Text) (expected buffered body : Option Text)
    → by_form form expected buffered ≡ passed body
    → (b : Text) × (buffered ≡ some b) × (body ≡ some b) × (matches expected (form b) ≡ true)
by_form-passed form expected none body h = ground (arith, h)
by_form-passed form expected (some b) body h = (b, refl, ground (arith, h), ground (arith, h))

module _ (form_token : Text → Text → Option Text) (api_token : Option Text) (r : HttpRequest) where
  -- The request bears the API token that is configured, which is not blank.
  abbrev pub BearsToken : Type 0
  BearsToken =
      (token : Text) × (api_token ≡ some token)
      × (non_empty (strip token) ≡ true)
      × (lowercase (partition 32 r.authorization).0 ≡ codes "bearer")
      × (strip (partition 32 r.authorization).1 ≡ strip token)

  -- What lets an unsafe request through.
  abbrev pub HasToken : Type 0
  HasToken =
      BearsToken
      ⊎ ((token : Text) × (r.session_token ≡ some token)
          × (non_empty token ≡ true)
          × (presented form_token r ≡ some token))

  bearer_of :
      (configured : Option Text)
      → api_token ≡ configured
      → api_token_authenticated configured r.authorization ≡ true
      → BearsToken
  unfolding api_token_authenticated
  bearer_of none same h = ground (arith, h)
  bearer_of (some token) same h =
      let (scheme, shown) = partition 32 r.authorization in
      (
        token,
        same,
        ground (arith, h),
        text_eq→eq (lowercase (partition 32 r.authorization).0) (codes "bearer")
            (ground (arith, h)),
        text_eq→eq (strip (partition 32 r.authorization).1) (strip token) (ground (arith, h)),
      )

  header-HasToken :
      given r.header_token ≡ true → matches r.session_token r.header_token ≡ true → HasToken
  header-HasToken there same =
      let (token, expected, named, shown) = matches-token r.session_token r.header_token same in
      inr (token, expected, named, ground (arith, there, shown))

  form-HasToken :
      (body : Option Text)
      → given r.header_token ≡ false
      → by_form (form_token r.content_type) r.session_token (buffer [] 0 r.messages) ≡ passed body
      → HasToken × ((b : Text) → body ≡ some b → length b ≤ 8388608)
  form-HasToken body missing done =
      let (b, read, same, matched) =
        by_form-passed (form_token r.content_type) r.session_token (buffer [] 0 r.messages) body
          done in
      let (token, expected, named, shown) =
        matches-token r.session_token (form_token r.content_type b) matched in
      (
        inr (token, expected, named, ground (arith, missing, read, shown)),
        λ b' same'.
            let equal : b ≡ b' = ground (arith, same, same') in
            rw (← equal) (buffer-bound [] 0 r.messages b refl (omega arith) read),
      )

  -- An HTTP request that can change state reaches the application only with a bearer token that is
  -- the configured API token, not blank, but for spaces around them, or with the session's own token, not empty, in its header or its form; and a body that
  -- was buffered for it is at most 8 MiB. The form's parser is any function.
  pub admitted_has_token :
      (body : Option Text)
      → r.is_http ≡ true
      → member r.method safe_methods ≡ false
      → admit form_token api_token r ≡ passed body
      → HasToken × ((b : Text) → body ≡ some b → length b ≤ 8388608)
  unfolding admit
  admitted_has_token body http unsafe ok =
      elim (Bool-cases (api_token_authenticated api_token r.authorization)) [
        | inl token ↦ (
          inl (bearer_of api_token refl token),
          λ b same. ground (arith, http, unsafe, token, ok, same),
        )
        | inr other ↦ elim (Bool-cases (given r.header_token)) [
          | inl there ↦ (
            header-HasToken there (ground (arith, http, unsafe, other, there, ok)),
            λ b same. ground (arith, http, unsafe, other, there, ok, same),
          )
          | inr missing ↦
              form-HasToken body missing (ground (arith, http, unsafe, other, missing, ok))
        ]
      ]

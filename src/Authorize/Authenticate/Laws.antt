-- ===== src/Authorize/Authenticate/Laws.antt =====
-- Who passes the check of the token.
use Prim.Native.String
use auth_operator.Base.{
  String, Option, none, some, true, false, ◌==◌, eq_iff, eq-false_iff, ◌≡◌, ◌≢◌, refl, ap, ◌∙◌, ◌↔◌,
  ◌⊎◌, inl, inr, arith, Bool-cases, Option-cases, cut_prefix,
}
use auth_operator.Policy.Labels.{Fallible, ok, failed}
use auth_operator.Policy.Matcher.Greedy.{cut_prefix-eq-some, cut_prefix_eq}
use auth_operator.Authorize.Authenticate.{
  TokenSettings, token_of, expected_bearer_token, constant_time_token_equal, shown_token,
  check_token, authenticate_request,
}

-- The token to show: the one set, or the trimmed content of the file set, which is not empty.
abbrev pub Expects : TokenSettings → String → Type 0
Expects settings token =
    ((settings.bearer_token_file ≡ "") × (settings.bearer_token ≡ token))
    ⊎ ((settings.bearer_token_file ≢ "")
        × ((content : String) × (settings.read_file settings.bearer_token_file ≡ ok content)
            × (settings.trim_space content ≡ token)
            × (token ≢ "")))

-- No token is set, and the callers without one are let in; or the header shows, behind "Bearer ", a
-- token with the digest of the one to show, neither of them empty.
abbrev pub Authenticated : TokenSettings → String → Type 0
Authenticated settings authorization =
    ((settings.bearer_token_file ≡ "")
      × (settings.bearer_token ≡ "")
      × (settings.allow_unauthenticated_authorize ≡ true))
    ⊎ ((expected : String) × (token : String) × Expects settings expected
        × (expected ≢ "")
        × (authorization ≡ String.◌++◌ "Bearer " token)
        × (token ≢ "")
        × (settings.sum256 token ≡ settings.sum256 expected))

module _ (settings : TokenSettings) where
  token_of-eq-some_iff :
      (f : Fallible String) (token : String)
      → (token_of settings f ≡ some token) ↔ (
          (content : String) × (f ≡ ok content)
          × (settings.trim_space content ≡ token)
          × (token ≢ ""))
  token_of-eq-some_iff (failed e) token = (λ h. cc, λ t. (let (c, e', trimmed, full) = t in cc))
  token_of-eq-some_iff (ok content) token = (
    λ h. elim (Bool-cases (settings.trim_space content == "")) [
      | inl blank ↦ (let e : none ≡ some token = ground arith in cc)
      | inr full ↦
          let e : settings.trim_space content ≡ token = ground arith in
          (
            content,
            refl,
            e,
            rw (← e) ((eq-false_iff _ (eq_iff (settings.trim_space content) "")).0 full),
          )
    ],
    λ t.
        let (c, e, trimmed, full) = t in
        let same : content ≡ c = cc in
        let trim : settings.trim_space content ≡ token = ap settings.trim_space same ∙ trimmed in
        let test : (token == "") ≡ false = (eq-false_iff _ (eq_iff token "")).1 full in
        (let here : (settings.trim_space content == "") ≡ false = rw trim test in ground arith),
  )

  expected_bearer_token-eq-some_iff :
      (token : String) → (expected_bearer_token settings ≡ some token) ↔ Expects settings token
  unfolding expected_bearer_token
  expected_bearer_token-eq-some_iff token = elim (Bool-cases (settings.bearer_token_file == "")) [
    | inl plain ↦ ground (arith, eq_iff settings.bearer_token_file "")
    | inr file ↦ ground (
      arith,
      eq_iff settings.bearer_token_file "",
      token_of-eq-some_iff (settings.read_file settings.bearer_token_file) token,
    )
  ]

  shown_token_iff :
      (expected : String) (authorization : String)
      → (shown_token settings expected (cut_prefix authorization "Bearer ") ≡ true) ↔ (
          (token : String) × (authorization ≡ String.◌++◌ "Bearer " token)
          × (token ≢ "")
          × (settings.sum256 token ≡ settings.sum256 expected))
  unfolding constant_time_token_equal
  shown_token_iff expected authorization = (
    λ h. elim (Option-cases (cut_prefix authorization "Bearer ")) [
      | inl no_token ↦ (let e : false ≡ true = ground arith in cc)
      | inr (token, e) ↦ elim (Bool-cases (token == "")) [
        | inl blank ↦ (let c : false ≡ true = ground arith in cc)
        | inr full ↦ (
          token,
          cut_prefix-eq-some authorization "Bearer " e,
          (eq-false_iff _ (eq_iff token "")).0 full,
          (eq_iff (settings.sum256 token) (settings.sum256 expected)).0 (ground arith),
        )
      ]
    ],
    λ t.
        let (token, front, full, digest) = t in
        let cut = cut_prefix_eq authorization "Bearer " token front in
        let test : (token == "") ≡ false = (eq-false_iff _ (eq_iff token "")).1 full in
        let same = (eq_iff (settings.sum256 token) (settings.sum256 expected)).1 digest in
        ground arith,
  )

  check_token_iff :
      (authorization : String) (o : Option String)
      → expected_bearer_token settings ≡ o
      → (check_token settings authorization o ≡ true) ↔ Authenticated settings authorization
  check_token_iff authorization none e = (
    λ h. cc,
    λ a. elim a [
      | inl (file, blank, lets) ↦
          (let x : expected_bearer_token settings ≡ some "" =
              (expected_bearer_token-eq-some_iff "").1 (inl (file, blank)) in
            cc)
      | inr (expected, token, x, named, front, full, digest) ↦
          (let y : expected_bearer_token settings ≡ some expected =
              (expected_bearer_token-eq-some_iff expected).1 x in
            cc)
    ],
  )
  check_token_iff authorization (some expected) e =
      let shown = shown_token_iff expected authorization in
      let test = eq_iff expected "" in
      let expects = (expected_bearer_token-eq-some_iff expected).0 e in
      (
        λ h. elim (Bool-cases (expected == "")) [
          | inl blank ↦ elim expects [
            | inl (file, token) ↦ inl (file, token ∙ test.0 blank, ground arith)
            | inr (file, (content, read, trim, full)) ↦ absurd (full (test.0 blank))
          ]
          | inr named ↦
              let (token, front, full, digest) = shown.0 (ground arith) in
              inr (expected, token, expects, (eq-false_iff _ test).0 named, front, full, digest)
        ],
        λ a. elim a [
          | inl (file, blank, lets) ↦
              let x : expected_bearer_token settings ≡ some "" =
                (expected_bearer_token-eq-some_iff "").1 (inl (file, blank)) in
              let same : expected ≡ "" = cc in let hit = test.1 same in ground arith
          | inr (other, token, x, named, front, full, digest) ↦
              let y : expected_bearer_token settings ≡ some other =
                (expected_bearer_token-eq-some_iff other).1 x in
              let same : other ≡ expected = cc in
              let miss = (eq-false_iff _ test).1 (rw (← same) named) in
              let hit = shown.1 (token, front, full, digest ∙ ap settings.sum256 same) in
              ground arith
        ],
      )

-- A request passes exactly when it is authenticated: no token is set and the settings let such
-- requests in, or its header shows a token, not empty, whose digest is that of the token set, or of
-- the file's content.
pub authenticate_request_iff :
    (settings : TokenSettings) (authorization : String)
    → (authenticate_request settings authorization ≡ true) ↔ Authenticated settings authorization
unfolding authenticate_request
authenticate_request_iff settings authorization =
    check_token_iff settings authorization (expected_bearer_token settings) refl

-- ===== src/Authorize/Authenticate.antt =====
-- webhook_authorizer.go: the bearer token that the caller has to show.
pub mod Laws
use auth_operator.Base.{
  String, Option, none, some, Bool, true, false, not, ◌==◌, if◌then◌else◌, cut_prefix,
}
use auth_operator.Policy.Labels.{Fallible, ok, failed}

-- The fields of `Authorizer` for the token; and os.ReadFile, strings.TrimSpace and sha256.Sum256.
pub record TokenSettings : Type 0 where
  pub bearer_token : String
  pub bearer_token_file : String
  pub allow_unauthenticated_authorize : Bool
  pub read_file : String → Fallible String
  pub trim_space : String → String
  pub sum256 : String → String

abbrev pub token_of : TokenSettings → Fallible String → Option String
token_of settings (failed error) = none
token_of settings (ok content) =
    let token = settings.trim_space content in if token == "" then none else some token

-- `none` is an error.
unfoldable pub expected_bearer_token : TokenSettings → Option String
expected_bearer_token settings =
    if settings.bearer_token_file == ""
    then some settings.bearer_token
    else token_of settings (settings.read_file settings.bearer_token_file)

unfoldable pub constant_time_token_equal : TokenSettings → String → String → Bool
constant_time_token_equal settings a b = settings.sum256 a == settings.sum256 b

abbrev pub shown_token : TokenSettings → String → Option String → Bool
shown_token settings expected none = false
shown_token settings expected (some token) =
    if token == "" then false else constant_time_token_equal settings token expected

abbrev pub check_token : TokenSettings → String → Option String → Bool
check_token settings authorization none = false
check_token settings authorization (some expected) =
    if expected == ""
    then settings.allow_unauthenticated_authorize
    else shown_token settings expected (cut_prefix authorization "Bearer ")

-- `authenticateRequest`, by the header Authorization; a request that fails is answered as denied.
unfoldable pub authenticate_request : TokenSettings → String → Bool
authenticate_request settings authorization =
    check_token settings authorization (expected_bearer_token settings)

-- ===== src/Source/Credentials.antt =====
-- internal/source/credentials.go
pub mod Usable
use dual_deployment_operator.Base.{
  String, Bool, true, false, Option, none, some, ◌==◌, ◌||◌, not, if◌then◌else◌, Result, ok, err, M,
  pure, ◌>>=◌,
}
use dual_deployment_operator.Json.{StringMap, get_text}
use dual_deployment_operator.Api.{SecretReference}

-- creds; `usable` is the field `ok`, and false means anonymous.
pub record Creds : Type 0 where
  pub user : String
  pub pass : String
  pub usable : Bool

abbrev pub anonymous : Creds
anonymous = record { user = ""; pass = ""; usable = false }

unfoldable pub creds_from_secret_data : StringMap → Creds
creds_from_secret_data secret =
    let user = get_text "username" secret in
    let token = get_text "token" secret in
    let pass = (if token == "" then get_text "password" secret else token) in
    record {
      user = if not (token == "") then (if user == "" then "git" else user) else user;
      pass = pass;
      usable = not (pass == "");
    }

-- The client's read of a Secret, and the namespace.
pub record CredentialResolver (S : Type 0) : Type 0 where
  pub get_secret : String → String → M S (Result StringMap)
  pub namespace : String

unfoldable pub creds_of : Result StringMap → Result Creds
unfolding creds_from_secret_data
creds_of (ok secret) = ok (creds_from_secret_data secret)
creds_of (err e) = err e

module _ {S : Type 0} where
  unfoldable pub resolve_named : CredentialResolver S → String → M S (Result Creds)
  unfolding creds_of
  resolve_named r name =
      if name == ""
      then pure (ok anonymous)
      else do got ← r.get_secret r.namespace name; pure (creds_of got)

  unfoldable pub resolve_credentials :
      CredentialResolver S → Option SecretReference → M S (Result Creds)
  unfolding resolve_named
  resolve_credentials r none = pure (ok anonymous)
  resolve_credentials r (some ref) = resolve_named r ref.name

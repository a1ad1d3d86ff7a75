-- ===== src/Source/Credentials/Usable.antt =====
-- When a Secret gives credentials, and which.
use dual_deployment_operator.Base.{
  ◌≡◌, ◌↔◌, ◌≢◌, ◌⊎◌, inl, inr, String, true, ◌==◌, arith, eq_iff, not, if◌then◌else◌, Bool-cases,
}
use dual_deployment_operator.Json.{StringMap, get_text}
use dual_deployment_operator.Source.Credentials.{creds_from_secret_data}

abbrev git : String
git = "git"

git-nonempty : git ≢ ""
git-nonempty = λ e. cc

-- The user name that goes with a token.
user_nonempty :
    (token user : String)
    → token ≢ ""
    → (if not (token == "") then (if user == "" then git else user) else user) ≢ ""
user_nonempty token user h = elim (Bool-cases (token == "")) [
  | inl t ↦ absurd (h ((eq_iff token "").0 t))
  | inr t ↦ rw t (elim (Bool-cases (user == "")) [
    | inl u ↦ rw u git-nonempty
    | inr u ↦ rw u (ground (arith, eq_iff user ""))
  ])
]

-- Credentials can be used exactly when the Secret has a token or a password, and then the password
-- is never empty, the token is preferred, and a token never goes without a user name.
pub creds_from_secret_data_iff :
    (secret : StringMap)
    → (((creds_from_secret_data secret).usable ≡ true)
        ↔ ((get_text "token" secret ≢ "") ⊎ (get_text "password" secret ≢ "")))
      × ((creds_from_secret_data secret).usable ≡ true → (creds_from_secret_data secret).pass ≢ "")
      × (get_text "token" secret ≢ ""
          → ((creds_from_secret_data secret).pass ≡ get_text "token" secret)
            × ((creds_from_secret_data secret).user ≢ ""))
unfolding creds_from_secret_data
creds_from_secret_data_iff secret = (
  ground (arith, eq_iff (get_text "token" secret) "", eq_iff (get_text "password" secret) ""),
  ground (arith, eq_iff (get_text "token" secret) "", eq_iff (get_text "password" secret) ""),
  λ token. (
    ground (arith, eq_iff (get_text "token" secret) ""),
    user_nonempty (get_text "token" secret) (get_text "username" secret) token,
  ),
)

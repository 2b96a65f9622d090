-- ===== src/Tests/Factors.antt =====
-- The second factor at the concrete server.
use autentico.Prelude.{
  ◌≡◌, inl, ◌+◌, ◌*◌, refl, String, true, false, none, some, ◌==◌, List, [], ◌∷◌, length,
  if◌then◌else◌,
}
use autentico.Schema.{Db, MfaChallenge, User, second}
use autentico.Exec.{err}
use autentico.Env.{Env}
use autentico.Web.{Request}
use autentico.Browser.{Granted, redirect}
use autentico.Sql.{find_row}
use autentico.Mfa.{has_id}
use autentico.Mfa.Post.Attempts.{after, Tries, Stands}
use autentico.Mfa.Post.Bounds.{posts, posts-at_most_five, at_most_five}
use autentico.Mfa.Get.{handle_mfa}
use autentico.Mfa.Get.Switch.{switch-reopens, IsReopened}
use autentico.Tests.World.{env, config, env_at-Healthy, start}
use autentico.Tests.Rows.{db, user, browse, web}

-- A user with a TOTP secret, and a challenge.
abbrev enrolled : User
enrolled = record user { totp_secret = "123456"; totp_verified = true }

abbrev challenge : MfaChallenge
challenge = record {
  id = "ch1";
  user_id = "u1";
  method = "totp";
  code = "";
  login_state = "openid";
  created_at = start;
  expires_at = start + 600 * second;
  used = false;
  failed_attempts = 0;
  otp_sent_at = none;
}

abbrev challenged : Db
challenged = record db { users = enrolled ∷ []; mfa_challenges = challenge ∷ [] }

abbrev entering : String → Request
entering code =
    web (λ name. if name == "challenge_id" then "ch1" else if name == "code" then code else "")

abbrev granted : Granted
granted = record {
  redirect_uri = "https://app/cb";
  code = "code2";
  state = "s1";
  encoded = false;
  sso_cookie = some "idp1";
  device_cookie = none;
}

wrong : Tries env (entering "000000") challenge enrolled
wrong = record {
  healthy = env_at-Healthy start;
  parses = refl;
  names = refl;
  filled = refl;
  in_time = refl;
  asked = refl;
  known = refl;
  unfit = refl;
}

stands : Stands 0 challenge enrolled challenged
unfolding find_row
stands = record { listed = refl; owner = refl }

abbrev try : Env × Request
try = (env, entering "000000")

abbrev tries : List (Env × Request)
tries = try ∷ try ∷ try ∷ try ∷ try ∷ try ∷ []

posts-at_most_five_example :
    find_row (has_id "ch1") (posts tries challenged).mfa_challenges
    ≡ some (after (at_most_five (length tries)) challenge)
posts-at_most_five_example =
    posts-at_most_five tries challenge enrolled challenged
      (wrong, (wrong, (wrong, (wrong, (wrong, (wrong, tt)))))) stands

abbrev both : Env
both = record env { config = record config { mfa_method = "both"; smtp_host = "mail" } }

abbrev other_way : Request
other_way =
    browse (λ name.
      if name == "switch_to" then "email" else if name == "challenge_id" then "ch1" else "")

switch-reopens_example :
    (db' : Db) × (handle_mfa both other_way challenged
      ≡ (err (redirect "/oauth2/mfa" (("challenge_id", "sec") ∷ [])), db'))
    × ((n : MfaChallenge) × (find_row (has_id "sec") db'.mfa_challenges ≡ some n)
        × IsReopened "sec" "email" challenge n)
    × ((o : MfaChallenge) × (find_row (has_id "ch1") db'.mfa_challenges ≡ some o) × (o.used ≡ true))
unfolding autentico.Sql.any_row find_row autentico.Text.append
switch-reopens_example =
    switch-reopens both other_way "sec" challenge challenged (λ stmt. refl) refl refl refl refl refl
      refl refl refl refl (inl (refl, refl)) refl refl refl

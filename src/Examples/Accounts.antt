-- ===== src/Examples/Accounts.antt =====
-- Credentials and robots of the example installation.
use regixtry.Base.{◌+◌, pos, [], ◌∷◌, ◌++◌, none, codes, inl, inr, refl, ◌≡◌, Elem, ok, err}
use regixtry.Auth.Errors.{new_validation_error}
use regixtry.Auth.Token.{Token, TokenKind, default_admin_token_ttl}
use regixtry.AuthStore.Actions.{◌>>=◌, statement, gets, ask, ask?, reject, puts}
use regixtry.AuthService.Tokens.{CreateAdminTokenInput, CreatedAdminToken, create_admin_token}
use regixtry.AuthService.Tokens.Issuing.{Issued, create_admin_token-Issued}
use regixtry.AuthService.Robots.{delete_robot}
use regixtry.AuthService.Robots.Deletion.{delete_robot-human}
use regixtry.Examples.Office.{office_env, office, office-Sound, root, bob, robot, caller}

abbrev asked_token : CreateAdminTokenInput
asked_token = record { user_id = codes "robot"; name = codes " ci "; ttl = pos 0 }

abbrev new_token : Token
new_token = record {
  id = b'u' ∷ 3 ∷ [];
  user_id = codes "robot";
  kind = TokenKind.admin_credential;
  name = codes "ci";
  scope = [];
  accessor = codes "act_u" ++ (4 ∷ []);
  secret_hash = codes "dice";
  expires_at = 1002 + default_admin_token_ttl;
  created_at = 1002;
  revoked_at = none;
}

abbrev issued : CreatedAdminToken
issued = record {
  token = new_token;
  secret = codes "dice";
  plaintext = codes "dice";
  accessor = new_token.accessor;
  expires_at = new_token.expires_at;
  target_user = robot;
}

root_issues : (create_admin_token office_env (caller root []) asked_token office).0 ≡ ok issued
unfolding create_admin_token ◌>>=◌ statement gets ask ask? reject puts
root_issues = refl

create_admin_token-Issued_example :
    Issued office_env office.db
      (create_admin_token office_env (caller root []) asked_token office).1.db
      1002
      (caller root [])
      asked_token
      issued
create_admin_token-Issued_example =
    create_admin_token-Issued office_env (caller root []) asked_token office issued root_issues

delete_robot-human_example :
    Elem bob (delete_robot office_env (caller root []) (codes "robot") office).1.db.users
delete_robot-human_example =
    delete_robot-human office_env (caller root []) (codes "robot") office bob office-Sound.distinct
      (inr (inr (inl refl))) refl

-- A human cannot be deleted as a robot.
bob_stays :
    (delete_robot office_env (caller root []) (codes "bob") office).0
    ≡ err (new_validation_error "target user is not a robot account")
unfolding delete_robot ◌>>=◌ statement gets reject
bob_stays = refl

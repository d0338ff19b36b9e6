-- ===== src/Examples/Services.antt =====
-- Runs of the authentication service on the example installation.
use regixtry.Base.{
  ℕ, ◌+◌, ◌++◌, ◌&&◌, any, text_eq, true, false, List, [], ◌∷◌, Text, codes, ◌≡◌, inl, inr, refl,
  Elem, ok, err,
}
use regixtry.Strings.{trim_space}
use regixtry.Auth.User.{User}
use regixtry.Auth.Grant
use regixtry.Auth.Grant.{RepoRole, RepoGrant}
use regixtry.Auth.Errors.{new_invalid_credentials_error}
use regixtry.Auth.Token.{access_token_ttl}
use regixtry.Auth.Scope.{
  Scope, scope_on, contains, allows_pull, allows_push, allows_delete, action_pull, action_push,
  action_delete,
}
use regixtry.Auth.Principal.{Principal, has_granted_repository_access}
use regixtry.AuthService.Sessions.Intersection.{intersect_requested_actions-granted}
use regixtry.AuthStore.Actions.{◌>>=◌, statement, gets, ask, ask?, reject, puts}
use regixtry.AuthStore.Sound.{Sound}
use regixtry.AuthService.Users.Changes.{Change, after_all, after_all-Sound}
use regixtry.AuthService.Sessions.{
  LoginResult, intersect_requested_actions, login_with_password, login_with_preissued_token,
  verify_access_token,
}
use regixtry.AuthService.Sessions.Credentials.{
  Accepted, PasswordLogin, TokenLogin, verify_access_token-Accepted,
  login_with_password-PasswordLogin, login_with_preissued_token-TokenLogin,
}
use regixtry.AuthService.Grants.{put_repository_grant, delete_repository_grant}
use regixtry.AuthService.Grants.Delegation.{SameAdmins}
use regixtry.AuthService.Grants.Escalation.{
  put_repository_grant-SameAdmins, delete_repository_grant-SameAdmins,
}
use regixtry.Examples.Office.{
  office_env, office, office-Sound, root, bob, robot, caller, app, grant_on_app,
}

abbrev requests : List Change
requests =
    Change.enabled (caller root []) (codes "root") false
    ∷ Change.deleted (caller root []) (codes "second")
    ∷ []

after_all-Sound_example : Sound office_env (after_all office_env requests office)
after_all-Sound_example = after_all-Sound office_env requests office office-Sound

verified : (verify_access_token office_env (codes "session") office).0 ≡ ok (caller root [])
unfolding verify_access_token ◌>>=◌ statement gets ask reject
verified = refl

verify_access_token-Accepted_example :
    Accepted office_env office.db 1001 (codes "session") (caller root [])
verify_access_token-Accepted_example =
    verify_access_token-Accepted office_env (codes "session") office (caller root []) verified

-- The answer to a login at the example's times, with no scope requested.
abbrev session_of : User → Text → ℕ → List RepoGrant → LoginResult
session_of user accessor now grants = record {
  principal = record (caller user grants) {
    subject = accessor;
    expires_at = now + access_token_ttl;
  };
  bearer_token = codes "dice";
  expires_at = now + access_token_ttl;
  accessor = accessor;
  scope = [];
}

abbrev bob_session : LoginResult
bob_session =
    session_of bob (codes "atk_u" ++ (4 ∷ [])) 1002 (grant_on_app (codes "bob") RepoRole.admin ∷ [])

bob_logs_in :
    (login_with_password office_env (codes " bob ") (codes "longword") [] office).0 ≡ ok bob_session
unfolding login_with_password ◌>>=◌ statement gets ask ask? reject puts
bob_logs_in = refl

login_with_password-PasswordLogin_example :
    PasswordLogin office_env office.db (codes " bob ") (codes "longword") bob_session
login_with_password-PasswordLogin_example =
    login_with_password-PasswordLogin office_env (codes " bob ") (codes "longword") [] office
      bob_session bob_logs_in

abbrev robot_session : LoginResult
robot_session =
    session_of robot (codes "atk_u" ++ (6 ∷ [])) 1004
      (grant_on_app (codes "robot") RepoRole.reader ∷ [])

robot_logs_in :
    (login_with_preissued_token office_env (codes "robot") (codes "deploy") [] office).0
    ≡ ok robot_session
unfolding login_with_preissued_token ◌>>=◌ statement gets ask ask? reject puts
robot_logs_in = refl

login_with_preissued_token-TokenLogin_example :
    TokenLogin office_env office.db 1002 (codes "robot") (codes "deploy") robot_session
login_with_preissued_token-TokenLogin_example =
    login_with_preissued_token-TokenLogin office_env (codes "robot") (codes "deploy") [] office
      robot_session robot_logs_in

-- A robot has no password.
robot_password :
    (login_with_password office_env (codes "robot") (codes "longword") [] office).0
    ≡ err new_invalid_credentials_error
unfolding login_with_password ◌>>=◌ statement gets ask ask? reject puts
robot_password = refl

abbrev delegate : Principal
delegate = caller bob (grant_on_app (codes "bob") RepoRole.admin ∷ [])

trimmed : (u : User) → Elem u office.db.users → trim_space u.id ≡ u.id
unfolding trim_space
trimmed u (inl e) = rw e refl
trimmed u (inr (inl e)) = rw e refl
trimmed u (inr (inr (inl e))) = rw e refl
trimmed u (inr (inr (inr (inl e)))) = rw e refl
trimmed u (inr (inr (inr (inr m)))) = absurd m

put_repository_grant-SameAdmins_example :
    SameAdmins
      (put_repository_grant office_env delegate
        (codes "team/app")
        (codes "robot")
        RepoRole.writer
        office).1.db.grants
      office.db.grants
put_repository_grant-SameAdmins_example =
    put_repository_grant-SameAdmins office_env delegate (codes "team/app") (codes "robot")
      RepoRole.writer office refl trimmed

-- The delegate's grant is stored: the robot may write now.
robot_writes :
    any
      (λ g. text_eq g.user_id (codes "robot") && Grant.allows_write g.role)
      (put_repository_grant office_env delegate
        (codes "team/app")
        (codes "robot")
        RepoRole.writer
        office).1.db.grants
    ≡ true
unfolding put_repository_grant text_eq Grant.allows_write ◌>>=◌ statement gets ask reject puts
robot_writes = refl

delete_repository_grant-SameAdmins_example :
    SameAdmins
      (delete_repository_grant office_env delegate
        (codes "team/app")
        (codes "robot")
        office).1.db.grants
      office.db.grants
delete_repository_grant-SameAdmins_example =
    delete_repository_grant-SameAdmins office_env delegate (codes "team/app") (codes "robot") office
      refl

abbrev pull_and_push : Scope
pull_and_push = scope_on app (action_pull ∷ action_push ∷ [])

intersect_requested_actions-granted_example :
    let actions = intersect_requested_actions false false delegate.grants pull_and_push in
    (contains action_pull actions ≡ true
      → (has_granted_repository_access delegate (codes "team/app") Grant.allows_read ≡ true)
        × (allows_pull pull_and_push ≡ true))
    × (contains action_push actions ≡ true
        → (has_granted_repository_access delegate (codes "team/app") Grant.allows_write ≡ true)
          × (allows_push pull_and_push ≡ true))
    × (contains action_delete actions ≡ true
        → (has_granted_repository_access delegate (codes "team/app") Grant.allows_write ≡ true)
          × (allows_delete pull_and_push ≡ true))
intersect_requested_actions-granted_example =
    intersect_requested_actions-granted delegate pull_and_push

writer_pushes :
    intersect_requested_actions false false delegate.grants pull_and_push
    ≡ action_pull ∷ action_push ∷ []
unfolding intersect_requested_actions
writer_pushes = refl

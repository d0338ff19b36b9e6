-- ===== src/Examples/Office.antt =====
-- A small installation: two administrators, an administrator of one repository and a robot.
use regixtry.Base.{
  ◌+◌, Bool, true, false, List, [], ◌∷◌, none, some, Text, codes, text_eq, text_lt, ltb, inl, refl,
}
use regixtry.Registry.Repository.{RepositoryRef}
use regixtry.Auth.User.{User}
use regixtry.Auth.Grant.{RepoRole, RepoGrant}
use regixtry.Auth.Token.{Token, TokenKind}
use regixtry.Auth.Principal.{Principal}
use regixtry.AuthStore.Actions.{Env, World}
use regixtry.AuthStore.Sound.{Sound}

abbrev pub office_env : Env
office_env = record {
  fails = λ t. false;
  now = λ t. 1000 + t;
  uuid = λ t. b'u' ∷ t ∷ [];
  random = λ t. some (codes "dice");
  hash_secret = λ s. s;
  hash_password = λ t p. some p;
  check_password = text_eq;
  lower = λ c. c;
  collate = text_lt;
  collate_time = ltb;
}

abbrev pub app : RepositoryRef
app = record { name = codes "team/app" }

abbrev pub member : Text → Bool → Bool → User
member name admin robot = record {
  id = name;
  username = name;
  password_hash = codes "longword";
  is_admin = admin;
  is_read_only = false;
  is_robot = robot;
  enabled = true;
  created_at = 1;
  updated_at = 1;
}

abbrev pub root : User
root = member (codes "root") true false

abbrev pub second : User
second = member (codes "second") true false

abbrev pub bob : User
bob = member (codes "bob") false false

abbrev pub robot : User
robot = member (codes "robot") false true

abbrev pub grant_on_app : Text → RepoRole → RepoGrant
grant_on_app id role = record {
  user_id = id;
  repository = app;
  role = role;
  created_at = 1;
  updated_at = 1;
}

abbrev pub token_of : Text → TokenKind → Text → Token
token_of id kind secret = record {
  id = secret;
  user_id = id;
  kind = kind;
  name = [];
  scope = [];
  accessor = secret;
  secret_hash = secret;
  expires_at = 5000;
  created_at = 1;
  revoked_at = none;
}

abbrev pub office : World
office = record {
  db = record {
    users = root ∷ second ∷ bob ∷ robot ∷ [];
    grants =
        grant_on_app (codes "bob") RepoRole.admin
        ∷ grant_on_app (codes "robot") RepoRole.reader
        ∷ [];
    tokens =
        token_of (codes "root") TokenKind.access (codes "session")
        ∷ token_of (codes "robot") TokenKind.admin_credential (codes "deploy")
        ∷ [];
  };
  tick = 0;
}

-- A caller with the rights of a user and one scope on the catalog.
abbrev pub caller : User → List RepoGrant → Principal
caller user grants = record {
  subject = codes "session";
  user_id = user.id;
  username = user.username;
  is_admin = user.is_admin;
  is_read_only = user.is_read_only;
  grants = grants;
  scopes = [];
  expires_at = 5000;
}

pub office-Sound : Sound office_env office
office-Sound = record {
  distinct =
      ((λ e. cc, (λ e. cc, (λ e. cc, tt))), ((λ e. cc, (λ e. cc, tt)), ((λ e. cc, tt), (tt, tt))));
  unused = (λ t le e. cc, (λ t le e. cc, (λ t le e. cc, (λ t le e. cc, tt))));
  admin = (root, inl refl, (refl, refl));
}

-- ===== src/Access.antt =====
-- Who may do what on a registry route: the actions and the two access controllers
-- (internal/ports/regixtry.go, internal/ports/defaults.go), and the gate in front of deleting a
-- whole repository (internal/app/regixtry/service.go).
pub mod Controller
pub mod RepositoryDeletion
use regixtry.Base.{
  Bool, true, false, ◌||◌, ◌&&◌, not, List, [], ◌∷◌, ◌++◌, Option, none, some, Text, codes, text_eq,
  any, if◌then◌else◌, Result, ok, err,
}
use regixtry.Errors.{Error}
use regixtry.Auth.Errors as AuthErrors
use regixtry.Registry.Errors.{new_unauthorized_error}
use regixtry.Strings.{is_nil}
use regixtry.Auth.Grant
use regixtry.Auth.Principal.{
  Principal, has_read_access, has_write_access, has_delete_access, can_access_catalog,
}

-- `ActionVerb` is a string type: the five verbs, and any other string.
pub data ActionVerb : Type 0 where
  pull push delete catalog inspect : ActionVerb
  other : Text → ActionVerb

-- The repository is empty where the action names none.
pub record Action : Type 0 where
  pub verb : ActionVerb
  pub repository : Text
  pub principal : Option Principal

abbrev on_repository : Text → Text → Text
on_repository repository suffix =
    if is_nil repository then [] else codes "repository:" ++ (repository ++ suffix)

-- (Action).Scope
unfoldable pub scope : ActionVerb → Text → Text
scope catalog repository = codes "regixtry:catalog:*"
scope pull repository = on_repository repository (codes ":pull")
scope inspect repository = on_repository repository (codes ":pull")
scope push repository = on_repository repository (codes ":pull,push")
scope delete repository = on_repository repository (codes ":delete")
scope (other _) repository = []

pub record AccessConfig : Type 0 where
  pub allow_anonymous_pull : Bool
  pub allow_anonymous_push : Bool

abbrev is_reading : ActionVerb → Bool
is_reading pull = true
is_reading inspect = true
is_reading catalog = true
is_reading _ = false

abbrev is_push : ActionVerb → Bool
is_push push = true
is_push _ = false

abbrev is_some {ℓ} : {A : Type ℓ} → Option A → Bool
is_some none = false
is_some (some _) = true

-- (configurableAccessController).Authorize
unfoldable pub configurable_authorize : AccessConfig → Action → Result Error (Unit {0})
configurable_authorize c a =
    if is_some a.principal
    then ok tt
    else if is_reading a.verb && c.allow_anonymous_pull
    then ok tt
    else if is_push a.verb && c.allow_anonymous_push
    then ok tt
    else err (new_unauthorized_error "authentication required")

-- The `switch` of (principalAccessController).Authorize: whether a branch returns nil
unfoldable pub verb_allowed : ActionVerb → Text → Principal → Bool
unfolding can_access_catalog has_read_access has_write_access has_delete_access
verb_allowed catalog repository p = can_access_catalog p
verb_allowed pull repository p = is_nil repository || has_read_access p repository
verb_allowed inspect repository p = is_nil repository || has_read_access p repository
verb_allowed push repository p = not (is_nil repository) && has_write_access p repository
verb_allowed delete repository p = not (is_nil repository) && has_delete_access p repository
verb_allowed (other _) repository p = false

abbrev pub authorize_as : ActionVerb → Text → Option Principal → Result Error (Unit {0})
authorize_as verb repository none = err (new_unauthorized_error "authentication required")
authorize_as verb repository (some p) =
    if verb_allowed verb repository p
    then ok tt
    else err (new_unauthorized_error "authorization required")

-- (principalAccessController).Authorize
unfoldable pub principal_authorize : Action → Result Error (Unit {0})
unfolding verb_allowed
principal_authorize a = authorize_as a.verb a.repository a.principal

-- hasRepoAdminGrant
unfoldable pub has_repo_admin_grant : Principal → Text → Bool
unfolding text_eq Grant.allows_admin
has_repo_admin_grant p repository =
    any (λ g. text_eq g.repository.name repository && Grant.allows_admin g.role) p.grants

abbrev gate : Result Error (Unit {0}) → Text → Option Principal → Result Error (Unit {0})
gate base repository none = base
gate base repository (some p) =
    if p.is_admin || has_repo_admin_grant p repository then ok tt else elim base [
      | err e ↦ err e
      | ok _ ↦
          err (AuthErrors.new_forbidden_error "repository administrator privileges are required")
    ]

-- authorizeDeleteRepository, for the access controller that the service was built with
unfoldable pub authorize_delete_repository :
    (Action → Result Error (Unit {0})) → Option Principal → Text → Result Error (Unit {0})
unfolding has_repo_admin_grant
authorize_delete_repository authorize principal repository =
    gate (authorize (record { verb = delete; repository = repository; principal = principal }))
      repository principal

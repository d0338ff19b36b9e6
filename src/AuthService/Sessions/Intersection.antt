-- ===== src/AuthService/Sessions/Intersection.antt =====
-- What is granted of a requested scope (internal/app/auth/service.go).
use regixtry.Base.{
  Bool, true, false, ◌&&◌, List, [], ◌∷◌, Text, text_eq, if◌then◌else◌, ◌≡◌, inl, inr, refl, sym,
  ◌∙◌, arith, any, Bool-cases,
}
use regixtry.Auth.Grant
use regixtry.Auth.Grant.{RepoRole, RepoGrant}
use regixtry.Auth.Scope.{
  Scope, contains, allows_pull, allows_push, allows_delete, action_pull, action_push, action_delete,
}
use regixtry.Auth.Principal.{Principal, has_granted_repository_access}
use regixtry.AuthService.Sessions.{
  Allowed, granted_actions, allowed_actions, action_names, intersect_requested_actions,
}

-- Some grant on the repository allows it.
abbrev backed : (RepoRole → Bool) → Text → List RepoGrant → Bool
backed allows r gs = any (λ g. text_eq g.repository.name r && allows g.role) gs

-- Whether the requested actions, where they are allowed, are backed by the rights.
record Justified (read write : Bool) (s : Scope) (a : Allowed) : Type 0 where
  pulled : a.pull ≡ true → (read ≡ true) × (allows_pull s ≡ true)
  pushed : a.push ≡ true → (write ≡ true) × (allows_push s ≡ true)
  deleted : a.delete ≡ true → (write ≡ true) × (allows_delete s ≡ true)

both : (a b : Bool) → (a && b) ≡ true → (a ≡ true) × (b ≡ true)
both a b e = ground arith

granted_actions-Justified :
    (gs : List RepoGrant) (s : Scope)
    → Justified
        (backed Grant.allows_read s.repository.name gs)
        (backed Grant.allows_write s.repository.name gs)
        s
        (granted_actions gs s)
unfolding granted_actions
granted_actions-Justified [] s = record { pulled = λ e. cc; pushed = λ e. cc; deleted = λ e. cc }
granted_actions-Justified (g ∷ gs) s =
    elim (Bool-cases (text_eq g.repository.name s.repository.name)) [
      | inl e ↦ rw e (record {
        pulled = λ h. first (Grant.allows_read g.role) _ (allows_pull s) h;
        pushed = λ h. first (Grant.allows_write g.role) _ (allows_push s) h;
        deleted = λ h. first (Grant.allows_write g.role) _ (allows_delete s) h;
      })
      | inr e ↦ rw e (granted_actions-Justified gs s)
    ]
  where
    first :
        (role rest wanted : Bool)
        → (role && wanted) ≡ true
        → ((if role then true else rest) ≡ true) × (wanted ≡ true)
    first role rest wanted h = ground arith

allowed_actions-Justified :
    (p : Principal) (s : Scope)
    → Justified
        (has_granted_repository_access p s.repository.name Grant.allows_read)
        (has_granted_repository_access p s.repository.name Grant.allows_write)
        s
        (allowed_actions p.is_admin p.is_read_only p.grants s)
unfolding allowed_actions has_granted_repository_access Grant.allows_read Grant.allows_write
allowed_actions-Justified p s = elim (Bool-cases p.is_admin) [
  | inl e ↦
      rw e (record { pulled = λ h. (refl, h); pushed = λ h. (refl, h); deleted = λ h. (refl, h) })
  | inr e ↦ rw e (elim (Bool-cases p.is_read_only) [
    | inl r ↦ rw r (record { pulled = λ h. (refl, h); pushed = λ h. cc; deleted = λ h. cc })
    | inr r ↦ rw r (granted_actions-Justified p.grants s)
  ])
]

names-contain :
    (pull push delete : Bool)
    → let names = action_names (record { pull = pull; push = push; delete = delete }) in
      (contains action_pull names ≡ pull)
      × (contains action_push names ≡ push)
      × (contains action_delete names ≡ delete)
unfolding action_names text_eq
names-contain true true true = (refl, refl, refl)
names-contain true true false = (refl, refl, refl)
names-contain true false true = (refl, refl, refl)
names-contain true false false = (refl, refl, refl)
names-contain false true true = (refl, refl, refl)
names-contain false true false = (refl, refl, refl)
names-contain false false true = (refl, refl, refl)
names-contain false false false = (refl, refl, refl)

-- Of a requested scope, a session grants an action only where it was requested and the user's
-- rights allow it on the scope's repository: the right to read for pulling, the right to write for
-- pushing and for deleting.
pub intersect_requested_actions-granted :
    (p : Principal) (s : Scope)
    → let actions = intersect_requested_actions p.is_admin p.is_read_only p.grants s in
      (contains action_pull actions ≡ true
        → (has_granted_repository_access p s.repository.name Grant.allows_read ≡ true)
          × (allows_pull s ≡ true))
      × (contains action_push actions ≡ true
          → (has_granted_repository_access p s.repository.name Grant.allows_write ≡ true)
            × (allows_push s ≡ true))
      × (contains action_delete actions ≡ true
          → (has_granted_repository_access p s.repository.name Grant.allows_write ≡ true)
            × (allows_delete s ≡ true))
unfolding intersect_requested_actions
intersect_requested_actions-granted p s =
    let a = allowed_actions p.is_admin p.is_read_only p.grants s in
    let (pull, push, delete) = names-contain a.pull a.push a.delete in
    let j = allowed_actions-Justified p s in
    (λ e. j.pulled (sym pull ∙ e), λ e. j.pushed (sym push ∙ e), λ e. j.deleted (sym delete ∙ e))

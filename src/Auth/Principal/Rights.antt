-- ===== src/Auth/Principal/Rights.antt =====
-- What each access predicate of a principal requires.
use regixtry.Base.{
  Bool, true, false, ◌&&◌, ◌≡◌, ◌↔◌, ◌⊎◌, inl, inr, refl, sym, List, Text, text_eq, text_eq_iff,
  any, arith, Elem, Elem-of_any, any_of_Elem, Bool-cases,
}
use regixtry.Auth.Grant
use regixtry.Auth.Grant.{RepoRole, RepoGrant}
use regixtry.Auth.Scope.{
  Scope, contains, scope_type_repository, action_pull, is_repository, allows_pull, allows_push,
  allows_delete,
}
use regixtry.Auth.Principal.{
  Principal, has_granted_repository_access, scope_allows_repository, has_read_access,
  has_write_access, has_delete_access,
}

-- A grant of the principal on the repository whose role passes.
pub record Granted (p : Principal) (repository : Text) (allows : RepoRole → Bool) : Type 0 where
  pub grant : RepoGrant
  pub held : Elem grant p.grants
  pub named : grant.repository.name ≡ repository
  pub passes : allows grant.role ≡ true

-- A repository scope of the principal's token that passes.
pub record InScope (p : Principal) (repository : Text) (allows : Scope → Bool) : Type 0 where
  pub scope : Scope
  pub held : Elem scope p.scopes
  pub typed : is_repository scope ≡ true
  pub named : scope.name ≡ repository
  pub passes : allows scope ≡ true

-- A role that reads: one of the three that there are.
abbrev pub ReadingRole : RepoRole → Type 0
ReadingRole role = (role ≡ RepoRole.reader) ⊎ ((role ≡ RepoRole.writer) ⊎ (role ≡ RepoRole.admin))

-- A grant of the principal on the repository with such a role.
pub record Reader (p : Principal) (repository : Text) : Type 0 where
  pub grant : RepoGrant
  pub held : Elem grant p.grants
  pub named : grant.repository.name ≡ repository
  pub role : ReadingRole grant.role

-- A repository scope of the principal's token whose actions include pulling.
pub record PullScope (p : Principal) (repository : Text) : Type 0 where
  pub scope : Scope
  pub held : Elem scope p.scopes
  pub typed : scope.kind ≡ scope_type_repository
  pub named : scope.name ≡ repository
  pub pulls : Elem action_pull scope.actions

allows_read_iff : (role : RepoRole) → (Grant.allows_read role ≡ true) ↔ ReadingRole role
unfolding Grant.allows_read
allows_read_iff RepoRole.reader = (λ e. inl refl, λ x. refl)
allows_read_iff RepoRole.writer = (λ e. inr (inl refl), λ x. refl)
allows_read_iff RepoRole.admin = (λ e. inr (inr refl), λ x. refl)
allows_read_iff (RepoRole.other t) = (
  λ e. absurd (cc),
  λ x. elim x [ inl e ↦ cc e | inr y ↦ elim y [ inl e ↦ cc e | inr e ↦ cc e ] ],
)

pub contains-Elem : (a : Text) (xs : List Text) → contains a xs ≡ true → Elem a xs
contains-Elem a xs e =
    let (x, m, q) = Elem-of_any (λ x. text_eq x a) xs e in rw (sym ((text_eq_iff x a).0 q)) m

pub Elem-contains : (a : Text) (xs : List Text) → Elem a xs → contains a xs ≡ true
Elem-contains a xs m = any_of_Elem (λ x. text_eq x a) a xs m ((text_eq_iff a a).1 refl)

reader_reads : Grant.allows_read RepoRole.reader ≡ true
unfolding Grant.allows_read
reader_reads = refl

module _ (p : Principal) (r : Text) where
  granted→Granted :
      (allows : RepoRole → Bool)
      → any (λ g. text_eq g.repository.name r && allows g.role) p.grants ≡ true
      → Granted p r allows
  granted→Granted allows h =
      let (g, m, e) = Elem-of_any _ p.grants h in
      record {
        grant = g;
        held = m;
        named = ground (arith, text_eq_iff g.repository.name r);
        passes = ground arith;
      }

  Granted→granted :
      (allows : RepoRole → Bool)
      → Granted p r allows
      → any (λ g. text_eq g.repository.name r && allows g.role) p.grants ≡ true
  Granted→granted allows g =
      any_of_Elem _ g.grant p.grants g.held
        (ground (arith, text_eq_iff g.grant.repository.name r, g.named, g.passes))

  any→InScope :
      (allows : Scope → Bool)
      → any (λ s. is_repository s && text_eq s.name r && allows s) p.scopes ≡ true
      → InScope p r allows
  any→InScope allows h =
      let (s, m, e) = Elem-of_any _ p.scopes h in
      record {
        scope = s;
        held = m;
        typed = ground arith;
        named = ground (arith, text_eq_iff s.name r);
        passes = ground arith;
      }

  InScope→any :
      (allows : Scope → Bool)
      → InScope p r allows
      → any (λ s. is_repository s && text_eq s.name r && allows s) p.scopes ≡ true
  InScope→any allows s =
      any_of_Elem _ s.scope p.scopes s.held
        (ground (arith, text_eq_iff s.scope.name r, s.typed, s.named, s.passes))

  pub scope_allows_iff :
      (allows : Scope → Bool) → (scope_allows_repository p r allows ≡ true) ↔ InScope p r allows
  unfolding scope_allows_repository
  scope_allows_iff allows = (any→InScope allows, InScope→any allows)

  -- The grant half of each predicate, for a role test that `repo-reader` fails.
  pub Granted-iff :
      (allows : RepoRole → Bool)
      → allows RepoRole.reader ≡ false
      → (has_granted_repository_access p r allows ≡ true)
        ↔ ((p.is_admin ≡ true) ⊎ Granted p r allows)
  unfolding has_granted_repository_access
  Granted-iff allows h = (held, given)
    where
      held :
          has_granted_repository_access p r allows ≡ true → (p.is_admin ≡ true) ⊎ Granted p r allows
      held k = elim (Bool-cases p.is_admin) [
        | inl e ↦ inl e
        | inr e ↦ inr (granted→Granted allows (ground arith))
      ]

      given :
          (p.is_admin ≡ true) ⊎ Granted p r allows → has_granted_repository_access p r allows ≡ true
      given (inl e) = ground arith
      given (inr g) = ground (arith, Granted→granted allows g)

  pub read-Granted_iff :
      (has_granted_repository_access p r Grant.allows_read ≡ true)
      ↔ ((p.is_admin ≡ true) ⊎ ((p.is_read_only ≡ true) ⊎ Granted p r Grant.allows_read))
  unfolding has_granted_repository_access
  read-Granted_iff = (held, given)
    where
      held :
          has_granted_repository_access p r Grant.allows_read ≡ true
          → (p.is_admin ≡ true) ⊎ ((p.is_read_only ≡ true) ⊎ Granted p r Grant.allows_read)
      held k = elim (Bool-cases p.is_admin) [
        | inl e ↦ inl e
        | inr e ↦ elim (Bool-cases p.is_read_only) [
          | inl f ↦ inr (inl f)
          | inr f ↦ inr (inr (granted→Granted Grant.allows_read (ground arith)))
        ]
      ]

      given :
          (p.is_admin ≡ true) ⊎ ((p.is_read_only ≡ true) ⊎ Granted p r Grant.allows_read)
          → has_granted_repository_access p r Grant.allows_read ≡ true
      given (inl e) = ground arith
      given (inr (inl e)) = ground (arith, reader_reads)
      given (inr (inr g)) = ground (arith, Granted→granted Grant.allows_read g)

  both : (a b : Bool) {P Q : Type 0} → (a ≡ true) ↔ P → (b ≡ true) ↔ Q → ((a && b) ≡ true) ↔ (P × Q)
  both a b f g =
      (λ h. (f.0 (ground arith), g.0 (ground arith)), λ (x, y). ground (arith, f.1 x, g.1 y))

  Reader-iff : Granted p r Grant.allows_read ↔ Reader p r
  Reader-iff = (
    λ g. record {
      grant = g.grant;
      held = g.held;
      named = g.named;
      role = (allows_read_iff g.grant.role).0 g.passes;
    },
    λ g. record {
      grant = g.grant;
      held = g.held;
      named = g.named;
      passes = (allows_read_iff g.grant.role).1 g.role;
    },
  )

  PullScope-iff : InScope p r allows_pull ↔ PullScope p r
  unfolding is_repository allows_pull
  PullScope-iff = (
    λ s. record {
      scope = s.scope;
      held = s.held;
      typed = (text_eq_iff s.scope.kind scope_type_repository).0 s.typed;
      named = s.named;
      pulls = contains-Elem action_pull s.scope.actions s.passes;
    },
    λ s. record {
      scope = s.scope;
      held = s.held;
      typed = (text_eq_iff s.scope.kind scope_type_repository).1 s.typed;
      named = s.named;
      passes = Elem-contains action_pull s.scope.actions s.pulls;
    },
  )

  read_access-Granted_iff : (has_read_access p r ≡ true) ↔ (
      ((p.is_admin ≡ true) ⊎ ((p.is_read_only ≡ true) ⊎ Granted p r Grant.allows_read))
      × InScope p r allows_pull)
  read_access-Granted_iff =
      unfold has_read_access in both _ _ read-Granted_iff (scope_allows_iff allows_pull)

  -- Read access: an administrator, a registry-wide reader or a grant on the repository with one of
  -- the roles of reader, writer and administrator; and a repository scope on it that includes
  -- pulling.
  pub has_read_access_iff :
      (has_read_access p r ≡ true)
      ↔ (((p.is_admin ≡ true) ⊎ ((p.is_read_only ≡ true) ⊎ Reader p r)) × PullScope p r)
  has_read_access_iff =
      let (f, g) = read_access-Granted_iff in
      (λ h. (opened (f h).0, PullScope-iff.0 (f h).1), λ (x, y). g (closed x, PullScope-iff.1 y))
    where
      opened :
          (p.is_admin ≡ true) ⊎ ((p.is_read_only ≡ true) ⊎ Granted p r Grant.allows_read)
          → (p.is_admin ≡ true) ⊎ ((p.is_read_only ≡ true) ⊎ Reader p r)
      opened (inl e) = inl e
      opened (inr (inl e)) = inr (inl e)
      opened (inr (inr g)) = inr (inr (Reader-iff.0 g))

      closed :
          (p.is_admin ≡ true) ⊎ ((p.is_read_only ≡ true) ⊎ Reader p r)
          → (p.is_admin ≡ true) ⊎ ((p.is_read_only ≡ true) ⊎ Granted p r Grant.allows_read)
      closed (inl e) = inl e
      closed (inr (inl e)) = inr (inl e)
      closed (inr (inr g)) = inr (inr (Reader-iff.1 g))

  -- Write access: an administrator or a writing grant, and a push scope. The registry-wide read flag
  -- plays no part.
  pub has_write_access_iff :
      (has_write_access p r ≡ true)
      ↔ (((p.is_admin ≡ true) ⊎ Granted p r Grant.allows_write) × InScope p r allows_push)
  has_write_access_iff =
      unfold has_write_access in
      both _ _ (Granted-iff Grant.allows_write (unfold Grant.allows_write in refl))
        (scope_allows_iff allows_push)

  -- Delete access: an administrator or a writing grant, and a delete scope; a push scope is not
  -- enough.
  pub has_delete_access_iff :
      (has_delete_access p r ≡ true)
      ↔ (((p.is_admin ≡ true) ⊎ Granted p r Grant.allows_write) × InScope p r allows_delete)
  has_delete_access_iff =
      unfold has_delete_access in
      both _ _ (Granted-iff Grant.allows_write (unfold Grant.allows_write in refl))
        (scope_allows_iff allows_delete)

-- ===== src/Examples/Domain.antt =====
-- The parsers and the access rules on concrete texts and callers.
use regixtry.Base.{
  ℕ, zero, suc, arith, true, false, List, [], ◌∷◌, ◌++◌, length, map, none, some, Text, codes, ◌≡◌,
  ◌≢◌, ◌↔◌, ◌⊎◌, refl, Elem, All, ok,
}
use regixtry.Strings.{split}
use regixtry.Registry.Digest.{
  digest_from_bytes, digest_algorithm_sha256, parse_digest, algorithm, encoded,
}
use regixtry.Registry.Digest.Hex.{IsHex, IsByte, hex_decode}
use regixtry.Registry.Digest.Parsing.{
  IsDigest, parse_digest_iff, parse_digest-parts, parse-digest_from_bytes,
}
use regixtry.Registry.Repository.{parse_repository_ref}
use regixtry.Registry.Repository.Names.{
  IsName, Begins, NameChar, parse_repository_ref_iff, parse_repository_ref-safe,
}
use regixtry.Auth.Grant
use regixtry.Auth.Grant.{RepoRole}
use regixtry.Auth.Scope.{
  Scope, scope_on, parse_scope, parse_scopes, normalize_scopes, normalize_scope_actions,
  action_pull, action_push, action_delete, action_wildcard, allows_push, allows_delete,
}
use regixtry.Auth.Scope.Actions.{ordered, asked, normalize_scope_actions-eq}
use regixtry.Auth.Scope.Actions.Wildcard.{normalize_scope_actions-wildcard}
use regixtry.Auth.Scope.Canonical.{IsParsed, parse_scope-IsParsed, parse_scope-canonical}
use regixtry.Auth.Scope.Normal.{IsCanonical, parse-normalize_scopes}
use regixtry.Auth.Principal.{Principal, has_read_access, has_write_access, has_delete_access}
use regixtry.Auth.Principal.Rights.{
  Granted, InScope, Reader, PullScope, has_read_access_iff, has_write_access_iff,
  has_delete_access_iff,
}
use regixtry.Access.{
  ActionVerb, Action, AccessConfig, principal_authorize, configurable_authorize,
  authorize_delete_repository,
}
use regixtry.Access.Controller.{Entitled, principal_authorize_iff}
use regixtry.Access.RepositoryDeletion.{authorize_delete_repository_iff}
use regixtry.Examples.Office.{caller, bob, app, grant_on_app}

abbrev sevens : ℕ → List ℕ
sevens zero = []
sevens (suc n) = 7 ∷ sevens n

sevens-IsByte : (n : ℕ) → All IsByte (sevens n)
sevens-IsByte zero = tt
sevens-IsByte (suc n) = (omega arith, sevens-IsByte n)

-- A function that yields 32 bytes, in the place of a hash function.
abbrev flat_hash : List ℕ → List ℕ
flat_hash payload = sevens 32

flat_hash-sized :
    (payload : List ℕ) → (length (flat_hash payload) ≡ 32) × All IsByte (flat_hash payload)
flat_hash-sized payload = (refl, sevens-IsByte 32)

abbrev some_digest : Text
some_digest = codes "sha256:0707070707070707070707070707070709090909090909090909090909090909"

parse-digest_from_bytes_example :
    (parse_digest (digest_from_bytes flat_hash (1 ∷ []))
      ≡ ok (digest_from_bytes flat_hash (1 ∷ [])))
    × (hex_decode (encoded (digest_from_bytes flat_hash (1 ∷ []))) ≡ some (flat_hash (1 ∷ [])))
parse-digest_from_bytes_example = parse-digest_from_bytes flat_hash flat_hash-sized (1 ∷ [])

parse_digest_iff_example :
    (parse_digest some_digest ≡ ok some_digest)
    ↔ ((some_digest ≡ some_digest) × IsDigest some_digest)
parse_digest_iff_example = parse_digest_iff some_digest some_digest

some_digest-parses : parse_digest some_digest ≡ ok some_digest
unfolding parse_digest
some_digest-parses = refl

parse_digest-parts_example :
    (algorithm some_digest ≡ digest_algorithm_sha256)
    × (some_digest ≡ algorithm some_digest ++ (b':' ∷ encoded some_digest))
    × All IsHex (encoded some_digest)
    × (length (encoded some_digest) ≡ 64)
parse_digest-parts_example = parse_digest-parts some_digest some_digest-parses

parse_repository_ref_iff_example :
    (parse_repository_ref (codes "team/app") ≡ ok app)
    ↔ ((app.name ≡ codes "team/app") × IsName (codes "team/app"))
parse_repository_ref_iff_example = parse_repository_ref_iff (codes "team/app") app

app-parses : parse_repository_ref (codes "team/app") ≡ ok app
unfolding parse_repository_ref
app-parses = refl

parse_repository_ref-safe_example : All Begins (split b'/' app.name) × All NameChar app.name
parse_repository_ref-safe_example = parse_repository_ref-safe (codes "team/app") app-parses

abbrev pushing : Scope
pushing = scope_on app (action_pull ∷ action_push ∷ [])

pushing-parses : parse_scope (codes " repository:team/app:push,pull,push") ≡ ok pushing
unfolding parse_scope
pushing-parses = refl

parse_scope-IsParsed_example : IsParsed pushing
parse_scope-IsParsed_example =
    parse_scope-IsParsed (codes " repository:team/app:push,pull,push") pushing-parses

parse_scope-canonical_example : parse_scope pushing.canonical ≡ ok pushing
parse_scope-canonical_example =
    parse_scope-canonical (codes " repository:team/app:push,pull,push") pushing-parses

normalize_scope_actions-eq_example :
    (action_pull ∷ action_push ∷ []
      ≡ ordered
          (asked (codes "push,pull") action_pull)
          (asked (codes "push,pull") action_push)
          (asked (codes "push,pull") action_delete))
    × (action_pull ∷ action_push ∷ [] ≢ [])
normalize_scope_actions-eq_example =
    normalize_scope_actions-eq (codes "push,pull") {actions = action_pull ∷ action_push ∷ []}
      (unfold normalize_scope_actions in refl)

normalize_scope_actions-wildcard_example : action_wildcard ∷ [] ≡ action_wildcard ∷ []
normalize_scope_actions-wildcard_example =
    normalize_scope_actions-wildcard (codes "*, *") {actions = action_wildcard ∷ []}
      (unfold normalize_scope_actions in refl)

pushing-IsCanonical : All (λ (s : Scope). IsCanonical s.canonical) (pushing ∷ [])
pushing-IsCanonical = (
  (
    pushing,
    parse_scope-IsParsed (codes " repository:team/app:push,pull,push") pushing-parses,
    refl,
  ),
  tt,
)

parse-normalize_scopes_example :
    (scs : List Scope) × (parse_scopes (normalize_scopes (pushing ∷ []) ∷ []) ≡ ok scs)
    × ((s : Scope)
        → Elem s scs ↔ (IsParsed s × Elem s.canonical (map (λ r. r.canonical) (pushing ∷ []))))
parse-normalize_scopes_example = parse-normalize_scopes (pushing ∷ []) pushing-IsCanonical

abbrev pusher : Principal
pusher = record (caller bob (grant_on_app (codes "bob") RepoRole.writer ∷ [])) {
  scopes = pushing ∷ [];
}

has_read_access_iff_example : (has_read_access pusher (codes "team/app") ≡ true) ↔ (
    ((pusher.is_admin ≡ true) ⊎ ((pusher.is_read_only ≡ true) ⊎ Reader pusher (codes "team/app")))
    × PullScope pusher (codes "team/app"))
has_read_access_iff_example = has_read_access_iff pusher (codes "team/app")

has_write_access_iff_example : (has_write_access pusher (codes "team/app") ≡ true) ↔ (
    ((pusher.is_admin ≡ true) ⊎ Granted pusher (codes "team/app") Grant.allows_write)
    × InScope pusher (codes "team/app") allows_push)
has_write_access_iff_example = has_write_access_iff pusher (codes "team/app")

has_delete_access_iff_example : (has_delete_access pusher (codes "team/app") ≡ true) ↔ (
    ((pusher.is_admin ≡ true) ⊎ Granted pusher (codes "team/app") Grant.allows_write)
    × InScope pusher (codes "team/app") allows_delete)
has_delete_access_iff_example = has_delete_access_iff pusher (codes "team/app")

pusher_deletes_not : has_delete_access pusher (codes "team/app") ≡ false
unfolding has_delete_access
pusher_deletes_not = refl

abbrev attempt : ActionVerb → Action
attempt verb = record { verb = verb; repository = codes "team/app"; principal = some pusher }

principal_authorize_iff_example : (principal_authorize (attempt ActionVerb.push) ≡ ok tt) ↔ (
    (p : Principal) × ((attempt ActionVerb.push).principal ≡ some p)
    × Entitled ActionVerb.push (codes "team/app") p)
principal_authorize_iff_example = principal_authorize_iff (attempt ActionVerb.push)

abbrev closed : AccessConfig
closed = record { allow_anonymous_pull = true; allow_anonymous_push = false }

authorize_delete_repository_iff_example :
    (authorize_delete_repository (configurable_authorize closed) none (codes "team/app")
      ≡ configurable_authorize closed
          (record { verb = ActionVerb.delete; repository = codes "team/app"; principal = none }))
    × ((p : Principal)
        → (authorize_delete_repository (configurable_authorize closed) (some p) (codes "team/app")
            ≡ ok tt)
          ↔ ((p.is_admin ≡ true) ⊎ Granted p (codes "team/app") Grant.allows_admin))
authorize_delete_repository_iff_example =
    authorize_delete_repository_iff (configurable_authorize closed) (codes "team/app")

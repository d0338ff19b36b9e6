-- ===== src/Auth/Scope.antt =====
-- Token scopes (internal/domain/auth/scope.go).
pub mod Actions
pub mod Canonical
pub mod Normal
use regixtry.Base.{
  ℕ, Bool, true, false, ◌||◌, ◌&&◌, not, List, [], ◌∷◌, ◌++◌, Text, codes, text_eq, text_lt, ◌==◌,
  ltb, any, if◌then◌else◌, sort_by, Result, ok, err, ◌>>=◌, map, keep,
}
use regixtry.Errors.{Error}
use regixtry.Auth.Errors.{new_validation_error}
use regixtry.Strings.{trim_space, split, fields, join, is_nil}
use regixtry.Registry.Repository.{RepositoryRef, parse_repository_ref}

abbrev pub scope_type_repository : Text
scope_type_repository = codes "repository"

abbrev pub scope_type_regixtry : Text
scope_type_regixtry = codes "regixtry"

abbrev pub action_pull : Text
action_pull = codes "pull"

abbrev pub action_push : Text
action_push = codes "push"

abbrev pub action_delete : Text
action_delete = codes "delete"

abbrev pub action_catalog : Text
action_catalog = codes "catalog"

abbrev pub action_wildcard : Text
action_wildcard = codes "*"

-- `kind` is the field `Type`; the zero value of `repository` is the empty name.
pub record Scope : Type 0 where
  pub kind : Text
  pub name : Text
  pub actions : List Text
  pub canonical : Text
  pub repository : RepositoryRef

-- Whether a string is among others: a lookup in the map `seen`, or `hasAction`.
abbrev pub contains : Text → List Text → Bool
contains a xs = any (λ x. text_eq x a) xs

unfoldable pub check_action : Bool → Text → Result Error (Unit {0})
unfolding text_eq
check_action repository action =
    if is_nil action
    then err (new_validation_error "scope actions are required")
    else if repository
    then (if not (text_eq action action_pull)
          && not (text_eq action action_push)
          && not (text_eq action action_delete)
        then err (new_validation_error "repository scope actions must be pull, push, and/or delete")
        else ok tt)
    else if not (text_eq action action_wildcard)
    then err (new_validation_error "registry catalog scopes must use *")
    else ok tt

-- The loop of normalizeScopeActions; `seen` holds what `actions` holds.
unfoldable pub collect_actions : Bool → List Text → List Text → Result Error (List Text)
unfolding check_action trim_space
collect_actions repository [] actions = ok actions
collect_actions repository (part ∷ parts) actions =
    let rest =
      collect_actions repository parts
        (if contains (trim_space part) actions then actions else actions ++ trim_space part ∷ []) in
    check_action repository (trim_space part) >>= λ _. rest

unfoldable pub weight : Text → ℕ
unfolding text_eq
weight action =
    if text_eq action action_pull
    then 0
    else if text_eq action action_push
    then 1
    else if text_eq action action_delete
    then 2
    else 3

unfoldable pub sort_actions : Bool → List Text → List Text
unfolding weight text_lt
sort_actions true = sort_by (λ a b. ltb (weight a) (weight b))
sort_actions false = sort_by text_lt

abbrev require_actions : List Text → Result Error (List Text)
require_actions [] = err (new_validation_error "scope actions are required")
require_actions (a ∷ rest) = ok (a ∷ rest)

unfoldable pub normalize_scope_actions : Text → Bool → Result Error (List Text)
unfolding collect_actions sort_actions trim_space split
normalize_scope_actions raw repository = do
  parts ← require_actions (split b',' (trim_space raw))
  actions ← collect_actions repository parts []
  require_actions (sort_actions repository actions)

-- kind ":" name ":" actions
abbrev pub canonical_of : Text → Text → List Text → Text
canonical_of kind name actions = kind ++ (b':' ∷ (name ++ (b':' ∷ join b',' actions)))

-- The two composite literals of ParseScope.
abbrev pub scope_on : RepositoryRef → List Text → Scope
scope_on repository actions = record {
  kind = scope_type_repository;
  name = repository.name;
  actions = actions;
  canonical = canonical_of scope_type_repository repository.name actions;
  repository = repository;
}

abbrev pub catalog_scope : Text → List Text → Scope
catalog_scope name actions = record {
  kind = scope_type_regixtry;
  name = name;
  actions = actions;
  canonical = canonical_of scope_type_regixtry name actions;
  repository = record { name = [] };
}

unfoldable pub repository_scope : Text → Text → Result Error Scope
unfolding parse_repository_ref normalize_scope_actions join
repository_scope name raw = do
  repository ← parse_repository_ref name
  actions ← normalize_scope_actions raw true
  ok (scope_on repository actions)

unfoldable pub regixtry_scope : Text → Text → Result Error Scope
unfolding normalize_scope_actions text_eq join
regixtry_scope name raw =
    let found = (do actions ← normalize_scope_actions raw false; ok (catalog_scope name actions)) in
    if not (text_eq name action_catalog)
    then err (new_validation_error "registry scope name is invalid")
    else found

-- The `switch` of ParseScope, on the trimmed parts
unfoldable pub scope_of_kind : Text → Text → Text → Result Error Scope
unfolding text_eq repository_scope regixtry_scope
scope_of_kind kind name actions =
    if is_nil name
    then err (new_validation_error "scope resource name is required")
    else if text_eq kind scope_type_repository
    then repository_scope name actions
    else if text_eq kind scope_type_regixtry
    then regixtry_scope name actions
    else err (new_validation_error "scope resource type is invalid")

-- The part of ParseScope behind the split
unfoldable pub scope_of_parts : List Text → Result Error Scope
unfolding trim_space scope_of_kind
scope_of_parts (kind ∷ name ∷ actions ∷ []) =
    scope_of_kind (trim_space kind) (trim_space name) actions
scope_of_parts _ = err (new_validation_error "scope must use the format <type>:<name>:<actions>")

unfoldable pub parse_scope : Text → Result Error Scope
unfolding split trim_space scope_of_parts
parse_scope raw = scope_of_parts (split b':' (trim_space raw))

-- The inner loop of ParseScopes
unfoldable pub parse_candidates : List Text → Result Error (List Scope)
unfolding parse_scope
parse_candidates [] = ok []
parse_candidates (candidate ∷ rest) =
    let later = parse_candidates rest in
    if is_nil candidate
    then later
    else (do scope ← parse_scope candidate; scopes ← later; ok (scope ∷ scopes))

unfoldable pub parse_scopes : List Text → Result Error (List Scope)
unfolding parse_candidates fields trim_space
parse_scopes [] = ok []
parse_scopes (value ∷ values) = do
  first ← parse_candidates (fields (trim_space value))
  rest ← parse_scopes values
  ok (first ++ rest)

-- The canonical texts, each once, without the empty one
unfoldable pub distinct : List Text → List Text → List Text
unfolding text_eq
distinct seen [] = []
distinct seen (c ∷ cs) =
    let later = distinct (if is_nil c then seen else c ∷ seen) cs in
    if is_nil c || contains c seen then later else c ∷ later

unfoldable pub normalize_scopes : List Scope → Text
unfolding distinct text_lt join
normalize_scopes scopes = join b' ' (sort_by text_lt (distinct [] (map (λ s. s.canonical) scopes)))

unfoldable pub is_repository : Scope → Bool
unfolding text_eq
is_repository s = text_eq s.kind scope_type_repository

abbrev pub only_wildcard : List Text → Bool
only_wildcard (a ∷ []) = text_eq a action_wildcard
only_wildcard _ = false

unfoldable pub is_regixtry_catalog : Scope → Bool
unfolding text_eq
is_regixtry_catalog s =
    text_eq s.kind scope_type_regixtry && text_eq s.name action_catalog && only_wildcard s.actions

unfoldable pub allows_pull : Scope → Bool
unfolding text_eq
allows_pull s = contains action_pull s.actions

unfoldable pub allows_push : Scope → Bool
unfolding text_eq
allows_push s = contains action_push s.actions

unfoldable pub allows_delete : Scope → Bool
unfolding text_eq
allows_delete s = contains action_delete s.actions

-- ===== src/Auth/Scope/Canonical.antt =====
-- ParseScope and the field `Canonical`: parsing the canonical text gives the scope back.
use regixtry.Base.{
  ℕ, Bool, true, false, ◌&&◌, not, List, [], ◌∷◌, ◌++◌, ◌≡◌, ◌≢◌, inl, inr, refl, ap, ◌∙◌, sym,
  Text, text_eq, text_eq_iff, arith, ◌==◌, All-map, All-append, if◌then◌else◌, Result, ok, err,
  >>=-eq-ok, Bool-cases,
}
use mathlib.Core.Path.{subst}
use regixtry.Errors.{Error}
use regixtry.Strings.{is_space, trim_space, split, join, is_nil}
use regixtry.Strings.Splitting.{Lacks, NonEmpty, split-join}
use regixtry.Strings.Trimming.{trim_space-Lacks}
use regixtry.Registry.Repository.{RepositoryRef, parse_repository_ref}
use regixtry.Registry.Repository.Names.{
  IsName, NameChar, parse_repository_ref_iff, IsName-chars, IsName-ends,
}
use regixtry.Auth.Scope.{
  Scope, scope_type_repository, scope_type_regixtry, action_catalog, action_wildcard, action_pull,
  action_push, action_delete, normalize_scope_actions, scope_on, catalog_scope, repository_scope,
  regixtry_scope, scope_of_kind, scope_of_parts, parse_scope,
}
use regixtry.Auth.Scope.Actions.{ordered, asked, normalize_scope_actions-eq}
use regixtry.Auth.Scope.Actions.Wildcard.{normalize_scope_actions-wildcard}

-- A scope's text is plain where it holds no white space and no colon.
abbrev pub Plain : Text → Type 0
Plain s = Lacks is_space s × Lacks (λ c. c == b':') s

name_plain : (c : ℕ) → NameChar c → (is_space c ≡ false) × ((c == b':') ≡ false)
unfolding is_space
name_plain c h = (ground arith, ground arith)

IsName-Plain : (v : Text) → IsName v → Plain v
IsName-Plain v n = (
  All-map NameChar _ v (λ c h. (name_plain c h).0) (IsName-chars v n),
  All-map NameChar _ v (λ c h. (name_plain c h).1) (IsName-chars v n),
)

canonical-Lacks :
    (p : ℕ → Bool) (kind name acts : Text)
    → p b':' ≡ false
    → Lacks p kind
    → Lacks p name
    → Lacks p acts
    → Lacks p (kind ++ (b':' ∷ (name ++ (b':' ∷ acts))))
canonical-Lacks p kind name acts c k n a = All-append _ kind _ k (c, All-append _ name _ n (c, a))

split-three :
    (kind name acts : Text)
    → Plain kind
    → Plain name
    → Plain acts
    → split b':' (trim_space (kind ++ (b':' ∷ (name ++ (b':' ∷ acts))))) ≡ kind ∷ name ∷ acts ∷ []
split-three kind name acts k n a =
    ap (split b':') (
      trim_space-Lacks _
        (canonical-Lacks is_space kind name acts (unfold is_space in refl) k.0 n.0 a.0))
    ∙ (unfold join in split-join b':' kind (name ∷ acts ∷ []) (k.1, (n.1, (a.1, tt))))

plain_test : Text → Bool
plain_test [] = true
plain_test (c ∷ s) = (not (is_space c) && not (c == b':')) && plain_test s

Plain-of_test : (s : Text) → plain_test s ≡ true → Plain s
unfolding plain_test
Plain-of_test [] h = (tt, tt)
Plain-of_test (c ∷ s) h =
    let (a, b) = Plain-of_test s (ground arith) in ((ground arith, a), (ground arith, b))

-- The actions' text, for each list of flags.
ordered_test : (p q r : Bool) → plain_test (join b',' (ordered p q r)) ≡ true
unfolding plain_test is_space join
ordered_test false false false = refl
ordered_test true true true = refl
ordered_test true true false = refl
ordered_test true false true = refl
ordered_test true false false = refl
ordered_test false true true = refl
ordered_test false true false = refl
ordered_test false false true = refl

ordered-Plain : (p q r : Bool) → Plain (join b',' (ordered p q r))
ordered-Plain p q r = Plain-of_test (join b',' (ordered p q r)) (ordered_test p q r)

normalize-ordered :
    (p q r : Bool)
    → ordered p q r ≢ []
    → normalize_scope_actions (join b',' (ordered p q r)) true ≡ ok (ordered p q r)
unfolding normalize_scope_actions join
normalize-ordered false false false h = absurd (h refl)
normalize-ordered true true true h = refl
normalize-ordered true true false h = refl
normalize-ordered true false true h = refl
normalize-ordered true false false h = refl
normalize-ordered false true true h = refl
normalize-ordered false true false h = refl
normalize-ordered false false true h = refl

repository-Plain : Plain scope_type_repository
unfolding plain_test is_space
repository-Plain = Plain-of_test scope_type_repository refl

catalog-Plain :
    Plain scope_type_regixtry × Plain action_catalog × Plain (join b',' (action_wildcard ∷ []))
unfolding plain_test is_space join
catalog-Plain = (
  Plain-of_test scope_type_regixtry refl,
  Plain-of_test action_catalog refl,
  Plain-of_test (join b',' (action_wildcard ∷ [])) refl,
)

-- What a scope that was parsed looks like.
pub data IsParsed : Scope → Type 0 where
  of_repository :
      (r : RepositoryRef) (p q d : Bool)
      → parse_repository_ref r.name ≡ ok r
      → ordered p q d ≢ []
      → IsParsed (scope_on r (ordered p q d))
  of_catalog : IsParsed (catalog_scope action_catalog (action_wildcard ∷ []))

parse_again :
    (name : Text) {r : RepositoryRef}
    → parse_repository_ref name ≡ ok r
    → parse_repository_ref r.name ≡ ok r
parse_again name {r} h = ap parse_repository_ref ((parse_repository_ref_iff name r).0 h).0 ∙ h

repository_scope-IsParsed :
    (name raw : Text) {s : Scope} → repository_scope name raw ≡ ok s → IsParsed s
unfolding repository_scope
repository_scope-IsParsed name raw {s} h =
    let (r, hr, h1) = >>=-eq-ok (parse_repository_ref name) _ h in
    let (actions, ha, h2) = >>=-eq-ok (normalize_scope_actions raw true) _ h1 in
    let (listed, filled) = normalize_scope_actions-eq raw ha in
    let e : scope_on r actions ≡ s = cc in
    subst IsParsed (ap (scope_on r) (sym listed) ∙ e) (
      of_repository r (asked raw action_pull) (asked raw action_push) (asked raw action_delete)
        (parse_again name hr) (λ q. filled (listed ∙ q)))

regixtry_scope-IsParsed :
    (name raw : Text) {s : Scope} → regixtry_scope name raw ≡ ok s → IsParsed s
unfolding regixtry_scope
regixtry_scope-IsParsed name raw {s} h = elim (Bool-cases (text_eq name action_catalog)) [
  | inl e ↦
      let (actions, ha, h2) =
        >>=-eq-ok (normalize_scope_actions raw false) (λ a. ok (catalog_scope name a))
          (rw e at h) in
      let f : catalog_scope name actions ≡ s = cc in
      subst IsParsed
        (ap (λ (n : Text). catalog_scope n (action_wildcard ∷ []))
            (sym ((text_eq_iff name action_catalog).0 e))
          ∙ ap (catalog_scope name) (sym (normalize_scope_actions-wildcard raw ha))
          ∙ f)
        of_catalog
  | inr e ↦ absurd (ground arith)
]

-- The ladder of tests: success comes from one of the two constructors.
choose :
    (a b c : Bool) (x y : Result Error Scope) (e f : Error) {s : Scope}
    → (if a then err e else if b then x else if c then y else err f) ≡ ok s
    → (x ≡ ok s → IsParsed s)
    → (y ≡ ok s → IsParsed s)
    → IsParsed s
choose true b c x y e f h k l = absurd (cc)
choose false true c x y e f h k l = k h
choose false false true x y e f h k l = l h
choose false false false x y e f h k l = absurd (cc)

scope_of_parts-IsParsed : (parts : List Text) {s : Scope} → scope_of_parts parts ≡ ok s → IsParsed s
unfolding scope_of_parts
scope_of_parts-IsParsed [] h = absurd (cc)
scope_of_parts-IsParsed (kind ∷ []) h = absurd (cc)
scope_of_parts-IsParsed (kind ∷ name ∷ []) h = absurd (cc)
scope_of_parts-IsParsed (kind ∷ name ∷ actions ∷ []) {s} h =
    choose (is_nil (trim_space name)) (text_eq (trim_space kind) scope_type_repository)
      (text_eq (trim_space kind) scope_type_regixtry) _ _ _ _ h
      (repository_scope-IsParsed (trim_space name) actions)
      (regixtry_scope-IsParsed (trim_space name) actions)
scope_of_parts-IsParsed (kind ∷ name ∷ actions ∷ x ∷ rest) h = absurd (cc)

-- Every scope that ParseScope returns is a repository scope with a parsed name and at least one of
-- pull, push and delete in that order, or the catalog scope.
pub parse_scope-IsParsed : (raw : Text) {s : Scope} → parse_scope raw ≡ ok s → IsParsed s
unfolding parse_scope
parse_scope-IsParsed raw h = scope_of_parts-IsParsed (split b':' (trim_space raw)) h

repository_scope-ordered :
    (r : RepositoryRef) (p q d : Bool)
    → parse_repository_ref r.name ≡ ok r
    → ordered p q d ≢ []
    → repository_scope r.name (join b',' (ordered p q d)) ≡ ok (scope_on r (ordered p q d))
repository_scope-ordered r p q d hr filled =
    repository_scope-eq r.name (join b',' (ordered p q d)) hr (normalize-ordered p q d filled)
  where
    repository_scope-eq :
        (name raw : Text) {r : RepositoryRef} {actions : List Text}
        → parse_repository_ref name ≡ ok r
        → normalize_scope_actions raw true ≡ ok actions
        → repository_scope name raw ≡ ok (scope_on r actions)
    repository_scope-eq name raw h k = unfold repository_scope in rw (h, k)

name_filled : (v : Text) → IsName v → is_nil v ≡ false
name_filled v n = ground (arith, IsName-ends v n)

scope_of_parts-repository :
    (name raw : Text)
    → trim_space name ≡ name
    → is_nil name ≡ false
    → scope_of_parts (scope_type_repository ∷ name ∷ raw ∷ []) ≡ repository_scope name raw
scope_of_parts-repository name raw trimmed filled =
    let first : scope_of_parts (scope_type_repository ∷ name ∷ raw ∷ [])
        ≡ scope_of_kind scope_type_repository name raw =
      unfold scope_of_parts in
      ap (λ (n : Text). scope_of_kind scope_type_repository n raw) trimmed in
    let second : scope_of_kind scope_type_repository name raw ≡ repository_scope name raw =
      unfold scope_of_kind in rw filled in
    first ∙ second

pub IsParsed-parses : {s : Scope} → IsParsed s → parse_scope s.canonical ≡ ok s
unfolding parse_scope
IsParsed-parses (of_repository r p q d hr filled) =
    let (_, n) = (parse_repository_ref_iff r.name r).0 hr in
    let plain = IsName-Plain r.name n in
    ap scope_of_parts (
      split-three scope_type_repository r.name (join b',' (ordered p q d)) repository-Plain plain
        (ordered-Plain p q d))
    ∙ scope_of_parts-repository r.name (join b',' (ordered p q d)) (trim_space-Lacks r.name plain.0)
        (name_filled r.name n)
    ∙ repository_scope-ordered r p q d hr filled
IsParsed-parses of_catalog = refl

-- Parsing is idempotent through the canonical text: the canonical text of a parsed scope parses to
-- the same scope.
pub parse_scope-canonical :
    (raw : Text) {s : Scope} → parse_scope raw ≡ ok s → parse_scope s.canonical ≡ ok s
parse_scope-canonical raw h = IsParsed-parses (parse_scope-IsParsed raw h)

-- The canonical text of a parsed scope is not empty and holds no white space.
pub IsParsed-text : {s : Scope} → IsParsed s → NonEmpty s.canonical × Lacks is_space s.canonical
IsParsed-text (of_repository r p q d hr filled) =
    let (_, n) = (parse_repository_ref_iff r.name r).0 hr in
    (
      refl,
      canonical-Lacks is_space scope_type_repository r.name (join b',' (ordered p q d))
          (unfold is_space in refl) repository-Plain.0 (IsName-Plain r.name n).0
          (ordered-Plain p q d).0,
    )
IsParsed-text of_catalog =
    let (k, n, a) = catalog-Plain in
    (
      refl,
      canonical-Lacks is_space scope_type_regixtry action_catalog (join b',' (action_wildcard ∷ []))
          (unfold is_space in refl) k.0 n.0 a.0,
    )

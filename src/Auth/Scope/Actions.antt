-- ===== src/Auth/Scope/Actions.antt =====
-- normalizeScopeActions: the result is the requested actions, each once, in a fixed order.
pub mod Wildcard
use regixtry.Base.{
  Bool, true, false, ◌||◌, List, [], ◌∷◌, ◌++◌, ◌≡◌, ◌≢◌, ◌⊎◌, inl, inr, refl, ap, ◌∙◌, Text,
  text_eq, text_eq_iff, arith, ltb, any, All, if◌then◌else◌, sorted_insert, ok, >>=-eq-ok,
  All-append, Bool-cases,
}
use regixtry.Strings.{trim_space, split}
use regixtry.Auth.Scope.{
  action_pull, action_push, action_delete, contains, check_action, collect_actions, weight,
  sort_actions, require_actions, normalize_scope_actions,
}

-- The actions of a repository scope.
abbrev pub KnownAction : Text → Type 0
KnownAction a = (a ≡ action_pull) ⊎ ((a ≡ action_push) ⊎ (a ≡ action_delete))

-- The list of the three actions whose flag is set, in the order pull, push, delete.
abbrev pub ordered : Bool → Bool → Bool → List Text
ordered true true true = action_pull ∷ action_push ∷ action_delete ∷ []
ordered true true false = action_pull ∷ action_push ∷ []
ordered true false true = action_pull ∷ action_delete ∷ []
ordered true false false = action_pull ∷ []
ordered false true true = action_push ∷ action_delete ∷ []
ordered false true false = action_push ∷ []
ordered false false true = action_delete ∷ []
ordered false false false = []

abbrev Distinct : List Text → Type 0
Distinct [] = Unit
Distinct (a ∷ rest) = (contains a rest ≡ false) × Distinct rest

check_action-KnownAction : (a : Text) {u : Unit {0}} → check_action true a ≡ ok u → KnownAction a
unfolding check_action
check_action-KnownAction a h =
    ground
      (arith, text_eq_iff a action_pull, text_eq_iff a action_push, text_eq_iff a action_delete)

insert_pull :
    (p q r : Bool)
    → p ≡ false
    → sorted_insert (λ a b. ltb (weight a) (weight b)) action_pull (ordered p q r)
      ≡ ordered true q r
unfolding weight text_eq
insert_pull true q r e = absurd (cc)
insert_pull false true true e = refl
insert_pull false true false e = refl
insert_pull false false true e = refl
insert_pull false false false e = refl

insert_push :
    (p q r : Bool)
    → q ≡ false
    → sorted_insert (λ a b. ltb (weight a) (weight b)) action_push (ordered p q r)
      ≡ ordered p true r
unfolding weight text_eq
insert_push p true r e = absurd (cc)
insert_push true false true e = refl
insert_push true false false e = refl
insert_push false false true e = refl
insert_push false false false e = refl

insert_delete :
    (p q r : Bool)
    → r ≡ false
    → sorted_insert (λ a b. ltb (weight a) (weight b)) action_delete (ordered p q r)
      ≡ ordered p q true
unfolding weight text_eq
insert_delete p q true e = absurd (cc)
insert_delete true true false e = refl
insert_delete true false false e = refl
insert_delete false true false e = refl
insert_delete false false false e = refl

abbrev flags : List Text → List Text
flags xs = ordered (contains action_pull xs) (contains action_push xs) (contains action_delete xs)

-- Sorting distinct known actions lists the flags that are set.
sort-flags : (xs : List Text) → All KnownAction xs → Distinct xs → sort_actions true xs ≡ flags xs
unfolding sort_actions
sort-flags [] h d = refl
sort-flags (x ∷ xs) (inl e, h) d = rw (sort-flags xs h d.1, e) (insert_pull _ _ _ (rw e at (d.0)))
sort-flags (x ∷ xs) (inr (inl e), h) d =
    rw (sort-flags xs h d.1, e) (insert_push _ _ _ (rw e at (d.0)))
sort-flags (x ∷ xs) (inr (inr e), h) d =
    rw (sort-flags xs h d.1, e) (insert_delete _ _ _ (rw e at (d.0)))

contains-append :
    (a : Text) (xs : List Text) (y : Text)
    → contains a (xs ++ y ∷ []) ≡ (contains a xs || text_eq y a)
contains-append a [] y = ground arith
contains-append a (x ∷ xs) y = ground (arith, contains-append a xs y)

Distinct-append :
    (xs : List Text) (y : Text) → Distinct xs → contains y xs ≡ false → Distinct (xs ++ y ∷ [])
Distinct-append [] y d h = (refl, tt)
Distinct-append (x ∷ xs) y d h = (
  contains-append x xs y ∙ ground (arith, text_eq_iff y x, text_eq_iff x y),
  Distinct-append xs y d.1 (ground arith),
)

abbrev add_once : Text → List Text → List Text
add_once a actions = if contains a actions then actions else actions ++ a ∷ []

add_once-Known :
    (a : Text) (actions : List Text)
    → KnownAction a
    → All KnownAction actions
    → Distinct actions
    → All KnownAction (add_once a actions) × Distinct (add_once a actions)
add_once-Known a actions h k d = elim (Bool-cases (contains a actions)) [
  | inl e ↦ rw e (k, d)
  | inr e ↦ rw e (All-append KnownAction actions (a ∷ []) k (h, tt), Distinct-append actions a d e)
]

-- What the loop returns from a known, distinct list of actions.
collect-Known :
    (parts actions : List Text) {result : List Text}
    → All KnownAction actions
    → Distinct actions
    → collect_actions true parts actions ≡ ok result
    → All KnownAction result × Distinct result
unfolding collect_actions
collect-Known [] actions {result} k d h = let e : actions ≡ result = cc in rw (← e) (k, d)
collect-Known (part ∷ parts) actions k d h =
    let (_, known, rest) = >>=-eq-ok (check_action true (trim_space part)) _ h in
    let (k', d') =
      add_once-Known (trim_space part) actions (check_action-KnownAction (trim_space part) known) k
        d in
    collect-Known parts (add_once (trim_space part) actions) k' d' rest

contains-add_once :
    (a b : Text) (actions : List Text)
    → contains b (add_once a actions) ≡ (contains b actions || text_eq a b)
contains-add_once a b actions = elim (Bool-cases (contains a actions)) [
  | inl e ↦ rw e (covered (Bool-cases (text_eq a b)) e)
  | inr e ↦ rw e (contains-append b actions a)
]
  where
    covered :
        (text_eq a b ≡ true) ⊎ (text_eq a b ≡ false)
        → contains a actions ≡ true
        → contains b actions ≡ (contains b actions || text_eq a b)
    covered (inl q) e =
        let f : a ≡ b = (text_eq_iff a b).0 q in
        rw q (ground (arith, ap (λ (t : Text). contains t actions) f))
    covered (inr q) e = ground arith

-- The trimmed parts are collected: an action is in the result if it was there or is a trimmed part.
collect-contains :
    (b : Bool) (parts actions : List Text) {result : List Text} (a : Text)
    → collect_actions b parts actions ≡ ok result
    → contains a result ≡ (contains a actions || any (λ p. text_eq (trim_space p) a) parts)
unfolding collect_actions
collect-contains b [] actions {result} a h =
    let e : actions ≡ result = cc in rw (← e) (ground arith)
collect-contains b (part ∷ parts) actions a h =
    let (_, _, rest) = >>=-eq-ok (check_action b (trim_space part)) _ h in
    ground (
      arith,
      collect-contains b parts (add_once (trim_space part) actions) a rest,
      contains-add_once (trim_space part) a actions,
    )

-- Whether an action is asked for: one of the parts between commas is it, up to white space.
abbrev pub asked : Text → Text → Bool
asked raw a = any (λ p. text_eq (trim_space p) a) (split b',' (trim_space raw))

abbrev asked_of : List Text → List Text
asked_of parts =
    ordered (any (λ p. text_eq (trim_space p) action_pull) parts)
      (any (λ p. text_eq (trim_space p) action_push) parts)
      (any (λ p. text_eq (trim_space p) action_delete) parts)

flags-collect :
    (parts : List Text) {found : List Text}
    → collect_actions true parts [] ≡ ok found
    → flags found ≡ asked_of parts
flags-collect parts h = rw (
  collect-contains true parts [] action_pull h,
  collect-contains true parts [] action_push h,
  collect-contains true parts [] action_delete h,
)

require_actions-ok :
    (xs : List Text) {result : List Text}
    → require_actions xs ≡ ok result
    → (result ≡ xs) × (result ≢ [])
require_actions-ok [] h = absurd (cc)
require_actions-ok (x ∷ xs) h = (cc, λ e. cc)

-- The normalized actions of a repository scope are those of pull, push and delete that the text
-- asks for, each once, in that order, and there is at least one.
pub normalize_scope_actions-eq :
    (raw : Text) {actions : List Text}
    → normalize_scope_actions raw true ≡ ok actions
    → (actions ≡ ordered (asked raw action_pull) (asked raw action_push) (asked raw action_delete))
      × (actions ≢ [])
unfolding normalize_scope_actions
normalize_scope_actions-eq raw h =
    let (parts, hp, h1) = >>=-eq-ok (require_actions (split b',' (trim_space raw))) _ h in
    let (found, hf, h2) = >>=-eq-ok (collect_actions true parts []) _ h1 in
    let (same, filled) = require_actions-ok (sort_actions true found) h2 in
    let (known, single) = collect-Known parts [] tt tt hf in
    (
      same
          ∙ sort-flags found known single
          ∙ flags-collect parts hf
          ∙ ap asked_of (require_actions-ok (split b',' (trim_space raw)) hp).0,
      filled,
    )

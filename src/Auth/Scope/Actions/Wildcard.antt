-- ===== src/Auth/Scope/Actions/Wildcard.antt =====
-- normalizeScopeActions for a registry scope.
use regixtry.Base.{
  false, List, [], ◌∷◌, ◌≡◌, ◌≢◌, ◌⊎◌, inl, inr, refl, ◌∙◌, Text, text_eq, text_eq_iff, arith, ok,
  >>=-eq-ok,
}
use regixtry.Strings.{trim_space, split}
use regixtry.Auth.Scope.{
  action_wildcard, check_action, collect_actions, sort_actions, require_actions,
  normalize_scope_actions,
}
use regixtry.Auth.Scope.Actions.{add_once, require_actions-ok}

-- Nothing collected yet, or the wildcard once.
abbrev OnlyWild : List Text → Type 0
OnlyWild xs = (xs ≡ []) ⊎ (xs ≡ action_wildcard ∷ [])

check_action-wild : (a : Text) {u : Unit {0}} → check_action false a ≡ ok u → a ≡ action_wildcard
unfolding check_action
check_action-wild a h = ground (arith, text_eq_iff a action_wildcard)

add_once-wild : (xs : List Text) → OnlyWild xs → OnlyWild (add_once action_wildcard xs)
unfolding text_eq
add_once-wild xs (inl e) = rw e (inr refl)
add_once-wild xs (inr e) = rw e (inr refl)

collect-wild :
    (parts actions : List Text) {result : List Text}
    → OnlyWild actions
    → collect_actions false parts actions ≡ ok result
    → OnlyWild result
unfolding collect_actions
collect-wild [] actions {result} w h = let e : actions ≡ result = cc in rw (← e) w
collect-wild (part ∷ parts) actions w h =
    let (_, wild, rest) = >>=-eq-ok (check_action false (trim_space part)) _ h in
    let e = check_action-wild (trim_space part) wild in
    collect-wild parts (add_once (trim_space part) actions) (rw e (add_once-wild actions w)) rest

sort-wild :
    (xs : List Text)
    → OnlyWild xs
    → sort_actions false xs ≢ []
    → sort_actions false xs ≡ action_wildcard ∷ []
unfolding sort_actions
sort-wild xs (inl e) h = absurd (h (rw e))
sort-wild xs (inr e) h = rw e

-- The normalized actions of a registry scope are the wildcard alone.
pub normalize_scope_actions-wildcard :
    (raw : Text) {actions : List Text}
    → normalize_scope_actions raw false ≡ ok actions
    → actions ≡ action_wildcard ∷ []
unfolding normalize_scope_actions
normalize_scope_actions-wildcard raw h =
    let (parts, hp, h1) = >>=-eq-ok (require_actions (split b',' (trim_space raw))) _ h in
    let (found, hf, h2) = >>=-eq-ok (collect_actions false parts []) _ h1 in
    let (same, filled) = require_actions-ok (sort_actions false found) h2 in
    same ∙ sort-wild found (collect-wild parts [] (inl refl) hf) (λ e. filled (same ∙ e))

-- ===== src/Auth/Scope/Normal.antt =====
-- NormalizeScopes and ParseScopes: the normal text of parsed scopes parses back to the scopes.
use regixtry.Base.{
  true, false, ◌||◌, List, [], ◌∷◌, append-nil, ◌≡◌, ◌↔◌, ◌⊎◌, inl, inr, refl, ap, ◌∙◌, sym, Text,
  text_eq, text_eq_iff, text_lt, All, All-elem, All-of_Elem, Elem, Elem-of_any, map, All-of_map,
  All-map, Elem-map, map-Elem, if◌then◌else◌, sort_by, sort-Elem, Elem-sort, ok, Bool-cases,
  any_of_Elem, text_eq_refl,
}
use mathlib.Core.Path.{subst}
use regixtry.Strings.{is_space, trim_space, fields, join, is_nil}
use regixtry.Strings.Splitting.{Lacks, NonEmpty, fields-join}
use regixtry.Strings.Trimming.{trim_space-join}
use regixtry.Auth.Scope.{
  Scope, contains, parse_scope, parse_candidates, parse_scopes, distinct, normalize_scopes,
}
use regixtry.Auth.Scope.Canonical.{IsParsed, IsParsed-parses, IsParsed-text}

-- The canonical texts that NormalizeScopes joins.
abbrev pub normal_list : List Scope → List Text
normal_list scopes = sort_by text_lt (distinct [] (map (λ s. s.canonical) scopes))

Elem-contains : (a : Text) (xs : List Text) → contains a xs ≡ true → Elem a xs
Elem-contains a xs h =
    let (x, m, e) = Elem-of_any (λ x. text_eq x a) xs h in
    subst (λ (t : Text). Elem t xs) ((text_eq_iff x a).0 e) m

contains-Elem : (a : Text) (xs : List Text) → Elem a xs → contains a xs ≡ true
contains-Elem a xs m = any_of_Elem (λ x. text_eq x a) a xs m (text_eq_refl a)

-- What `distinct` keeps is in the list, ...
Elem-distinct : (a : Text) (seen cs : List Text) → Elem a (distinct seen cs) → Elem a cs
unfolding distinct
Elem-distinct a seen [] h = h
Elem-distinct a seen (c ∷ cs) h = elim (Bool-cases (is_nil c || contains c seen)) [
  | inl e ↦ inr (Elem-distinct a (if is_nil c then seen else c ∷ seen) cs (rw e at h))
  | inr e ↦ later (rw e at h) (Elem-distinct a (if is_nil c then seen else c ∷ seen) cs)
]
  where
    later :
        Elem a (c ∷ distinct (if is_nil c then seen else c ∷ seen) cs)
        → (Elem a (distinct (if is_nil c then seen else c ∷ seen) cs) → Elem a cs)
        → Elem a (c ∷ cs)
    later (inl e) f = inl e
    later (inr m) f = inr (f m)

module _ (a c : Text) (seen : List Text) where
  from_seen : Elem a (if is_nil c then seen else c ∷ seen) → (a ≡ c) ⊎ Elem a seen
  from_seen m = elim (Bool-cases (is_nil c)) [ inl e ↦ inr (rw e at m) | inr e ↦ rw e at m ]

  -- The head of the list, behind the test of the loop.
  kept_head :
      (rest : List Text)
      → a ≡ c
      → NonEmpty a
      → Elem a seen ⊎ Elem a (if is_nil c || contains c seen then rest else c ∷ rest)
  kept_head rest e n = elim (Bool-cases (contains c seen)) [
    | inl h ↦ inl (subst (λ (t : Text). Elem t seen) (sym e) (Elem-contains c seen h))
    | inr h ↦ let filled : is_nil c ≡ false = ap is_nil (sym e) ∙ n in rw (filled, h) (inr (inl e))
  ]

  kept_tail :
      (rest : List Text)
      → Elem a rest
      → Elem a (if is_nil c || contains c seen then rest else c ∷ rest)
  kept_tail rest m = elim (Bool-cases (is_nil c || contains c seen)) [
    | inl h ↦ rw h m
    | inr h ↦ rw h (inr m)
  ]

-- ... and a non-empty text of the list is kept, unless it was seen before.
distinct-Elem :
    (a : Text) (seen cs : List Text)
    → NonEmpty a
    → Elem a cs
    → Elem a seen ⊎ Elem a (distinct seen cs)
unfolding distinct
distinct-Elem a seen [] n m = absurd m
distinct-Elem a seen (c ∷ cs) n (inl e) = kept_head a c seen _ e n
distinct-Elem a seen (c ∷ cs) n (inr m) =
    elim (distinct-Elem a (if is_nil c then seen else c ∷ seen) cs n m) [
      | inl old ↦ elim (from_seen a c seen old) [ inl e ↦ kept_head a c seen _ e n | inr k ↦ inl k ]
      | inr new ↦ inr (kept_tail a c seen _ new)
    ]

-- A text is canonical where it is the canonical text of a parsed scope.
abbrev pub IsCanonical : Text → Type 0
IsCanonical t = (s : Scope) × IsParsed s × (s.canonical ≡ t)

canonical_text : (t : Text) → IsCanonical t → NonEmpty t × Lacks is_space t
canonical_text t (s, parsed, e) =
    subst (λ (u : Text). NonEmpty u × Lacks is_space u) e (IsParsed-text parsed)

normal-canonical :
    (scopes : List Scope)
    → All (λ s. IsCanonical s.canonical) scopes
    → (t : Text) → Elem t (normal_list scopes) ↔ Elem t (map (λ s. s.canonical) scopes)
normal-canonical scopes h t = (
  λ m. Elem-distinct t [] texts (Elem-sort text_lt t (distinct [] texts) m),
  λ m. kept (
      distinct-Elem t [] texts
        (canonical_text t
          (All-elem IsCanonical t texts (All-of_map (λ s. s.canonical) IsCanonical scopes h) m)).0
        m),
)
  where
    texts : List Text
    texts = map (λ s. s.canonical) scopes

    kept : Elem t [] ⊎ Elem t (distinct [] texts) → Elem t (normal_list scopes)
    kept (inl m) = absurd m
    kept (inr m) = sort-Elem text_lt t (distinct [] texts) m

-- Canonical texts parse one by one.
parse-candidates :
    (cs : List Text)
    → All IsCanonical cs
    → (scs : List Scope) × (parse_candidates cs ≡ ok scs)
      × (map (λ s. s.canonical) scs ≡ cs)
      × All IsParsed scs
unfolding parse_candidates
parse-candidates [] h = ([], refl, refl, tt)
parse-candidates (c ∷ cs) ((s, parsed, e), h) =
    let (scs, ok_rest, texts, all_parsed) = parse-candidates cs h in
    let first : parse_scope c ≡ ok s = ap parse_scope (sym e) ∙ IsParsed-parses parsed in
    (
      s ∷ scs,
      rw ((canonical_text c (s, parsed, e)).0, first, ok_rest),
      cc (e, texts),
      (parsed, all_parsed),
    )

parse_scopes-one :
    (text : Text) (cs : List Text) {scs : List Scope}
    → fields (trim_space text) ≡ cs
    → parse_candidates cs ≡ ok scs
    → parse_scopes (text ∷ []) ≡ ok scs
parse_scopes-one text cs {scs} e h =
    let candidates : parse_candidates (fields (trim_space text)) ≡ ok scs =
      ap parse_candidates e ∙ h in
    single candidates
  where
    single :
        parse_candidates (fields (trim_space text)) ≡ ok scs → parse_scopes (text ∷ []) ≡ ok scs
    single k = unfold parse_scopes in rw k (ap ok (append-nil scs))

same_scope : (s t : Scope) → IsParsed s → IsParsed t → s.canonical ≡ t.canonical → s ≡ t
same_scope s t ps pt e =
    let both : ok s ≡ ok t = sym (IsParsed-parses ps) ∙ ap parse_scope e ∙ IsParsed-parses pt in cc

normal-IsCanonical :
    (scopes : List Scope)
    → All (λ s. IsCanonical s.canonical) scopes
    → All IsCanonical (normal_list scopes)
normal-IsCanonical scopes h = All-of_Elem IsCanonical (normal_list scopes) λ t m.
    All-elem IsCanonical t (map (λ s. s.canonical) scopes)
      (All-of_map (λ s. s.canonical) IsCanonical scopes h) ((normal-canonical scopes h t).0 m)

fields-normalize_scopes :
    (scopes : List Scope)
    → All (λ s. IsCanonical s.canonical) scopes
    → fields (trim_space (normalize_scopes scopes)) ≡ normal_list scopes
fields-normalize_scopes scopes h =
    joined (normalize_scopes scopes) (unfold normalize_scopes in refl)
  where
    joined :
        (t : Text) → t ≡ join b' ' (normal_list scopes) → fields (trim_space t) ≡ normal_list scopes
    joined t e =
        let canonical = normal-IsCanonical scopes h in
        let solid =
          All-map IsCanonical (Lacks is_space) (normal_list scopes) (λ u c. (canonical_text u c).1)
            canonical in
        let filled =
          All-map IsCanonical NonEmpty (normal_list scopes) (λ u c. (canonical_text u c).0)
            canonical in
        ap (λ (u : Text). fields (trim_space u)) e
        ∙ ap fields (trim_space-join (normal_list scopes) solid filled)
        ∙ fields-join (normal_list scopes) solid filled

-- Parsing the normal text of scopes with canonical texts succeeds, and gives exactly the parsed
-- scopes whose canonical text is one of theirs.
pub parse-normalize_scopes :
    (scopes : List Scope)
    → All (λ s. IsCanonical s.canonical) scopes
    → (scs : List Scope) × (parse_scopes (normalize_scopes scopes ∷ []) ≡ ok scs)
      × ((s : Scope) → Elem s scs ↔ (IsParsed s × Elem s.canonical (map (λ r. r.canonical) scopes)))
parse-normalize_scopes scopes h =
    let (scs, parses, same, parsed) =
      parse-candidates (normal_list scopes) (normal-IsCanonical scopes h) in
    (
      scs,
      parse_scopes-one (normalize_scopes scopes) (normal_list scopes)
          (fields-normalize_scopes scopes h) parses,
      λ s. (
        λ m. (
          All-elem IsParsed s scs parsed m,
          (normal-canonical scopes h s.canonical).0
              (subst (Elem s.canonical) same (map-Elem (λ r. r.canonical) s scs m)),
        ),
        λ (ps, m).
            let (s', n, e) =
              Elem-map (λ r. r.canonical) s.canonical scs
                (subst (Elem s.canonical) (sym same)
                  ((normal-canonical scopes h s.canonical).1 m)) in
            subst (λ (r : Scope). Elem r scs)
              (sym (same_scope s s' ps (All-elem IsParsed s' scs parsed n) e)) n,
      ),
    )

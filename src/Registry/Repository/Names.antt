-- ===== src/Registry/Repository/Names.antt =====
-- Which texts are repository names, and what their characters are.
use regixtry.Base.{
  ℕ, ◌≤◌, true, false, ◌||◌, List, [], ◌∷◌, ◌++◌, ◌≡◌, ◌↔◌, ◌⊎◌, inl, inr, refl, sym, ap, ◌∙◌, Text,
  arith, ◌==◌, all, All, All-map, all-All, All-all, Bool-cases, ok,
}
use mathlib.Core.Path.{subst}
use regixtry.Strings.{split, join, has_prefix, ends_in, is_nil}
use regixtry.Strings.Splitting.{split-join, join-split, split-ne-nil, All-join}
use regixtry.Regexp.{Matches, m_seq, m_class, match_string}
use regixtry.Regexp.Deciding.{match_string_iff}
use regixtry.Regexp.Letters.{Matches-All}
use regixtry.Registry.Repository.{
  RepositoryRef, is_segment_char, is_separator, repository_segment_pattern, parse_repository_ref,
}

-- A letter or a digit in lower case.
abbrev pub Alphanumeric : ℕ → Type 0
Alphanumeric c = ((97 ≤ c) × (c ≤ 122)) ⊎ ((48 ≤ c) × (c ≤ 57))

-- The characters of a segment: alphanumeric, dot, underscore and dash.
abbrev pub SegmentChar : ℕ → Type 0
SegmentChar c = Alphanumeric c ⊎ ((c ≡ 46) ⊎ ((c ≡ 95) ⊎ (c ≡ 45)))

alphanumeric : (c : ℕ) → is_segment_char c ≡ true → Alphanumeric c
unfolding is_segment_char
alphanumeric c h = ground arith

separator : (c : ℕ) → is_separator c ≡ true → SegmentChar c
unfolding is_separator
separator c h = ground arith

segment_within : (s : Text) → Matches repository_segment_pattern s → All SegmentChar s
unfolding repository_segment_pattern
segment_within s m = Matches-All SegmentChar m (
  (λ c h. inl (alphanumeric c h), λ c h. inl (alphanumeric c h)),
  (separator, (λ c h. inl (alphanumeric c h), λ c h. inl (alphanumeric c h))),
)

-- A segment begins with a letter or a digit.
abbrev pub Begins : Text → Type 0
Begins [] = ⊥
Begins (c ∷ s) = Alphanumeric c

segment-Begins : (s : Text) → Matches repository_segment_pattern s → Begins s
unfolding repository_segment_pattern
segment-Begins s (m_seq _ t (m_seq _ _ (m_class c h) n e) n' e') =
    subst Begins (ap (λ (v : Text). v ++ t) e ∙ e') (alphanumeric c h)

-- The names: one or more segments of the pattern, with a slash between each two.
pub record IsName (value : Text) : Type 0 where
  pub first : Text
  pub rest : List Text
  pub form : value ≡ join b'/' (first ∷ rest)
  pub segments : All (Matches repository_segment_pattern) (first ∷ rest)

split-IsName :
    (v : Text) (segments : List Text)
    → split b'/' v ≡ segments
    → All (Matches repository_segment_pattern) segments
    → IsName v
split-IsName v [] e h = absurd (split-ne-nil b'/' v e)
split-IsName v (p ∷ ps) e h = record {
  first = p;
  rest = ps;
  form = sym (join-split b'/' v) ∙ ap (join b'/') e;
  segments = h;
}

segments-Matches :
    (segments : List Text)
    → all (match_string repository_segment_pattern) segments ≡ true
    → All (Matches repository_segment_pattern) segments
segments-Matches segments h =
    All-map _ _ segments (λ s. (match_string_iff repository_segment_pattern s).0)
      (all-All (match_string repository_segment_pattern) segments h)

Matches-segments :
    (segments : List Text)
    → All (Matches repository_segment_pattern) segments
    → all (match_string repository_segment_pattern) segments ≡ true
Matches-segments segments h =
    All-all (match_string repository_segment_pattern) segments
      (All-map _ _ segments (λ s. (match_string_iff repository_segment_pattern s).1) h)

parse-IsName :
    (v : Text) {r : RepositoryRef} → parse_repository_ref v ≡ ok r → (r.name ≡ v) × IsName v
unfolding parse_repository_ref
parse-IsName v h =
    elim (Bool-cases (all (match_string repository_segment_pattern) (split b'/' v))) [
      | inl e ↦ (ground arith, split-IsName v _ refl (segments-Matches (split b'/' v) e))
      | inr e ↦ absurd (ground arith)
    ]

slash_free : (c : ℕ) → SegmentChar c → (c == b'/') ≡ false
slash_free c h = ground arith

ends_in-lacks : (s : Text) → All SegmentChar s → ends_in b'/' s ≡ false
unfolding ends_in
ends_in-lacks [] h = refl
ends_in-lacks (c ∷ []) h = slash_free c h.0
ends_in-lacks (c ∷ d ∷ s) h = ends_in-lacks (d ∷ s) h.1

ends_in-append :
    (c : ℕ) (a : Text) (x : ℕ) (t : Text) → ends_in c (a ++ (x ∷ t)) ≡ ends_in c (x ∷ t)
unfolding ends_in
ends_in-append c [] x t = refl
ends_in-append c (b ∷ []) x t = refl
ends_in-append c (b ∷ d ∷ a) x t = ends_in-append c (d ∷ a) x t

join-head :
    (p : Text) (ps : List Text)
    → Begins p
    → (x : ℕ) × (y : Text) × (join b'/' (p ∷ ps) ≡ x ∷ y) × Alphanumeric x
unfolding join
join-head [] ps h = absurd h
join-head (x ∷ s) [] h = (x, s, refl, h)
join-head (x ∷ s) (q ∷ ps) h = (x, _, refl, h)

ends_in-join :
    (p : Text) (ps : List Text)
    → All (Matches repository_segment_pattern) (p ∷ ps)
    → ends_in b'/' (join b'/' (p ∷ ps)) ≡ false
unfolding join
ends_in-join p [] h = ends_in-lacks p (segment_within p h.0)
ends_in-join p (q ∷ ps) h =
    let (x, y, e, _) = join-head q ps (segment-Begins q h.1.0) in
    ends_in-append b'/' p b'/' (join b'/' (q ∷ ps))
    ∙ ap (λ (t : Text). ends_in b'/' (b'/' ∷ t)) e
    ∙ ends_in_tail x y (sym (ap (ends_in b'/') e) ∙ ends_in-join q ps h.1)
  where
    ends_in_tail :
        (x : ℕ) (y : Text) → ends_in b'/' (x ∷ y) ≡ false → ends_in b'/' (b'/' ∷ x ∷ y) ≡ false
    ends_in_tail x y h = unfold ends_in in h

begins_tests :
    (x : ℕ) (y v : Text)
    → v ≡ x ∷ y
    → Alphanumeric x
    → ends_in b'/' v ≡ false
    → (is_nil v || has_prefix v (b'/' ∷ []) || ends_in b'/' v) ≡ false
unfolding has_prefix
begins_tests x y v e h k = ground arith

-- A text that is made of segments passes the tests on its ends.
pub IsName-ends :
    (v : Text) → IsName v → (is_nil v || has_prefix v (b'/' ∷ []) || ends_in b'/' v) ≡ false
IsName-ends v n =
    let (x, y, e, h) = join-head n.first n.rest (segment-Begins n.first n.segments.0) in
    begins_tests x y v (n.form ∙ e) h
      (ap (ends_in b'/') n.form ∙ ends_in-join n.first n.rest n.segments)

split-IsName_segments : (v : Text) (n : IsName v) → split b'/' v ≡ n.first ∷ n.rest
split-IsName_segments v n =
    ap (split b'/') n.form
    ∙ split-join b'/' n.first n.rest (
        All-map _ _ (n.first ∷ n.rest)
          (λ s m. All-map SegmentChar _ s slash_free (segment_within s m)) n.segments)

IsName-parses : (v : Text) → IsName v → parse_repository_ref v ≡ ok (record { name = v })
unfolding parse_repository_ref
IsName-parses v n = ground (
  arith,
  IsName-ends v n,
  ap (all (match_string repository_segment_pattern)) (split-IsName_segments v n),
  Matches-segments (n.first ∷ n.rest) n.segments,
)

-- A text parses as a repository name exactly when it is one or more segments of the pattern
-- joined by slashes, and then the name is the text itself.
pub parse_repository_ref_iff :
    (v : Text) (r : RepositoryRef) → (parse_repository_ref v ≡ ok r) ↔ ((r.name ≡ v) × IsName v)
parse_repository_ref_iff v r = (
  parse-IsName v,
  λ (same, n). IsName-parses v n ∙ ap (λ (t : Text). ok (record { name = t })) (sym same),
)

-- The characters of a name.
abbrev pub NameChar : ℕ → Type 0
NameChar c = SegmentChar c ⊎ (c ≡ 47)

pub IsName-chars : (v : Text) → IsName v → All NameChar v
IsName-chars v n = subst (All NameChar) (sym n.form) (
    All-join NameChar b'/' n.first n.rest (inr refl) (
      All-map _ _ (n.first ∷ n.rest)
        (λ s m. All-map SegmentChar NameChar s (λ c. inl) (segment_within s m)) n.segments))

-- A repository name that parses has segments that each begin with a letter or a digit, so no
-- segment is empty, `.` or `..`, and every character of it is a letter or a digit of lower case,
-- a dot, an underscore, a dash or a slash.
pub parse_repository_ref-safe :
    (v : Text) {r : RepositoryRef}
    → parse_repository_ref v ≡ ok r
    → All Begins (split b'/' r.name) × All NameChar r.name
parse_repository_ref-safe v h =
    let (same, n) = parse-IsName v h in
    rw (same, split-IsName_segments v n)
      (All-map _ Begins (n.first ∷ n.rest) segment-Begins n.segments, IsName-chars v n)

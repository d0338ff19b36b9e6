-- ===== src/MetadataStore/Pages.antt =====
-- Pages of names: Catalog and ListTags of internal/infra/metadata/sqlite/store.go, with their LIMIT
-- and the name after which they start.
use regixtry.Base.{
  ℕ, zero, suc, ◌≤◌, ◌&&◌, ℤ, positive, Bool, true, false, ◌||◌, List, [], ◌∷◌, Text, text_eq,
  text_eq_iff, text_lt, text_lt-asym, text_lt-chain, length, All, All-elem, Elem, Elem-sort,
  sort-Elem, Elem-keep, keep-Elem, Elem-map, map-Elem, map, sort_by, sort-IsSorted, IsSorted, keep,
  ◌==◌, ==_iff, Bool-cases, ◌≡◌, ◌≢◌, ◌↔◌, ◌⊎◌, inl, inr, refl, sym, ap, ◌∙◌, arith, Result, ok,
  err, Elem-of_any, any_of_Elem,
}
use regixtry.Errors.{Error}
use regixtry.Strings.{is_nil}
use regixtry.Registry.Repository.{RepositoryRef, parse_repository_ref}
use regixtry.Registry.Repository.Names.{parse_repository_ref_iff}
use regixtry.Storage.Tables.{Tables, RepositoryRow, TagRow}
use regixtry.Storage.State.{State, World, Site}
use regixtry.MetadataStore.Joins.{belongs, is_repository}
use regixtry.MetadataStore.Listings.{first, page, scan_each, catalog, list_tags}
use regixtry.Actions.Keeps.{Keeps-lift}
use regixtry.Actions.States.{Of, Keeps-sent}
use regixtry.Actions.Triples.{Triple, then_do, kept, lifts, reads, returned}

-- Where the page starts.
abbrev pub After : Text → Text → Type 0
After after n = (after ≡ []) ⊎ (text_lt after n ≡ true)

-- The page of the names that are listed: in order, each listed and after the name given, where one
-- is given; no longer than the limit, where there is one; and none is skipped, since one that is not
-- on it comes after all of a page that is full.
pub record IsPage (Listed : Text → Type 0) (limit : ℤ) (after : Text) (names : List Text)
    : Type 0 where
  pub sorted : IsSorted text_lt names
  pub sound : (n : Text) → Elem n names → Listed n × After after n
  pub bounded : positive limit ≢ 0 → length names ≤ positive limit
  pub complete :
      (n : Text)
      → Listed n
      → After after n
      → Elem n names
        ⊎ ((positive limit ≢ 0)
            × (length names ≡ positive limit)
            × ((x : Text) → Elem x names → text_lt n x ≡ false))

first-length : {A : Type 0} (n : ℕ) (xs : List A) → length (first n xs) ≤ n
first-length zero xs = omega arith
first-length (suc n) [] = omega arith
first-length (suc n) (x ∷ xs) = omega (arith, first-length n xs)

first-Elem : {A : Type 0} (n : ℕ) (a : A) (xs : List A) → Elem a (first n xs) → Elem a xs
first-Elem zero a xs m = absurd m
first-Elem (suc n) a [] m = absurd m
first-Elem (suc n) a (x ∷ xs) (inl e) = inl e
first-Elem (suc n) a (x ∷ xs) (inr m) = inr (first-Elem n a xs m)

first-All : {A : Type 0} (P : A → Type 0) (n : ℕ) (xs : List A) → All P xs → All P (first n xs)
first-All P zero xs h = tt
first-All P (suc n) [] h = tt
first-All P (suc n) (x ∷ xs) (h, k) = (h, first-All P n xs k)

first-IsSorted : (n : ℕ) (xs : List Text) → IsSorted text_lt xs → IsSorted text_lt (first n xs)
first-IsSorted zero xs h = tt
first-IsSorted (suc n) [] h = tt
first-IsSorted (suc n) (x ∷ xs) (h, k) = (first-All _ n xs h, first-IsSorted n xs k)

-- What is cut off comes after all that is left, which is as long as it may be.
first_or_later :
    (k : ℕ) (n : Text) (xs : List Text)
    → IsSorted text_lt xs
    → Elem n xs
    → Elem n (first k xs)
      ⊎ ((length (first k xs) ≡ k) × ((x : Text) → Elem x (first k xs) → text_lt n x ≡ false))
first_or_later zero n xs h m = inr (refl, λ x i. absurd i)
first_or_later (suc k) n [] h m = absurd m
first_or_later (suc k) n (x ∷ xs) h (inl e) = inl (inl e)
first_or_later (suc k) n (x ∷ xs) (h, hs) (inr m) = elim (first_or_later k n xs hs m) [
  | inl i ↦ inl (inr i)
  | inr (size, later) ↦ inr (
    ap suc size,
    λ y i. elim i [
      | inl e ↦ rw e (All-elem (λ z. text_lt z x ≡ false) n xs h m)
      | inr j ↦ later y j
    ],
  )
]

test-After : (after n : Text) → (is_nil after || text_lt after n) ≡ true → After after n
test-After [] n e = inl refl
test-After (c ∷ after) n e = inr e

After-test : (after n : Text) → After after n → (is_nil after || text_lt after n) ≡ true
After-test [] n h = refl
After-test (c ∷ after) n (inl e) = cc e
After-test (c ∷ after) n (inr e) = e

module _ (after : Text) (names : List Text) where
  abbrev ordered : List Text
  ordered = sort_by text_lt (keep (λ n. is_nil after || text_lt after n) names)

  ordered-IsSorted : IsSorted text_lt ordered
  ordered-IsSorted =
      sort-IsSorted text_lt text_lt-chain text_lt-asym
        (keep (λ n. is_nil after || text_lt after n) names)

  ordered_sound : (n : Text) → Elem n ordered → Elem n names × After after n
  ordered_sound n m =
      let (k, q) = Elem-keep _ names (Elem-sort text_lt n _ m) in (k, test-After after n q)

  ordered_complete : (n : Text) → Elem n names → After after n → Elem n ordered
  ordered_complete n m h = sort-Elem text_lt n _ (keep-Elem _ names m (After-test after n h))

  page-IsPage : (limit : ℤ) → IsPage (λ n. Elem n names) limit after (page limit after names)
  unfolding page
  page-IsPage limit = elim (Bool-cases (positive limit == 0)) [
    | inl e ↦ rw e (record {
      sorted = ordered-IsSorted;
      sound = ordered_sound;
      bounded = λ h. absurd (h ((==_iff (positive limit) 0).0 e));
      complete = λ n m h. inl (ordered_complete n m h);
    })
    | inr e ↦ rw e (record {
      sorted = first-IsSorted (positive limit) ordered ordered-IsSorted;
      sound = λ n m. ordered_sound n (first-Elem (positive limit) n ordered m);
      bounded = λ h. first-length (positive limit) ordered;
      complete = λ n m h.
          elim (first_or_later (positive limit) n ordered ordered-IsSorted
            (ordered_complete n m h)) [
              | inl i ↦ inl i
              | inr (size, later) ↦ inr (λ q. clash (positive limit) q e, size, later)
            ];
    })
  ]
    where
      clash : (n : ℕ) → n ≡ 0 → (n == 0) ≡ false → ⊥
      clash n q e = ground arith

  -- The same page, of names that are listed as another predicate says.
  page-Listed :
      (Listed : Text → Type 0) (limit : ℤ)
      → ((n : Text) → Elem n names → Listed n)
      → ((n : Text) → Listed n → Elem n names)
      → IsPage Listed limit after (page limit after names)
  page-Listed Listed limit f g =
      let p = page-IsPage limit in
      record {
        sorted = p.sorted;
        sound = λ n m. (f n (p.sound n m).0, (p.sound n m).1);
        bounded = p.bounded;
        complete = λ n l h. p.complete n (g n l) h;
      }

-- The name of a repository of the tenant.
abbrev pub IsRepositoryName : Tables → Text → Text → Type 0
IsRepositoryName t tenant n =
    (r : RepositoryRow) × Elem r t.repositories × (r.tenant ≡ tenant) × (r.name ≡ n)

-- The name of a tag of the tenant, in its repository of that name.
abbrev pub IsTagName : Tables → Text → Text → Text → Type 0
IsTagName t tenant repository n =
    (g : TagRow) × Elem g t.tags
    × (g.tenant ≡ tenant)
    × (g.name ≡ n)
    × ((r : RepositoryRow) × Elem r t.repositories
        × (r.id ≡ g.repository_id)
        × (r.tenant ≡ tenant)
        × (r.name ≡ repository))

both : (a b : Bool) → (a && b) ≡ true → (a ≡ true) × (b ≡ true)
both a b h = ground arith

and_true : (a b : Bool) → a ≡ true → b ≡ true → (a && b) ≡ true
and_true a b h k = ground arith

is_repository_iff :
    (tenant name : Text) (r : RepositoryRow)
    → (is_repository tenant name r ≡ true) ↔ ((r.tenant ≡ tenant) × (r.name ≡ name))
unfolding is_repository
is_repository_iff tenant name r = (
  λ h.
      let (a, b) = both (text_eq r.tenant tenant) (text_eq r.name name) h in
      ((text_eq_iff r.tenant tenant).0 a, (text_eq_iff r.name name).0 b),
  λ (a, b).
      and_true (text_eq r.tenant tenant) (text_eq r.name name) ((text_eq_iff r.tenant tenant).1 a)
        ((text_eq_iff r.name name).1 b),
)

belongs_iff :
    (tenant name : Text) (t : Tables) (id : ℕ)
    → (belongs tenant name t id ≡ true) ↔ (
        (r : RepositoryRow) × Elem r t.repositories
        × (r.id ≡ id)
        × (r.tenant ≡ tenant)
        × (r.name ≡ name))
unfolding belongs
belongs_iff tenant name t id = (
  λ h.
      let (r, m, q) =
        Elem-of_any (λ r. (r.id == id) && is_repository tenant name r) t.repositories h in
      let (a, b) = both (r.id == id) (is_repository tenant name r) q in
      let (c, d) = (is_repository_iff tenant name r).0 b in (r, m, (==_iff r.id id).0 a, c, d),
  λ (r, m, a, c, d).
      any_of_Elem (λ r. (r.id == id) && is_repository tenant name r) r t.repositories m
        (and_true (r.id == id) (is_repository tenant name r) ((==_iff r.id id).1 a)
          ((is_repository_iff tenant name r).1 (c, d))),
)

-- The names that each query selects.
abbrev selected_tags : Tables → Text → Text → List Text
selected_tags t tenant repository =
    map (λ (g : TagRow). g.name)
      (keep (λ g. text_eq g.tenant tenant && belongs tenant repository t g.repository_id) t.tags)

abbrev selected_repositories : Tables → Text → List Text
selected_repositories t tenant =
    map (λ (r : RepositoryRow). r.name) (keep (λ r. text_eq r.tenant tenant) t.repositories)

tag_selected :
    (t : Tables) (tenant repository n : Text)
    → Elem n (selected_tags t tenant repository) ↔ IsTagName t tenant repository n
tag_selected t tenant repository n = (
  λ m.
      let (g, k, e) = Elem-map (λ (g : TagRow). g.name) n _ m in
      let (i, q) = Elem-keep _ t.tags k in
      let (a, b) = both (text_eq g.tenant tenant) _ q in
      (
        g,
        i,
        (text_eq_iff g.tenant tenant).0 a,
        sym e,
        (belongs_iff tenant repository t g.repository_id).0 b,
      ),
  λ (g, i, a, e, r). rw (sym e) (
      map-Elem (λ (g : TagRow). g.name) g _
        (keep-Elem _ t.tags i (
          and_true (text_eq g.tenant tenant) _ ((text_eq_iff g.tenant tenant).1 a)
            ((belongs_iff tenant repository t g.repository_id).1 r)))),
)

repository_selected :
    (t : Tables) (tenant n : Text)
    → Elem n (selected_repositories t tenant) ↔ IsRepositoryName t tenant n
repository_selected t tenant n = (
  λ m.
      let (r, k, e) = Elem-map (λ (r : RepositoryRow). r.name) n _ m in
      let (i, q) = Elem-keep _ t.repositories k in (r, i, (text_eq_iff r.tenant tenant).0 q, sym e),
  λ (r, i, a, e). rw (sym e) (
      map-Elem (λ (r : RepositoryRow). r.name) r _
        (keep-Elem _ t.repositories i ((text_eq_iff r.tenant tenant).1 a))),
)

scanned-names :
    (names : List Text) (refs : List RepositoryRef)
    → scan_each parse_repository_ref names ≡ ok refs
    → map (λ (r : RepositoryRef). r.name) refs ≡ names
scanned-names [] [] e = refl
scanned-names [] (r ∷ refs) e = cc e
scanned-names (n ∷ names) refs e =
    through (parse_repository_ref n) refl (scan_each parse_repository_ref names) refl e
      (λ rs q. scanned-names names rs q)
  where
    through :
        (r : Result Error RepositoryRef)
        → parse_repository_ref n ≡ r
        → (rs : Result Error (List RepositoryRef)) → scan_each parse_repository_ref names ≡ rs
        → elim r [ err x ↦ err x | ok y ↦ elim rs [ err x ↦ err x | ok ys ↦ ok (y ∷ ys) ] ]
          ≡ ok refs
        → ((ys : List RepositoryRef)
            → scan_each parse_repository_ref names ≡ ok ys
            → map (λ (r : RepositoryRef). r.name) ys ≡ names)
        → map (λ (r : RepositoryRef). r.name) refs ≡ n ∷ names
    through (err x) p rs q h k = cc h
    through (ok y) p (err x) q h k = cc h
    through (ok y) p (ok ys) q h k =
        let same : y ∷ ys ≡ refs = cc h in
        rw (sym same) (rw (((parse_repository_ref_iff n y).0 p).0, k ys q) refl)

abbrev Anything : World → Type 0
Anything w = Unit

module _ (site : Site) (t : Tables) where
  list_tags_run :
      (tenant : Text) (repository : RepositoryRef) (limit : ℤ) (after : Text)
      → Triple
          (Of (λ (s : State). s.tables ≡ t))
          (list_tags site tenant repository limit after)
          (λ names _. IsPage (IsTagName t tenant repository.name) limit after names)
          Anything
  unfolding list_tags
  list_tags_run tenant repository limit after = then_do (kept (Keeps-lift _) (λ w h. tt)) (λ _.
      then_do (kept (Keeps-sent site.env) (λ w h. tt)) (λ _. reads _ (λ w h. rw h.holds (
        page-Listed after (selected_tags t tenant repository.name)
          (IsTagName t tenant repository.name) limit
          (λ n. (tag_selected t tenant repository.name n).0)
          (λ n. (tag_selected t tenant repository.name n).1)))))

  catalog_run :
      (tenant : Text) (limit : ℤ) (after : Text)
      → Triple
          (Of (λ (s : State). s.tables ≡ t))
          (catalog site tenant limit after)
          (λ refs _.
            IsPage
              (IsRepositoryName t tenant)
              limit
              after
              (map (λ (r : RepositoryRef). r.name) refs))
          Anything
  unfolding catalog
  catalog_run tenant limit after = then_do (kept (Keeps-sent site.env) (λ w h. tt)) (λ _.
      then_do {Q = λ names _. names ≡ page limit after (selected_repositories t tenant)}
        (reads _ (λ w h. rw h.holds refl))
        (λ names.
          lifts (scan_each parse_repository_ref names)
            (λ refs w h e. rw (scanned-names names refs e ∙ h) (
              page-Listed after (selected_repositories t tenant) (IsRepositoryName t tenant) limit
                (λ n. (repository_selected t tenant n).0)
                (λ n. (repository_selected t tenant n).1)))
            (λ w h. tt)))

-- A listing of tags that succeeds is a page of the names of the tags that the tenant has in its
-- repository of that name: in order, all of them such names and after the name given, where one is
-- given; no longer than the limit, where there is one; and such a name is missing only where the
-- page is full and nothing on it comes after that name.
pub list_tags-IsPage :
    (site : Site) (tenant : Text) (repository : RepositoryRef) (limit : ℤ) (after : Text)
    (w : World) (names : List Text)
    → (list_tags site tenant repository limit after w).0 ≡ ok names
    → IsPage (IsTagName w.db.tables tenant repository.name) limit after names
list_tags-IsPage site tenant repository limit after w names e =
    returned w names (list_tags_run site w.db.tables tenant repository limit after)
      (record { holds = refl }) e

-- A catalog that succeeds is a page of the names of the tenant's repositories, in order, all of them
-- such names and after the name given, where one is given; no longer than the limit, where there is
-- one; and such a name is missing only where the page is full and nothing on it comes after that
-- name.
pub catalog-IsPage :
    (site : Site) (tenant : Text) (limit : ℤ) (after : Text) (w : World) (refs : List RepositoryRef)
    → (catalog site tenant limit after w).0 ≡ ok refs
    → IsPage
        (IsRepositoryName w.db.tables tenant)
        limit
        after
        (map (λ (r : RepositoryRef). r.name) refs)
catalog-IsPage site tenant limit after w refs e =
    returned w refs (catalog_run site w.db.tables tenant limit after) (record { holds = refl }) e

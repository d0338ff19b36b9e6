-- ===== src/AuthService/Grants/Delegation.antt =====
-- The grants that make repository administrators, under the statements on auth_repo_grants (internal/app/auth/service.go).
use regixtry.Base.{
  true, false, ◌&&◌, not, List, [], ◌∷◌, Text, text_eq, text_eq_iff, ◌≡◌, ◌≢◌, ◌↔◌, inl, inr, refl,
  sym, ap, ◌∙◌, arith, Elem, keep, keep-Elem, Elem-keep, Bool-cases, Result, ok, err,
}
use regixtry.Errors.{Error}
use regixtry.Registry.Repository.{RepositoryRef, parse_repository_ref}
use regixtry.Registry.Repository.Names.{parse_repository_ref_iff}
use regixtry.Auth.Grant.{RepoGrant, allows_admin}
use regixtry.AuthStore.Grants.{
  same_key, put_row, scan_grants, parse_grant, scan_grant, checked, with_repository, cons_ok,
}

-- A grant that is read has the row's role and the row's repository.
checked_same : (r : Result Error (Unit {0})) (g h : RepoGrant) → checked g r ≡ ok h → g ≡ h
checked_same (ok _) g h e = cc
checked_same (err _) g h e = cc

with_repository-same :
    (id : Text) (g h : RepoGrant) (r : Result Error RepositoryRef)
    → ((ref : RepositoryRef) → r ≡ ok ref → ref.name ≡ g.repository.name)
    → with_repository id g r ≡ ok h
    → (h.role ≡ g.role) × (h.repository.name ≡ g.repository.name)
unfolding scan_grant
with_repository-same id g h (ok ref) f e =
    let q = checked_same _ _ h e in
    (
      ap (λ (x : RepoGrant). x.role) (sym q),
      ap (λ (x : RepoGrant). x.repository.name) (sym q) ∙ f ref refl,
    )
with_repository-same id g h (err x) f e = cc

parse_repository_ref-name :
    (s : Text) (r : RepositoryRef) → parse_repository_ref s ≡ ok r → r.name ≡ s
parse_repository_ref-name s r e = ((parse_repository_ref_iff s r).0 e).0

pub parse_grant-same :
    (id : Text) (g h : RepoGrant)
    → parse_grant id g ≡ ok h
    → (h.role ≡ g.role) × (h.repository.name ≡ g.repository.name)
unfolding parse_grant
parse_grant-same id g h =
    with_repository-same id g h _ (parse_repository_ref-name g.repository.name)

pub consed :
    (r : Result Error RepoGrant) (rs : Result Error (List RepoGrant)) (hs : List RepoGrant)
    → cons_ok r rs ≡ ok hs
    → (k : RepoGrant) × (ks : List RepoGrant) × (r ≡ ok k) × (rs ≡ ok ks) × (hs ≡ k ∷ ks)
consed (ok v) (ok vs) hs e = (v, vs, refl, refl, cc)
consed (ok v) (err f) hs e = cc
consed (err f) rs hs e = cc

pub scan_grants-Elem :
    (scan : RepoGrant → Result Error RepoGrant) (g : RepoGrant) (gs hs : List RepoGrant)
    → scan_grants scan gs ≡ ok hs
    → Elem g gs
    → (h : RepoGrant) × (scan g ≡ ok h) × Elem h hs
unfolding scan_grants
scan_grants-Elem scan g [] hs e m = absurd m
scan_grants-Elem scan g (x ∷ gs) hs e (inl q) =
    let (k, ks, p, _, s) = consed (scan x) _ hs e in (k, ap scan q ∙ p, rw s (inl refl))
scan_grants-Elem scan g (x ∷ gs) hs e (inr m) =
    let (k, ks, _, p, s) = consed (scan x) _ hs e in
    let (h, q, n) = scan_grants-Elem scan g gs ks p m in (h, q, rw s (inr n))

-- The grants that make administrators are the same.
abbrev pub SameAdmins : List RepoGrant → List RepoGrant → Type 0
SameAdmins gs hs = (g : RepoGrant) → allows_admin g.role ≡ true → Elem g gs ↔ Elem g hs

-- Of two rows, one that makes an administrator and one that does not are not the same.
unlike : (g x : RepoGrant) → allows_admin g.role ≡ true → allows_admin x.role ≡ false → g ≢ x
unlike g x a p q = let r = ap (λ (y : RepoGrant). allows_admin y.role) q in cc (a, p, r)

pub put_row-SameAdmins :
    (x : RepoGrant) (gs : List RepoGrant)
    → allows_admin x.role ≡ false
    → ((y : RepoGrant) → Elem y gs → same_key y x ≡ true → allows_admin y.role ≡ false)
    → SameAdmins (put_row x gs) gs
unfolding put_row
put_row-SameAdmins x [] p f g a =
    (λ m. elim m [ inl q ↦ absurd (unlike g x a p q) | inr n ↦ n ], λ m. absurd m)
put_row-SameAdmins x (y ∷ gs) p f g a = elim (Bool-cases (same_key y x)) [
  | inl e ↦
      let z = record y { role = x.role; updated_at = x.updated_at } in
      rw e (
        λ m. elim m [ inl q ↦ absurd (unlike g z a p q) | inr n ↦ inr n ],
        λ m. elim m [ inl q ↦ absurd (unlike g y a (f y (inl refl) e) q) | inr n ↦ inr n ],
      )
  | inr e ↦
      let (there, back) = put_row-SameAdmins x gs p (λ z m. f z (inr m)) g a in
      rw e (
        λ m. elim m [ inl q ↦ inl q | inr n ↦ inr (there n) ],
        λ m. elim m [ inl q ↦ inl q | inr n ↦ inr (back n) ],
      )
]

-- No row of a user on a repository makes an administrator.
abbrev pub NoAdmin : Text → RepositoryRef → List RepoGrant → Type 0
NoAdmin id repo gs =
    (g : RepoGrant)
    → Elem g gs
    → g.user_id ≡ id
    → g.repository.name ≡ repo.name
    → allows_admin g.role ≡ false

pub keep-SameAdmins :
    (id : Text) (repo : RepositoryRef) (gs : List RepoGrant)
    → NoAdmin id repo gs
    → SameAdmins
        (keep (λ g. not (text_eq g.user_id id && text_eq g.repository.name repo.name)) gs)
        gs
keep-SameAdmins id repo gs f g a =
    (λ m. (Elem-keep _ gs m).0, λ m. keep-Elem _ gs m (stays g a (f g m)))
  where
    stays :
        (g : RepoGrant)
        → allows_admin g.role ≡ true
        → (g.user_id ≡ id → g.repository.name ≡ repo.name → allows_admin g.role ≡ false)
        → not (text_eq g.user_id id && text_eq g.repository.name repo.name) ≡ true
    stays g a h = elim (Bool-cases (text_eq g.user_id id)) [
      | inl u ↦ elim (Bool-cases (text_eq g.repository.name repo.name)) [
        | inl r ↦
            let n =
              h ((text_eq_iff g.user_id id).0 u) ((text_eq_iff g.repository.name repo.name).0 r) in
            absurd (cc (a, n))
        | inr r ↦ ground arith
      ]
      | inr u ↦ ground arith
    ]

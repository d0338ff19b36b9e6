-- ===== src/Strings/Splitting.antt =====
-- Laws of Split, Join and Fields.
use regixtry.Base.{
  ℕ, Bool, true, false, not, List, [], ◌∷◌, ◌++◌, ◌≡◌, ◌≢◌, refl, ap, ◌∙◌, Text, arith, ◌==◌,
  ==_iff, All, All-append, keep, Bool-cases, inl, inr,
}
use regixtry.Strings.{is_space, is_nil, push, cut_or_push, split_on, split, fields, join}

abbrev pub Lacks : (ℕ → Bool) → Text → Type 0
Lacks sep = All (λ c. sep c ≡ false)

module _ (sep : ℕ → Bool) where
  pub split_on-Lacks_sep : (p : Text) → Lacks sep p → split_on sep p ≡ p ∷ []
  unfolding split_on
  split_on-Lacks_sep [] h = refl
  split_on-Lacks_sep (c ∷ p) h = rw (h.0, split_on-Lacks_sep p h.1)

  pub split_on-append :
      (p : Text) (d : ℕ) (s : Text)
      → Lacks sep p
      → sep d ≡ true
      → split_on sep (p ++ (d ∷ s)) ≡ p ∷ split_on sep s
  unfolding split_on
  split_on-append [] d s h e = rw e
  split_on-append (c ∷ p) d s h e = rw (h.0, split_on-append p d s h.1 e)

  -- No piece holds a separator.
  pub split_on-Lacks : (s : Text) → All (Lacks sep) (split_on sep s)
  unfolding split_on
  split_on-Lacks [] = (tt, tt)
  split_on-Lacks (c ∷ s) = elim (Bool-cases (sep c)) [
    | inl e ↦ rw e (tt, split_on-Lacks s)
    | inr e ↦ rw e (push-Lacks c (split_on sep s) e (split_on-Lacks s))
  ]
    where
      push-Lacks :
          (c : ℕ) (ps : List Text)
          → sep c ≡ false
          → All (Lacks sep) ps
          → All (Lacks sep) (push c ps)
      push-Lacks c [] e h = ((e, tt), tt)
      push-Lacks c (p ∷ ps) e h = ((e, h.0), h.1)

pub split_on-join :
    (sep : ℕ → Bool) (d : ℕ) (p : Text) (ps : List Text)
    → sep d ≡ true
    → All (Lacks sep) (p ∷ ps)
    → split_on sep (join d (p ∷ ps)) ≡ p ∷ ps
unfolding join
split_on-join sep d p [] e h = split_on-Lacks_sep sep p h.0
split_on-join sep d p (q ∷ ps) e h =
    rw (split_on-append sep p d _ h.0 e, split_on-join sep d q ps e h.1)

-- Splitting a join gives the parts back, if there is a part and none holds the separator.
pub split-join :
    (d : ℕ) (p : Text) (ps : List Text)
    → All (Lacks (λ c. c == d)) (p ∷ ps)
    → split d (join d (p ∷ ps)) ≡ p ∷ ps
unfolding split
split-join d p ps h = split_on-join (λ c. c == d) d p ps (ground arith) h

abbrev pub NonEmpty : Text → Type 0
NonEmpty p = is_nil p ≡ false

keep-All : (ps : List Text) → All NonEmpty ps → keep (λ p. not (is_nil p)) ps ≡ ps
keep-All [] h = refl
keep-All (p ∷ ps) h = rw (h.0, keep-All ps h.1)

-- The fields of texts joined by a space are the texts, if each is non-empty and holds no space.
pub fields-join :
    (ps : List Text) → All (Lacks is_space) ps → All NonEmpty ps → fields (join 32 ps) ≡ ps
unfolding fields
fields-join [] h k = unfold join split_on in refl
fields-join (p ∷ ps) h k =
    rw (split_on-join is_space 32 p ps (unfold is_space in refl) h) (keep-All (p ∷ ps) k)

push-ne-nil : (t : Bool) (c : ℕ) (ps : List Text) → ps ≢ [] → cut_or_push t c ps ≢ []
push-ne-nil true c ps h e = absurd (cc)
push-ne-nil false c [] h e = h refl
push-ne-nil false c (p ∷ ps) h e = absurd (cc)

pub split-ne-nil : (d : ℕ) (s : Text) → split d s ≢ []
unfolding split
split-ne-nil d [] = λ e. cc
split-ne-nil d (c ∷ s) = push-ne-nil (c == d) c (split d s) (split-ne-nil d s)

join-cut_or_push :
    (t : Bool) (d c : ℕ) (ps : List Text)
    → ps ≢ []
    → (t ≡ true → c ≡ d)
    → join d (cut_or_push t c ps) ≡ c ∷ join d ps
unfolding join
join-cut_or_push t d c [] h e = absurd (h refl)
join-cut_or_push true d c (p ∷ ps) h e = rw (e refl)
join-cut_or_push false d c (p ∷ []) h e = refl
join-cut_or_push false d c (p ∷ q ∷ ps) h e = refl

-- Joining the parts of a split gives the text back.
pub join-split : (d : ℕ) (s : Text) → join d (split d s) ≡ s
unfolding split
join-split d [] = unfold join in refl
join-split d (c ∷ s) =
    join-cut_or_push (c == d) d c (split d s) (split-ne-nil d s) (==_iff c d).0
    ∙ ap (λ (v : Text). c ∷ v) (join-split d s)

pub All-join :
    (P : ℕ → Type 0) (d : ℕ) (p : Text) (ps : List Text)
    → P d
    → All (All P) (p ∷ ps)
    → All P (join d (p ∷ ps))
unfolding join
All-join P d p [] h k = k.0
All-join P d p (q ∷ ps) h k = All-append P p _ k.0 (h, All-join P d q ps h k.1)

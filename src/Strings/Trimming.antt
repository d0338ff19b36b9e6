-- ===== src/Strings/Trimming.antt =====
-- Laws of TrimSpace.
use regixtry.Base.{ℕ, true, List, [], ◌∷◌, ◌++◌, ◌≡◌, ◌≢◌, refl, ap, ◌∙◌, Text, All}
use regixtry.Strings.{is_space, is_nil, drop_blank, trim_left, trim_right, trim_space, join}
use regixtry.Strings.Splitting.{Lacks, NonEmpty}

trim_left-Lacks : (s : Text) → Lacks is_space s → trim_left s ≡ s
unfolding trim_left
trim_left-Lacks [] h = refl
trim_left-Lacks (c ∷ s) h = rw h.0

trim_right-Lacks : (s : Text) → Lacks is_space s → trim_right s ≡ s
unfolding trim_right
trim_right-Lacks [] h = refl
trim_right-Lacks (c ∷ []) h = rw h.0
trim_right-Lacks (c ∷ d ∷ s) h = rw (trim_right-Lacks (d ∷ s) h.1)

-- A text with no white space is its own trim.
pub trim_space-Lacks : (s : Text) → Lacks is_space s → trim_space s ≡ s
unfolding trim_space
trim_space-Lacks s h = rw (trim_left-Lacks s h) (trim_right-Lacks s h)

drop_blank-cons : (c : ℕ) (t : Text) → t ≢ [] → drop_blank c t ≡ c ∷ t
drop_blank-cons c [] h = absurd (h refl)
drop_blank-cons c (d ∷ t) h = refl

append-ne-nil : (p t : Text) → t ≢ [] → p ++ t ≢ []
append-ne-nil [] t h = h
append-ne-nil (c ∷ p) t h = λ e. cc

trim_right-append : (p t : Text) → trim_right t ≡ t → t ≢ [] → trim_right (p ++ t) ≡ p ++ t
unfolding trim_right
trim_right-append [] t e h = e
trim_right-append (c ∷ p) t e h =
    ap (drop_blank c) (trim_right-append p t e h) ∙ drop_blank-cons c (p ++ t) (append-ne-nil p t h)

join-ne-nil : (p : Text) (ps : List Text) → NonEmpty p → join 32 (p ∷ ps) ≢ []
unfolding join
join-ne-nil [] ps h = absurd (cc)
join-ne-nil (c ∷ p) [] h = λ e. cc
join-ne-nil (c ∷ p) (q ∷ ps) h = λ e. cc

trim_right-join :
    (p : Text) (ps : List Text)
    → All (Lacks is_space) (p ∷ ps)
    → All NonEmpty (p ∷ ps)
    → trim_right (join 32 (p ∷ ps)) ≡ join 32 (p ∷ ps)
unfolding join
trim_right-join p [] h k = trim_right-Lacks p h.0
trim_right-join p (q ∷ ps) h k =
    let filled = join-ne-nil q ps k.1.0 in
    trim_right-append p (32 ∷ join 32 (q ∷ ps))
      (trim_right-append (32 ∷ []) (join 32 (q ∷ ps)) (trim_right-join q ps h.1 k.1) filled)
      (λ e. cc)

trim_left-join :
    (p : Text) (ps : List Text)
    → Lacks is_space p
    → NonEmpty p
    → trim_left (join 32 (p ∷ ps)) ≡ join 32 (p ∷ ps)
unfolding join
trim_left-join [] ps h k = absurd (cc)
trim_left-join (c ∷ p) [] h k = unfold trim_left in rw h.0
trim_left-join (c ∷ p) (q ∷ ps) h k = unfold trim_left in rw h.0

-- Non-empty texts without white space, joined by a space, are their own trim.
pub trim_space-join :
    (ps : List Text)
    → All (Lacks is_space) ps
    → All NonEmpty ps
    → trim_space (join 32 ps) ≡ join 32 ps
unfolding trim_space
trim_space-join [] h k = unfold join in refl
trim_space-join (p ∷ ps) h k =
    ap trim_right (trim_left-join p ps h.0 k.0) ∙ trim_right-join p ps h k

pub join-empty : (ps : List Text) → All NonEmpty ps → is_nil (join 32 ps) ≡ true → ps ≡ []
join-empty [] k h = refl
join-empty (p ∷ ps) k h = absurd (join-ne-nil p ps k.0 (nil_of (join 32 (p ∷ ps)) h))
  where
    nil_of : (t : Text) → is_nil t ≡ true → t ≡ []
    nil_of [] h = refl
    nil_of (c ∷ t) h = cc

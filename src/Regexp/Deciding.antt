-- ===== src/Regexp/Deciding.antt =====
-- The matcher decides the language of the pattern.
use regixtry.Base.{
  ℕ, Bool, true, false, [], ◌∷◌, ◌++◌, ◌≡◌, ◌↔◌, ◌⊎◌, inl, inr, refl, ap, ◌∙◌, Text, arith,
  Bool-cases, if◌then◌else◌,
}
use regixtry.Regexp.{
  Regex, never, empty, class, seq, alt, star, Matches, m_empty, m_class, m_seq, m_left, m_right,
  m_stop, m_more, nullable, derive, match_string,
}

nullable→Matches : (r : Regex) → nullable r ≡ true → Matches r []
unfolding nullable
nullable→Matches never h = absurd (cc)
nullable→Matches empty h = m_empty
nullable→Matches (class p) h = absurd (cc)
nullable→Matches (seq r q) h =
    m_seq [] [] (nullable→Matches r (ground arith)) (nullable→Matches q (ground arith)) refl
nullable→Matches (alt r q) h = elim (Bool-cases (nullable r)) [
  | inl e ↦ m_left (nullable→Matches r e)
  | inr e ↦ m_right (nullable→Matches q (ground arith))
]
nullable→Matches (star r) h = m_stop

append_nil_left : (s t : Text) → s ++ t ≡ [] → s ≡ []
append_nil_left [] t h = refl
append_nil_left (c ∷ s) t h = absurd (cc)

append_nil_right : (s t : Text) → s ++ t ≡ [] → t ≡ []
append_nil_right [] t h = h
append_nil_right (c ∷ s) t h = absurd (cc)

Matches→nullable : {r : Regex} {s : Text} → Matches r s → s ≡ [] → nullable r ≡ true
unfolding nullable
Matches→nullable m_empty e = refl
Matches→nullable (m_class c h) e = absurd (cc)
Matches→nullable (m_seq s t m n h) e = ground (
  arith,
  Matches→nullable m (append_nil_left s t (h ∙ e)),
  Matches→nullable n (append_nil_right s t (h ∙ e)),
)
Matches→nullable (m_left m) e = ground (arith, Matches→nullable m e)
Matches→nullable (m_right m) e = ground (arith, Matches→nullable m e)
Matches→nullable m_stop e = refl
Matches→nullable (m_more s t m n h) e = refl

not-never : {r : Regex} {s : Text} → Matches r s → r ≡ never → ⊥
not-never m_empty e = cc
not-never (m_class c h) e = cc
not-never (m_seq s t m n h) e = cc
not-never (m_left m) e = cc
not-never (m_right m) e = cc
not-never m_stop e = cc
not-never (m_more s t m n h) e = cc

class_derived :
    (p : ℕ → Bool) (c : ℕ) (s : Text) (b : Bool)
    → p c ≡ b
    → Matches (if b then empty else never) s
    → Matches (class p) (c ∷ s)
class_derived p c s true e m_empty = m_class c e
class_derived p c s false e m = absurd (not-never m refl)

module _ (c : ℕ) {r q : Regex} where
  alt_inv : {s : Text} → Matches (alt r q) s → Matches r s ⊎ Matches q s
  alt_inv (m_left m) = inl m
  alt_inv (m_right m) = inr m

  extend_seq :
      {r' : Regex} {u : Text}
      → ((s : Text) → Matches r' s → Matches r (c ∷ s))
      → Matches (seq r' q) u
      → Matches (seq r q) (c ∷ u)
  extend_seq f (m_seq s t m n h) = m_seq (c ∷ s) t (f s m) n (ap (λ (v : Text). c ∷ v) h)

extend_star :
    (c : ℕ) {r r' : Regex} {u : Text}
    → ((s : Text) → Matches r' s → Matches r (c ∷ s))
    → Matches (seq r' (star r)) u
    → Matches (star r) (c ∷ u)
extend_star c f (m_seq s t m n h) = m_more (c ∷ s) t (f s m) n (ap (λ (v : Text). c ∷ v) h)

derive→Matches : (c : ℕ) (r : Regex) (s : Text) → Matches (derive c r) s → Matches r (c ∷ s)
unfolding derive
derive→Matches c never s m = absurd (not-never m refl)
derive→Matches c empty s m = absurd (not-never m refl)
derive→Matches c (class p) s m = class_derived p c s (p c) refl m
derive→Matches c (seq r q) s m = elim (Bool-cases (nullable r)) [
  | inl e ↦ elim (alt_inv c (rw e at m)) [
    | inl n ↦ extend_seq c (derive→Matches c r) n
    | inr n ↦ m_seq [] (c ∷ s) (nullable→Matches r e) (derive→Matches c q s n) refl
  ]
  | inr e ↦ extend_seq c (derive→Matches c r) (rw e at m)
]
derive→Matches c (alt r q) s (m_left m) = m_left (derive→Matches c r s m)
derive→Matches c (alt r q) s (m_right m) = m_right (derive→Matches c q s m)
derive→Matches c (star r) s m = extend_star c (derive→Matches c r) m

class_step :
    (p : ℕ → Bool) (c : ℕ) (s : Text)
    → p c ≡ true
    → s ≡ []
    → Matches (if p c then empty else never) s
class_step p c s h e = rw (h, e) m_empty

Matches-derive :
    {r : Regex} {u : Text} → Matches r u → (c : ℕ) (s : Text) → u ≡ c ∷ s → Matches (derive c r) s
unfolding derive
Matches-derive m_empty c s e = absurd (cc)
Matches-derive (m_class {p = p} d h) c s e = class_step p c s (ground (arith, e)) (ground arith)
Matches-derive (m_seq {r = r} [] t m n h) c s e =
    let second = Matches-derive n c s (h ∙ e) in rw (Matches→nullable m refl) (m_right second)
Matches-derive (m_seq {r = r} {q = q} (d ∷ v) t m n h) c s e =
    let first : Matches (seq (derive c r) q) s =
      m_seq v t (Matches-derive m c v (ground (arith, h ∙ e))) n (ground (arith, h ∙ e)) in
    elim (Bool-cases (nullable r)) [ inl e ↦ rw e (m_left first) | inr e ↦ rw e first ]
Matches-derive (m_left m) c s e = m_left (Matches-derive m c s e)
Matches-derive (m_right m) c s e = m_right (Matches-derive m c s e)
Matches-derive m_stop c s e = absurd (cc)
Matches-derive (m_more [] t m n h) c s e = Matches-derive n c s (h ∙ e)
Matches-derive (m_more (d ∷ v) t m n h) c s e =
    m_seq v t (Matches-derive m c v (ground (arith, h ∙ e))) n (ground (arith, h ∙ e))

-- `match_string` answers true exactly on the texts of the pattern's language.
pub match_string_iff : (r : Regex) (s : Text) → (match_string r s ≡ true) ↔ Matches r s
unfolding match_string
match_string_iff r [] = (nullable→Matches r, λ m. Matches→nullable m refl)
match_string_iff r (c ∷ s) =
    let (sound, complete) = match_string_iff (derive c r) s in
    (λ h. derive→Matches c r s (sound h), λ m. complete (Matches-derive m c s refl))

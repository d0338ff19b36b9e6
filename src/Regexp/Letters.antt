-- ===== src/Regexp/Letters.antt =====
-- The characters of the texts of a pattern's language.
use regixtry.Base.{ℕ, true, ◌≡◌, Text, All, All-append}
use mathlib.Core.Path.{subst}
use regixtry.Regexp.{
  Regex, never, empty, class, seq, alt, star, Matches, m_empty, m_class, m_seq, m_left, m_right,
  m_stop, m_more,
}

-- Every class of the pattern holds only characters with the property.
abbrev pub Within : (ℕ → Type 0) → Regex → Type 0
Within P never = Unit
Within P empty = Unit
Within P (class p) = (c : ℕ) → p c ≡ true → P c
Within P (seq r q) = Within P r × Within P q
Within P (alt r q) = Within P r × Within P q
Within P (star r) = Within P r

pub Matches-All : (P : ℕ → Type 0) {r : Regex} {s : Text} → Matches r s → Within P r → All P s
Matches-All P m_empty w = tt
Matches-All P (m_class c h) w = (w c h, tt)
Matches-All P (m_seq s t m n h) w =
    subst (All P) h (All-append P s t (Matches-All P m w.0) (Matches-All P n w.1))
Matches-All P (m_left m) w = Matches-All P m w.0
Matches-All P (m_right m) w = Matches-All P m w.1
Matches-All P m_stop w = tt
Matches-All P (m_more s t m n h) w =
    subst (All P) h (All-append P s t (Matches-All P m w) (Matches-All P n w))

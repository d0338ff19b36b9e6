-- ===== src/Regexp.antt =====
-- Go's `regexp` as far as the program uses it: anchored patterns, matched by derivatives, and the
-- language of a pattern as an inductive family.
pub mod Deciding
pub mod Letters
use regixtry.Base.{ℕ, Bool, true, false, ◌||◌, ◌&&◌, [], ◌∷◌, ◌++◌, ◌≡◌, Text, if◌then◌else◌}

pub data Regex : Type 0 where
  never empty : Regex
  class : (ℕ → Bool) → Regex
  seq alt : Regex → Regex → Regex
  star : Regex → Regex

-- r+ and r?
abbrev pub plus : Regex → Regex
plus r = seq r (star r)

abbrev pub opt : Regex → Regex
opt r = alt r empty

pub data Matches : Regex → Text → Type 0 where
  m_empty : Matches empty []
  m_class : {p : ℕ → Bool} (c : ℕ) → p c ≡ true → Matches (class p) (c ∷ [])
  m_seq :
      {r q : Regex} {u : Text} (s t : Text)
      → Matches r s
      → Matches q t
      → s ++ t ≡ u
      → Matches (seq r q) u
  m_left : {r q : Regex} {s : Text} → Matches r s → Matches (alt r q) s
  m_right : {r q : Regex} {s : Text} → Matches q s → Matches (alt r q) s
  m_stop : {r : Regex} → Matches (star r) []
  m_more :
      {r : Regex} {u : Text} (s t : Text)
      → Matches r s
      → Matches (star r) t
      → s ++ t ≡ u
      → Matches (star r) u

pub nullable : Regex → Bool
nullable never = false
nullable empty = true
nullable (class p) = false
nullable (seq r q) = nullable r && nullable q
nullable (alt r q) = nullable r || nullable q
nullable (star r) = true

pub derive : ℕ → Regex → Regex
derive c never = never
derive c empty = never
derive c (class p) = if p c then empty else never
derive c (seq r q) =
    let first = seq (derive c r) q in
    let second = derive c q in if nullable r then alt first second else first
derive c (alt r q) = alt (derive c r) (derive c q)
derive c (star r) = seq (derive c r) (star r)

-- MatchString of a pattern between `^` and `$`
unfoldable pub match_string : Regex → Text → Bool
unfolding nullable derive
match_string r [] = nullable r
match_string r (c ∷ s) = match_string (derive c r) s

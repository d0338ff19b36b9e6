-- ===== src/Strings.antt =====
-- What the program uses of Go's `strings` package: TrimSpace, Split, Fields, Join, Cut, HasPrefix
-- and HasSuffix, over texts as lists of code points.
pub mod Splitting
pub mod Trimming
use regixtry.Base.{
  ℕ, Bool, true, false, ◌||◌, ◌&&◌, not, List, [], ◌∷◌, ◌++◌, Option, none, some, Text, leb, ◌==◌,
  if◌then◌else◌, keep,
}

-- unicode.IsSpace
unfoldable pub is_space : ℕ → Bool
is_space c =
    (leb 9 c && leb c 13)
    || (c == 32)
    || (c == 0x85)
    || (c == 0xa0)
    || (c == 0x1680)
    || (leb 0x2000 c && leb c 0x200a)
    || (c == 0x2028)
    || (c == 0x2029)
    || (c == 0x202f)
    || (c == 0x205f)
    || (c == 0x3000)

unfoldable pub trim_left : Text → Text
unfolding is_space
trim_left [] = []
trim_left (c ∷ s) = let rest = trim_left s in if is_space c then rest else c ∷ s

abbrev pub is_nil {ℓ} : {A : Type ℓ} → List A → Bool
is_nil [] = true
is_nil (_ ∷ _) = false

abbrev pub drop_blank : ℕ → Text → Text
drop_blank c [] = if is_space c then [] else c ∷ []
drop_blank c (d ∷ s) = c ∷ d ∷ s

unfoldable pub trim_right : Text → Text
unfolding is_space
trim_right [] = []
trim_right (c ∷ s) = drop_blank c (trim_right s)

-- strings.TrimSpace
unfoldable pub trim_space : Text → Text
unfolding trim_left trim_right
trim_space s = trim_right (trim_left s)

abbrev pub push : ℕ → List Text → List Text
push c [] = (c ∷ []) ∷ []
push c (p ∷ ps) = (c ∷ p) ∷ ps

abbrev pub cut_or_push : Bool → ℕ → List Text → List Text
cut_or_push true c ps = [] ∷ ps
cut_or_push false c ps = push c ps

-- The pieces between the characters that pass the test.
unfoldable pub split_on : (ℕ → Bool) → Text → List Text
split_on sep [] = [] ∷ []
split_on sep (c ∷ s) = cut_or_push (sep c) c (split_on sep s)

-- strings.Split with a separator of one character
unfoldable pub split : ℕ → Text → List Text
unfolding split_on
split sep = split_on (λ c. c == sep)

-- strings.Fields
unfoldable pub fields : Text → List Text
unfolding split_on is_space
fields s = keep (λ p. not (is_nil p)) (split_on is_space s)

-- strings.Join with a separator of one character
unfoldable pub join : ℕ → List Text → Text
join sep [] = []
join sep (p ∷ []) = p
join sep (p ∷ q ∷ ps) = p ++ (sep ∷ join sep (q ∷ ps))

abbrev pub cut_step : Bool → ℕ → Text → Option (Text × Text) → Option (Text × Text)
cut_step true c s rest = some ([], s)
cut_step false c s none = none
cut_step false c s (some (a, b)) = some (c ∷ a, b)

-- strings.Cut at one character: what stands before and after its first occurrence
unfoldable pub cut : ℕ → Text → Option (Text × Text)
cut sep [] = none
cut sep (c ∷ s) = cut_step (c == sep) c s (cut sep s)

unfoldable pub has_prefix : Text → Text → Bool
has_prefix s [] = true
has_prefix [] (c ∷ p) = false
has_prefix (d ∷ s) (c ∷ p) = if d == c then has_prefix s p else false

-- strings.HasSuffix for a suffix of one character
unfoldable pub ends_in : ℕ → Text → Bool
ends_in c [] = false
ends_in c (d ∷ []) = d == c
ends_in c (d ∷ e ∷ s) = ends_in c (e ∷ s)

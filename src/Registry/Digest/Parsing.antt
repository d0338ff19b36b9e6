-- ===== src/Registry/Digest/Parsing.antt =====
-- Which texts parse as digests, and the digests that the program computes.
use regixtry.Base.{
  ℕ, Bool, true, false, ◌||◌, not, List, [], ◌∷◌, ◌++◌, Option, none, some, Text, text_eq,
  text_eq_iff, text_eq_refl, len, length, ◌==◌, ==_iff, ok, ◌≡◌, ◌↔◌, refl, ap, ◌∙◌, sym, All,
  arith, Bool-cases, inl, inr,
}
use regixtry.Strings.{cut, cut_step}
use regixtry.Strings.Splitting.{Lacks}
use regixtry.Registry.Digest.{
  Digest, digest_algorithm_sha256, before_colon, after_colon, decoded, check_parts, parse_digest,
  digest_from_bytes, algorithm, encoded,
}
use regixtry.Registry.Digest.Hex.{
  hex_decode, hex_encode, hex_decode-encode, hex_decode-IsHex, IsHex, IsHex-decodes, IsByte,
  len-hex_encode, len-IsHex,
}

cut_step_inv :
    (t : Bool) (sep c : ℕ) (s : Text) (rest : Option (Text × Text)) {a e : Text}
    → (t ≡ true → c ≡ sep)
    → ((a' e' : Text) → rest ≡ some (a', e') → s ≡ a' ++ (sep ∷ e'))
    → cut_step t c s rest ≡ some (a, e)
    → c ∷ s ≡ a ++ (sep ∷ e)
cut_step_inv true sep c s rest f g h = cc (f refl)
cut_step_inv false sep c s none f g h = absurd (cc)
cut_step_inv false sep c s (some (a', e')) f g h = cc (g a' e' refl)

cut-some : (sep : ℕ) (s : Text) {a e : Text} → cut sep s ≡ some (a, e) → s ≡ a ++ (sep ∷ e)
unfolding cut
cut-some sep [] h = absurd (cc)
cut-some sep (c ∷ s) h =
    cut_step_inv (c == sep) sep c s (cut sep s) (==_iff c sep).0 (λ a e. cut-some sep s) h

cut_at : (sep : ℕ) (a e : Text) → Lacks (λ c. c == sep) a → cut sep (a ++ (sep ∷ e)) ≡ some (a, e)
unfolding cut
cut_at sep [] e h = ground arith
cut_at sep (c ∷ a) e h = ground (arith, cut_at sep a e h.1, h.0)

-- The form of a digest: the algorithm's name, a colon, and 64 hexadecimal digits.
pub record IsDigest (value : Text) : Type 0 where
  pub hex : Text
  pub form : value ≡ digest_algorithm_sha256 ++ (b':' ∷ hex)
  pub digits : All IsHex hex
  pub size : length hex ≡ 64

cut_form :
    (hex : Text)
    → cut b':' (digest_algorithm_sha256 ++ (b':' ∷ hex)) ≡ some (digest_algorithm_sha256, hex)
cut_form hex =
    cut_at b':' digest_algorithm_sha256 hex (refl, (refl, (refl, (refl, (refl, (refl, tt))))))

decoded_inv :
    (v : Text) (o : Option (List ℕ)) {d : Digest}
    → decoded v o ≡ ok d
    → (d ≡ v) × ((bs : List ℕ) × (o ≡ some bs))
decoded_inv v none h = absurd (cc)
decoded_inv v (some bs) h = (cc, (bs, refl))

check_parts_inv :
    (v : Text) (o : Option (Text × Text)) {d : Digest}
    → check_parts v o ≡ ok d
    → (e : Text) × (o ≡ some (digest_algorithm_sha256, e))
      × (len e ≡ 64)
      × (d ≡ v)
      × ((bs : List ℕ) × (hex_decode e ≡ some bs))
check_parts_inv v none h = absurd (cc)
check_parts_inv v (some (a, e)) {d} h =
    elim (Bool-cases (not (text_eq a digest_algorithm_sha256) || not (len e == 64))) [
      | inl bad ↦ absurd (ground (arith))
      | inr good ↦
          let k : decoded v (hex_decode e) ≡ ok d = ground arith in
          let (same, bs) = decoded_inv v (hex_decode e) k in
          (e, ground (arith, (text_eq_iff a digest_algorithm_sha256).0), ground (arith), same, bs)
    ]

parse_digest-IsDigest : (v : Text) {d : Digest} → parse_digest v ≡ ok d → (d ≡ v) × IsDigest v
unfolding parse_digest
parse_digest-IsDigest v h =
    let (e, cutting, sized, same, (bs, decodes)) = check_parts_inv v (cut b':' v) h in
    let digits = hex_decode-IsHex e decodes in
    (
      same,
      record {
        hex = e;
        form = cut-some b':' v cutting;
        digits = digits;
        size = sym (len-IsHex e digits) ∙ sized;
      },
    )

cut-IsDigest : (v : Text) (d : IsDigest v) → cut b':' v ≡ some (digest_algorithm_sha256, d.hex)
cut-IsDigest v d = ap (cut b':') d.form ∙ cut_form d.hex

check_parts-ok :
    (v e : Text) {bs : List ℕ}
    → len e ≡ 64
    → hex_decode e ≡ some bs
    → check_parts v (some (digest_algorithm_sha256, e)) ≡ ok v
check_parts-ok v e h k = rw (text_eq_refl digest_algorithm_sha256, h, k)

IsDigest-parses : (v : Text) → IsDigest v → parse_digest v ≡ ok v
unfolding parse_digest
IsDigest-parses v d =
    let (bs, decodes) = IsHex-decodes 32 d.hex d.size d.digits in
    ap (check_parts v) (cut-IsDigest v d)
    ∙ check_parts-ok v d.hex (len-IsHex d.hex d.digits ∙ d.size) decodes

-- A text parses as a digest exactly when it is "sha256:" followed by 64 hexadecimal digits of
-- either case, and then the digest is the text itself.
pub parse_digest_iff : (v d : Text) → (parse_digest v ≡ ok d) ↔ ((d ≡ v) × IsDigest v)
parse_digest_iff v d =
    (parse_digest-IsDigest v, λ (same, form). IsDigest-parses v form ∙ ap ok (sym same))

pub algorithm-IsDigest : (v : Text) (d : IsDigest v) → algorithm v ≡ digest_algorithm_sha256
unfolding algorithm
algorithm-IsDigest v d = ap (before_colon v) (cut-IsDigest v d)

pub encoded-IsDigest : (v : Text) (d : IsDigest v) → encoded v ≡ d.hex
unfolding encoded
encoded-IsDigest v d = ap after_colon (cut-IsDigest v d)

-- The parts of a parsed digest: its algorithm is "sha256", its encoded part is 64 hexadecimal
-- digits, and the two around a colon spell the digest.
pub parse_digest-parts :
    (v : Text) {d : Digest}
    → parse_digest v ≡ ok d
    → (algorithm d ≡ digest_algorithm_sha256)
      × (d ≡ algorithm d ++ (b':' ∷ encoded d))
      × All IsHex (encoded d)
      × (length (encoded d) ≡ 64)
parse_digest-parts v {d} h =
    let (same, form) = parse_digest-IsDigest v h in
    rw (same, algorithm-IsDigest v form, encoded-IsDigest v form)
      (refl, form.form, form.digits, form.size)

pub digest_from_bytes-IsDigest :
    (sha256 : List ℕ → List ℕ) (payload : List ℕ)
    → length (sha256 payload) ≡ 32
    → All IsByte (sha256 payload)
    → IsDigest (digest_from_bytes sha256 payload)
unfolding digest_from_bytes
digest_from_bytes-IsDigest sha256 payload size bytes =
    let digits =
      hex_decode-IsHex (hex_encode (sha256 payload)) (hex_decode-encode (sha256 payload) bytes) in
    record {
      hex = hex_encode (sha256 payload);
      form = refl;
      digits = digits;
      size = omega (
        arith,
        len-IsHex (hex_encode (sha256 payload)) digits,
        len-hex_encode (sha256 payload) bytes,
      );
    }

hex_decode-encode_of_form :
    (sha256 : List ℕ → List ℕ) (payload : List ℕ) (size : length (sha256 payload) ≡ 32)
    (bytes : All IsByte (sha256 payload))
    → hex_decode (digest_from_bytes-IsDigest sha256 payload size bytes).hex ≡ some (sha256 payload)
unfolding digest_from_bytes-IsDigest
hex_decode-encode_of_form sha256 payload size bytes = hex_decode-encode (sha256 payload) bytes

-- For a hash function that yields 32 bytes, the digest of any payload parses as itself, and its
-- encoded part decodes to the hash.
pub parse-digest_from_bytes :
    (sha256 : List ℕ → List ℕ)
    → ((payload : List ℕ) → (length (sha256 payload) ≡ 32) × All IsByte (sha256 payload))
    → (payload : List ℕ)
    → (parse_digest (digest_from_bytes sha256 payload) ≡ ok (digest_from_bytes sha256 payload))
      × (hex_decode (encoded (digest_from_bytes sha256 payload)) ≡ some (sha256 payload))
parse-digest_from_bytes sha256 sized payload =
    let (size, bytes) = sized payload in
    let form = digest_from_bytes-IsDigest sha256 payload size bytes in
    (
      IsDigest-parses _ form,
      ap hex_decode (encoded-IsDigest _ form) ∙ hex_decode-encode_of_form sha256 payload size bytes,
    )

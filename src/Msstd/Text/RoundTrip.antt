-- ===== src/Msstd/Text/RoundTrip.antt =====
-- url_decode behind url_encode and sqa_encode.
use build_project.Prelude.{
  ℕ, suc, ◌+◌, ◌-◌, ◌*◌, ◌==◌, leb, false, ◌&&◌, Option, none, some, [], ◌∷◌, ◌++◌, Bytes, length,
  length-append, if◌then◌else◌, ◌≡◌, refl, ap, ◌∙◌, arith, All,
}
use build_project.Msstd.Text.{
  decode_loop, url_decode, url_escape, url_encode_loop, url_encode, sqa_escape, sqa_encode_loop,
  sqa_encode,
}

-- The value of a hexadecimal digit.
abbrev pub hex_value : ℕ → Option ℕ
hex_value c =
    if leb b'0' c && leb c b'9'
    then some (c - b'0')
    else if leb b'A' c && leb c b'F'
    then some (c - 55)
    else if leb b'a' c && leb c b'f'
    then some (c - 87)
    else none

-- What sscanf documents of "%2x": two hexadecimal digits are read as their number.
pub record ReadsHex (scan : Bytes → Option ℕ) : Type 0 where
  pub two_digits :
      (h l a b : ℕ) (rest : Bytes)
      → hex_value h ≡ some a
      → hex_value l ≡ some b
      → scan (h ∷ l ∷ rest) ≡ some (16 * a + b)

-- A text without the byte `c`.
abbrev pub Without : ℕ → Bytes → Type 0
Without c = All (λ x. (x == c) ≡ false)

module _ (scan : Bytes → Option ℕ) (reads : ReadsHex scan) where
  decode_percent :
      (h l v n : ℕ) (rest : Bytes)
      → scan (h ∷ l ∷ rest) ≡ some v
      → decode_loop scan 0 (suc (suc (suc n))) (b'%' ∷ h ∷ l ∷ rest) ≡ v ∷ decode_loop scan 0 n rest
  unfolding decode_loop
  decode_percent h l v n rest read = rw read refl

  decode_plain :
      (c n : ℕ) (rest : Bytes)
      → (c == b'+') ≡ false
      → (c == b'%') ≡ false
      → decode_loop scan 0 (suc n) (c ∷ rest) ≡ c ∷ decode_loop scan 0 n rest
  unfolding decode_loop
  decode_plain c n rest plus percent = rw (plus, percent) refl

  decode-url_escape :
      (c n : ℕ) (rest : Bytes)
      → (c == b'%') ≡ false
      → decode_loop scan 0 (length (url_escape c) + n) (url_escape c ++ rest)
        ≡ c ∷ decode_loop scan 0 n rest
  unfolding url_escape
  decode-url_escape c n rest percent = ground (
    arith,
    decode_percent b'2' b'0' b' ' n rest (reads.two_digits b'2' b'0' 2 0 rest refl refl),
    decode_percent b'0' b'a' 10 n rest (reads.two_digits b'0' b'a' 0 10 rest refl refl),
    decode_percent b'2' b'B' b'+' n rest (reads.two_digits b'2' b'B' 2 11 rest refl refl),
    decode_plain c n rest,
  )

  decode-sqa_escape :
      (c n : ℕ) (rest : Bytes)
      → (c == b'+') ≡ false
      → decode_loop scan 0 (length (sqa_escape c) + n) (sqa_escape c ++ rest)
        ≡ c ∷ decode_loop scan 0 n rest
  unfolding sqa_escape
  decode-sqa_escape c n rest plus = ground (
    arith,
    decode_percent b'2' b'6' b'&' n rest (reads.two_digits b'2' b'6' 2 6 rest refl refl),
    decode_percent b'2' b'5' b'%' n rest (reads.two_digits b'2' b'5' 2 5 rest refl refl),
    decode_percent b'3' b'C' b'<' n rest (reads.two_digits b'3' b'C' 3 12 rest refl refl),
    decode_percent b'3' b'E' b'>' n rest (reads.two_digits b'3' b'E' 3 14 rest refl refl),
    decode_plain c n rest,
  )

  url_loops :
      (s : Bytes)
      → Without b'%' s
      → decode_loop scan 0 (length (url_encode_loop (length s) s)) (url_encode_loop (length s) s)
        ≡ s
  unfolding url_encode_loop decode_loop
  url_loops [] h = refl
  url_loops (c ∷ s) h =
      let rest = url_encode_loop (length s) s in
      rw (length-append (url_escape c) rest)
        (decode-url_escape c (length rest) rest h.0 ∙ ap (λ t. c ∷ t) (url_loops s h.1))

  sqa_loops :
      (s : Bytes)
      → Without b'+' s
      → decode_loop scan 0 (length (sqa_encode_loop (length s) s)) (sqa_encode_loop (length s) s)
        ≡ s
  unfolding sqa_encode_loop decode_loop
  sqa_loops [] h = refl
  sqa_loops (c ∷ s) h =
      let rest = sqa_encode_loop (length s) s in
      rw (length-append (sqa_escape c) rest)
        (decode-sqa_escape c (length rest) rest h.0 ∙ ap (λ t. c ∷ t) (sqa_loops s h.1))

  -- If `%2x` reads two hexadecimal digits as their number, `url_decode` gives back a text that
  -- `url_encode` wrote in full, if it has no percent sign, and one that `sqa_encode` wrote, if it has no
  -- plus sign, with its count.
  pub url_decode-url_encode :
      (s s' : Bytes)
      → Without b'%' s
      → Without b'+' s'
      → (url_decode scan ((url_encode s (length s)).0) (length ((url_encode s (length s)).0))
          ≡ (s, length s + 1))
        × (url_decode scan ((sqa_encode s' (length s')).0) (length ((sqa_encode s' (length s')).0))
            ≡ (s', length s' + 1))
  unfolding url_decode url_encode sqa_encode
  url_decode-url_encode s s' percent plus =
      (rw (url_loops s percent) refl, rw (sqa_loops s' plus) refl)

-- ===== src/Tests/Text.antt =====
-- The theorems on the strings of msstd at concrete inputs.
use build_project.Prelude.{
  ℕ, ◌+◌, ◌*◌, ◌==◌, false, Option, none, some, ◌∷◌, Bytes, codes, length, ◌≡◌, refl, All,
}
use build_project.Msstd.Text.{ms_string_strip, url_decode, url_encode, sqa_encode}
use build_project.Msstd.Text.RoundTrip.{hex_value, ReadsHex, url_decode-url_encode}
use build_project.Msstd.Text.Strip.{count, ms_string_strip_lem}

abbrev number : Option ℕ → Option ℕ → Option ℕ
number none l = none
number (some a) none = none
number (some a) (some b) = some (16 * a + b)

-- A scanner for two digits.
abbrev scan_two : Bytes → Option ℕ
scan_two (h ∷ l ∷ s) = number (hex_value h) (hex_value l)
scan_two s = none

scan_two-ReadsHex : ReadsHex scan_two
scan_two-ReadsHex = record { two_digits = λ h l a b rest p q. rw (p, q) refl }

url_decode-url_encode_example :
    (url_decode scan_two
        ((url_encode (codes "a b+c") (length (codes "a b+c"))).0)
        (length ((url_encode (codes "a b+c") (length (codes "a b+c"))).0))
      ≡ (codes "a b+c", length (codes "a b+c") + 1))
    × (url_decode scan_two
          ((sqa_encode (codes "50%<&") (length (codes "50%<&"))).0)
          (length ((sqa_encode (codes "50%<&") (length (codes "50%<&"))).0))
        ≡ (codes "50%<&", length (codes "50%<&") + 1))
url_decode-url_encode_example =
    url_decode-url_encode scan_two scan_two-ReadsHex (codes "a b+c") (codes "50%<&")
      (refl, (refl, (refl, (refl, (refl, tt))))) (refl, (refl, (refl, (refl, (refl, tt)))))

ms_string_strip_lem_example :
    All (λ y. (y == b'-') ≡ false) (ms_string_strip (codes "a-b--a") b'-')
    × (count b'a' (ms_string_strip (codes "a-b--a") b'-') ≡ count b'a' (codes "a-b--a"))
    × (length (ms_string_strip (codes "a-b--a") b'-') + count b'-' (codes "a-b--a")
        ≡ length (codes "a-b--a"))
ms_string_strip_lem_example = ms_string_strip_lem (codes "a-b--a") b'-' b'a' refl

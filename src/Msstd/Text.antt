-- ===== src/Msstd/Text.antt =====
-- libs/msstd/string.c: ms_string_strip, url_decode, url_encode and sqa_encode. A text is its bytes in
-- front of the NUL. The codecs go through `len` bytes, with `left` of them to go; no text is shorter.
-- What they return is the text that is left in `dst` and the count of its bytes with the NUL.
pub mod RoundTrip
pub mod Strip
use build_project.Prelude.{
  ℕ, zero, suc, ◌+◌, ◌-◌, ◌==◌, Bool, Option, none, some, List, [], ◌∷◌, ◌++◌, Bytes, codes, length,
  if◌then◌else◌,
}

unfoldable pub ms_string_strip : Bytes → ℕ → Bytes
ms_string_strip [] c = []
ms_string_strip (x ∷ s) c = let rest = ms_string_strip s c in if x == c then rest else x ∷ rest

-- `sscanf(&src[b+1], "%2x", &c) > 0`: what it reads, if it reads something.
abbrev put_scanned : Option ℕ → Bytes → Bytes
put_scanned none rest = rest
put_scanned (some c) rest = c ∷ rest

-- `scan` is sscanf with "%2x". `skip` bytes are passed over: those behind a percent sign.
decode_loop : (Bytes → Option ℕ) → ℕ → ℕ → Bytes → Bytes
decode_loop scan skip left [] = []
decode_loop scan skip zero (c ∷ src) = []
decode_loop scan (suc skip) (suc left) (c ∷ src) = decode_loop scan skip left src
decode_loop scan zero (suc left) (c ∷ src) =
    let rest = decode_loop scan (if c == b'%' then 2 else 0) left src in
    if c == b'+' then b' ' ∷ rest else if c == b'%' then put_scanned (scan src) rest else c ∷ rest

unfoldable pub url_decode : (Bytes → Option ℕ) → Bytes → ℕ → Bytes × ℕ
unfolding decode_loop
url_decode scan src len = let dst = decode_loop scan 0 len src in (dst, length dst + 1)

-- What url_encode and sqa_encode write for one byte.
url_escape : ℕ → Bytes
url_escape c =
    if c == b' '
    then codes "%20"
    else if c == 10
    then codes "%0a"
    else if c == b'+'
    then codes "%2B"
    else c ∷ []

sqa_escape : ℕ → Bytes
sqa_escape c =
    if c == b'&'
    then codes "%26"
    else if c == b'%'
    then codes "%25"
    else if c == b'<'
    then codes "%3C"
    else if c == b'>'
    then codes "%3E"
    else c ∷ []

url_encode_loop : ℕ → Bytes → Bytes
unfolding url_escape
url_encode_loop zero src = []
url_encode_loop (suc left) [] = []
url_encode_loop (suc left) (c ∷ src) = url_escape c ++ url_encode_loop left src

unfoldable pub url_encode : Bytes → ℕ → Bytes × ℕ
unfolding url_encode_loop
url_encode src len = let dst = url_encode_loop len src in (dst, length dst + 1)

sqa_encode_loop : ℕ → Bytes → Bytes
unfolding sqa_escape
sqa_encode_loop zero src = []
sqa_encode_loop (suc left) [] = []
sqa_encode_loop (suc left) (c ∷ src) = sqa_escape c ++ sqa_encode_loop left src

unfoldable pub sqa_encode : Bytes → ℕ → Bytes × ℕ
unfolding sqa_encode_loop
sqa_encode src len = let dst = sqa_encode_loop len src in (dst, length dst + 1)

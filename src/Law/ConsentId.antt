-- ===== src/Law/ConsentId.antt =====
-- Consent ids, contracts/src/consent.ts: `stableHash`, `consentIdFor` and the shape CONSENT_ID_RE.
-- A text is its UTF-16 units; `Math.imul(x, k) >>> 0` is the product modulo 2^32. For a number below
-- 2^32, `toString(16).padStart(8, "0")` is its eight hexadecimal digits.
use Prim.Native.Nat.{bit_xor, ◌%◌}
use Prim.Native.Char.{Char, code}
use vivim_omega.Common.Text.{◌⧺◌, strip_prefix}
use vivim_omega.Common.{
  ℕ, zero, suc, ◌+◌, ◌-◌, ◌*◌, ◌/◌, ◌^◌, String, ◌≡◌, refl, Bool, true, false, ◌&&◌, ◌||◌, List, [],
  ◌∷◌, ◌++◌, ltb, leb, if◌then◌else◌, arith, none, some,
}

-- `s.charCodeAt(0)`, `s.charCodeAt(1)`, …
unfoldable pub units : String → List ℕ
units String.[] = []
units (String.◌∷◌ c s) =
    if ltb (code c) 0x10000
    then code c ∷ units s
    else (0xd800 + (code c - 0x10000) / 0x400) ∷ (0xdc00 + (code c - 0x10000) % 0x400) ∷ units s

unfoldable pub imul : ℕ → ℕ → ℕ
imul x k = (x * k) % 2 ^ 32

-- the loop over the units, `i` the position
unfoldable pub hash_loop : ℕ → ℕ → ℕ → List ℕ → ℕ × ℕ
unfolding imul
hash_loop i h1 h2 [] = (h1, h2)
hash_loop i h1 h2 (c ∷ cs) =
    hash_loop (suc i) (imul (bit_xor h1 c) 0x01000193) (imul (bit_xor h2 (i + c + 1)) 0x85ebca6b) cs

-- the character at a position, "0" past the end
unfoldable pub char_at : ℕ → String → Char
char_at d String.[] = "0"
char_at zero (String.◌∷◌ c s) = c
char_at (suc d) (String.◌∷◌ c s) = char_at d s

-- the `n` low hexadecimal digits, most significant first, before `rest`
unfoldable pub hex : ℕ → ℕ → String → String
unfolding char_at
hex zero x rest = rest
hex (suc n) x rest = hex n (x / 16) (String.◌∷◌ (char_at (x % 16) "0123456789abcdef") rest)

unfoldable pub stable_hash : List ℕ → String
unfolding hash_loop hex
stable_hash s = let (h1, h2) = hash_loop 0 0x811c9dc5 0x01000193 s in hex 8 h1 (hex 8 h2 "")

-- `consent_${stableHash(`${principal}\u0000${op}`)}`
unfoldable pub consent_id_for : String → String → String
unfolding units ◌⧺◌
consent_id_for principal op = "consent_" ⧺ stable_hash (units principal ++ 0 ∷ units op)

-- [0-9a-f]
unfoldable pub is_hex : Char → Bool
is_hex c = (leb b'0' (code c) && leb (code c) b'9') || (leb b'a' (code c) && leb (code c) b'f')

-- [0-9a-f]{n}$
unfoldable pub is_hex_text : ℕ → String → Bool
unfolding is_hex
is_hex_text zero String.[] = true
is_hex_text zero (String.◌∷◌ c s) = false
is_hex_text (suc n) String.[] = false
is_hex_text (suc n) (String.◌∷◌ c s) = is_hex c && is_hex_text n s

-- CONSENT_ID_RE
unfoldable pub is_consent_id : String → Bool
unfolding is_hex_text strip_prefix
is_consent_id s = elim (strip_prefix "consent_" s) [
  | none ↦ false
  | some rest ↦ is_hex_text 16 rest
]

is_hex-char_at : (d : ℕ) (n : ℕ) (s : String) → is_hex_text n s ≡ true → is_hex (char_at d s) ≡ true
unfolding is_hex_text char_at
is_hex-char_at d n String.[] h = refl
is_hex-char_at zero zero (String.◌∷◌ c s) h = cc
is_hex-char_at zero (suc n) (String.◌∷◌ c s) h = ground (arith, h)
is_hex-char_at (suc d) zero (String.◌∷◌ c s) h = cc
is_hex-char_at (suc d) (suc n) (String.◌∷◌ c s) h = is_hex-char_at d n s (ground (arith, h))

abbrev plus : ℕ → ℕ → ℕ
plus zero m = m
plus (suc n) m = plus n (suc m)

is_hex_text-hex :
    (n m x : ℕ) (rest : String)
    → is_hex_text m rest ≡ true
    → is_hex_text (plus n m) (hex n x rest) ≡ true
unfolding hex
is_hex_text-hex zero m x rest h = h
is_hex_text-hex (suc n) m x rest h =
    is_hex_text-hex n (suc m) (x / 16) (String.◌∷◌ (char_at (x % 16) "0123456789abcdef") rest)
      (unfold is_hex_text in ground (arith, h, is_hex-char_at (x % 16) 16 "0123456789abcdef" refl))

is_hex_text-stable_hash : (s : List ℕ) → is_hex_text 16 (stable_hash s) ≡ true
unfolding stable_hash
is_hex_text-stable_hash s =
    let h = hash_loop 0 0x811c9dc5 0x01000193 s in
    is_hex_text-hex 8 8 h.0 (hex 8 h.1 "") (is_hex_text-hex 8 0 h.1 "" (unfold is_hex_text in refl))

-- The id that is derived for any principal and operation has the shape that `grant` asks for.
pub is_consent_id-consent_id_for :
    (principal op : String) → is_consent_id (consent_id_for principal op) ≡ true
unfolding is_consent_id consent_id_for
is_consent_id-consent_id_for principal op =
    is_hex_text-stable_hash (units principal ++ 0 ∷ units op)

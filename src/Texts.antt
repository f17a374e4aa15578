-- ===== src/Texts.antt =====
-- Texts as lists of character codes, and what the services do to them: equality, `strip`, `upper`
-- and the choice of a currency code.
use assetflow_fixed_asset_ma.Prelude.{
  ℕ, ◌-◌, Bool, true, false, ◌&&◌, ◌||◌, List, [], ◌∷◌, leb, ◌==◌, if◌then◌else◌,
}

abbrev pub same_text : List ℕ → List ℕ → Bool
same_text [] [] = true
same_text (a ∷ s) (b ∷ t) = (a == b) && same_text s t
same_text _ _ = false

-- The characters that `str.strip` removes.
unfoldable pub is_space : ℕ → Bool
is_space c =
    (leb 9 c && leb c 13)
    || (leb 28 c && leb c 32)
    || (c == 133)
    || (c == 160)
    || (c == 5760)
    || (leb 8192 c && leb c 8202)
    || (c == 8232)
    || (c == 8233)
    || (c == 8239)
    || (c == 8287)
    || (c == 12288)

unfoldable pub strip_left : List ℕ → List ℕ
strip_left [] = []
strip_left (c ∷ s) = let rest = strip_left s in if is_space c then rest else c ∷ s

-- A character before a stripped end: dropped where it is a space and nothing follows it.
abbrev before_end : ℕ → List ℕ → List ℕ
before_end c [] = if is_space c then [] else c ∷ []
before_end c (d ∷ s) = c ∷ d ∷ s

unfoldable pub strip_right : List ℕ → List ℕ
strip_right [] = []
strip_right (c ∷ s) = before_end c (strip_right s)

-- `text.strip()`
unfoldable pub strip : List ℕ → List ℕ
strip s = strip_right (strip_left s)

abbrev upper_letter : ℕ → ℕ
upper_letter c = if leb 97 c && leb c 122 then c - 32 else c

-- `text.upper()` for the letters of currency codes, which are ASCII.
unfoldable pub upper : List ℕ → List ℕ
upper [] = []
upper (c ∷ s) = upper_letter c ∷ upper s

abbrev among : List ℕ → List (List ℕ) → Bool
among s [] = false
among s (t ∷ ts) = same_text s t || among s ts

-- `CurrencyCode` of backend/assets/models.py
currency_codes : List (List ℕ)
currency_codes =
    (b'N' ∷ b'G' ∷ b'N' ∷ [])
    ∷ (b'U' ∷ b'S' ∷ b'D' ∷ [])
    ∷ (b'G' ∷ b'B' ∷ b'P' ∷ [])
    ∷ (b'E' ∷ b'U' ∷ b'R' ∷ [])
    ∷ (b'Z' ∷ b'A' ∷ b'R' ∷ [])
    ∷ (b'G' ∷ b'H' ∷ b'S' ∷ [])
    ∷ (b'K' ∷ b'E' ∷ b'S' ∷ [])
    ∷ (b'X' ∷ b'O' ∷ b'F' ∷ [])
    ∷ (b'X' ∷ b'A' ∷ b'F' ∷ [])
    ∷ (b'A' ∷ b'E' ∷ b'D' ∷ [])
    ∷ (b'S' ∷ b'A' ∷ b'R' ∷ [])
    ∷ (b'C' ∷ b'A' ∷ b'D' ∷ [])
    ∷ (b'A' ∷ b'U' ∷ b'D' ∷ [])
    ∷ (b'C' ∷ b'H' ∷ b'F' ∷ [])
    ∷ (b'C' ∷ b'N' ∷ b'Y' ∷ [])
    ∷ (b'J' ∷ b'P' ∷ b'Y' ∷ [])
    ∷ (b'I' ∷ b'N' ∷ b'R' ∷ [])
    ∷ []

unfoldable pub is_currency_code : List ℕ → Bool
unfolding currency_codes
is_currency_code s = among s currency_codes

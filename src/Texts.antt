-- ===== src/Texts.antt =====
-- The methods of Python's `str` that backend/app calls on configuration values and emails. Letters
-- and spaces are those of ASCII.
use Prim.Native.Char.{Char, code}
use Prim.Native.String.{String}
use chore_app.Base.{Bool, ◌||◌, ◌&&◌, leb, ◌==◌, if◌then◌else◌}

abbrev is_space : Char → Bool
is_space c = leb 9 (code c) && leb (code c) 13 || leb 28 (code c) && leb (code c) 32

unfoldable pub lstrip : String → String
lstrip String.[] = String.[]
lstrip (String.◌∷◌ c s) = if is_space c then lstrip s else String.◌∷◌ c s

-- The characters in the opposite order, before those of the second text.
unfoldable pub reverse_onto : String → String → String
reverse_onto String.[] t = t
reverse_onto (String.◌∷◌ c s) t = reverse_onto s (String.◌∷◌ c t)

-- `strip()`
unfoldable pub strip : String → String
unfolding lstrip reverse_onto
strip s = reverse_onto (lstrip (reverse_onto (lstrip s) "")) ""

-- The character that stands where `c` does in the first text, or `c`.
unfoldable pub translated : String → String → Char → Char
translated String.[] to c = c
translated (String.◌∷◌ a from) String.[] c = c
translated (String.◌∷◌ a from) (String.◌∷◌ b to) c =
    if code a == code c then b else translated from to c

-- `lower()`
unfoldable pub lower : String → String
unfolding translated
lower String.[] = String.[]
lower (String.◌∷◌ c s) =
    String.◌∷◌ (translated "ABCDEFGHIJKLMNOPQRSTUVWXYZ" "abcdefghijklmnopqrstuvwxyz" c) (lower s)

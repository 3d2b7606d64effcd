-- ===== src/Prelude/Text.antt =====
-- Python's texts as code points, and the methods of `str` that the code calls.
use Prim.Native.Char.{code}
use Prim.Native.Nat.{ℕ, ◌+◌}
use Prim.Native.String.{String, ◌++◌ as ◌<>◌}
use text.Mathlib.Text.{◌==◌ as str_eq}
use mathlib.Core.Bool.{Bool, true, false, ◌&&◌, ◌||◌}
use mathlib.Core.List.{List, [], ◌∷◌, map, reverse}
use mathlib.Core.Option.{Option, none, some}
use auto_model_router.Prelude.Tests.{leb, nat_beq, if◌then◌else◌}

abbrev pub codes : String → List ℕ
codes String.[] = []
codes (String.◌∷◌ c s) = code c ∷ codes s

abbrev pub codes_eq : List ℕ → List ℕ → Bool
codes_eq [] [] = true
codes_eq [] (y ∷ ys) = false
codes_eq (x ∷ xs) [] = false
codes_eq (x ∷ xs) (y ∷ ys) = nat_beq x y && codes_eq xs ys

-- The code points of which `str.isspace` is true.
unfoldable pub is_space : ℕ → Bool
is_space c =
    (leb 9 c && leb c 13)
    || (leb 28 c && leb c 32)
    || nat_beq c 0x85
    || nat_beq c 0xa0
    || nat_beq c 0x1680
    || (leb 0x2000 c && leb c 0x200a)
    || nat_beq c 0x2028
    || nat_beq c 0x2029
    || nat_beq c 0x202f
    || nat_beq c 0x205f
    || nat_beq c 0x3000

-- `s.lstrip()` and `s.strip()`
unfoldable pub lstrip : List ℕ → List ℕ
lstrip [] = []
lstrip (c ∷ cs) = if is_space c then lstrip cs else c ∷ cs

unfoldable pub strip : List ℕ → List ℕ
unfolding lstrip is_space
strip cs = reverse (lstrip (reverse (lstrip cs)))

-- `s.casefold()` on the characters whose folding is one ASCII letter: the capitals, the long s and
-- the Kelvin sign. The others fold to themselves or to a text that is no ASCII word; they are left.
unfoldable pub fold_code : ℕ → ℕ
fold_code c =
    if leb b'A' c && leb c b'Z'
    then c + 32
    else if nat_beq c 0x17f
    then b's'
    else if nat_beq c 0x212a
    then b'k'
    else c

unfoldable pub casefold : List ℕ → List ℕ
unfolding fold_code
casefold = map fold_code

-- `s.startswith(prefix)` gives what follows.
unfoldable pub text_after : List ℕ → List ℕ → Option (List ℕ)
text_after [] text = some text
text_after (p ∷ ps) [] = none
text_after (p ∷ ps) (c ∷ cs) = let rest = text_after ps cs in if nat_beq c p then rest else none

-- `s.strip()` and `sep.join(xs)` on texts
unfoldable pub lstrip_text : String → String
lstrip_text String.[] = String.[]
lstrip_text (String.◌∷◌ c s) = if is_space (code c) then lstrip_text s else String.◌∷◌ c s

unfoldable pub rstrip_text : String → String
rstrip_text String.[] = String.[]
rstrip_text (String.◌∷◌ c s) =
    let rest = rstrip_text s in
    if str_eq rest "" && is_space (code c) then "" else String.◌∷◌ c rest

unfoldable pub strip_text : String → String
unfolding lstrip_text rstrip_text
strip_text s = rstrip_text (lstrip_text s)

unfoldable pub join : String → List String → String
join sep [] = ""
join sep (x ∷ []) = x
join sep (x ∷ (y ∷ ys)) = x <> (sep <> join sep (y ∷ ys))

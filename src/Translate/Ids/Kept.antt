-- ===== src/Translate/Ids/Kept.antt =====
-- What `anthropic_tool_id` of auto_router/translate.py returns.
use Prim.Native.Char.{code}
use auto_model_router.Prelude.{
  ◌≡◌, refl, subst, ap, String, Bool, true, false, ◌&&◌, some, str_eq, eq_iff, Bool-cases, inl, inr,
}
use auto_model_router.Translate.Ids.{is_id_code, sub_bad, anthropic_tool_id}

-- ^[a-zA-Z0-9_-]*$
abbrev pub is_id : String → Bool
is_id String.[] = true
is_id (String.◌∷◌ c s) = is_id_code (code c) && is_id s

underscore : is_id_code (code "_") ≡ true
unfolding is_id_code
underscore = refl

and_true : (a b : Bool) → a && b ≡ true → (a ≡ true) × (b ≡ true)
and_true true true e = (refl, refl)
and_true true false e = cc
and_true false b e = cc

sub_bad-is_id : (s : String) → is_id (sub_bad s) ≡ true
unfolding sub_bad
sub_bad-is_id String.[] = refl
sub_bad-is_id (String.◌∷◌ c s) = elim (Bool-cases (is_id_code (code c))) [
  | inl e ↦ rw e (rw e (sub_bad-is_id s))
  | inr e ↦ rw e (rw underscore (sub_bad-is_id s))
]

pub sub_bad-same : (s : String) → is_id s ≡ true → sub_bad s ≡ s
unfolding sub_bad
sub_bad-same String.[] e = refl
sub_bad-same (String.◌∷◌ c s) e =
    let (a, b) = and_true (is_id_code (code c)) (is_id s) e in
    rw a (ap (λ s. String.◌∷◌ c s) (sub_bad-same s b))

is_nil : String → Bool
is_nil String.[] = true
is_nil (String.◌∷◌ c s) = false

str_eq-nil : (s : String) → is_nil s ≡ false → str_eq s "" ≡ false
unfolding is_nil
str_eq-nil s e = elim (Bool-cases (str_eq s "")) [
  | inl t ↦ let wrong : true ≡ false = subst (λ u. is_nil u ≡ false) ((eq_iff s "").0 t) e in cc
  | inr f ↦ f
]

sub_bad-ne : (s : String) → str_eq s "" ≡ false → str_eq (sub_bad s) "" ≡ false
unfolding sub_bad is_nil
sub_bad-ne String.[] e = cc
sub_bad-ne (String.◌∷◌ c s) e = elim (Bool-cases (is_id_code (code c))) [
  | inl t ↦ rw t (str_eq-nil _ refl)
  | inr t ↦ rw t (str_eq-nil _ refl)
]

-- An upstream's id that is no empty text becomes a text of letters, digits, `_` and `-`, and the id
-- that the client echoes is left as it is.
pub anthropic_tool_id-is_id :
    (fresh other raw : String)
    → str_eq raw "" ≡ false
    → let id = anthropic_tool_id fresh (some raw) in
      (is_id id ≡ true) × (anthropic_tool_id other (some id) ≡ id)
unfolding anthropic_tool_id
anthropic_tool_id-is_id fresh other raw e =
    rw e (sub_bad-is_id raw, rw (sub_bad-ne raw e) (sub_bad-same (sub_bad raw) (sub_bad-is_id raw)))

-- ===== src/Switch/Sessions.antt =====
-- What the arguments of a session of auto_router/switch.py keep of the user's.
use auto_model_router.Prelude.{
  ◌≡◌, inl, inr, refl, ap, String, Bool, true, false, Option, none, some, List, [], ◌∷◌, ◌++◌,
  arith, In,
}
use auto_model_router.Switch.{
  is_resume, is_continue, drop_resume, without_resume, is_option, split_after, split_prompt,
}

drop_resume-In :
    (skip : Bool) (args : List String) (a : String)
    → In a (drop_resume skip args)
    → (is_resume a ≡ false) × (is_continue a ≡ false)
unfolding drop_resume
drop_resume-In skip [] a i = absurd i
drop_resume-In true (x ∷ xs) a i = drop_resume-In false xs a i
drop_resume-In false (x ∷ xs) a i =
    ground (arith, drop_resume-In true xs a, drop_resume-In false xs a)

-- No argument that is left asks for a session of the user's own.
pub without_resume-In :
    (args : List String) (a : String)
    → In a (without_resume args)
    → (is_resume a ≡ false) × (is_continue a ≡ false)
unfolding without_resume
without_resume-In args a i = drop_resume-In false args a i

drop_resume-same :
    (args : List String)
    → ((a : String) → In a args → (is_resume a ≡ false) × (is_continue a ≡ false))
    → drop_resume false args ≡ args
unfolding drop_resume
drop_resume-same [] h = refl
drop_resume-same (x ∷ xs) h =
    let c = h x (inl refl) in
    let rest = drop_resume-same xs (λ a i. h a (inr i)) in ground (arith, c, rest)

-- Dropping the session options again changes nothing, so a switch after a switch keeps the
-- arguments.
pub without_resume-same :
    (args : List String) → without_resume (without_resume args) ≡ without_resume args
unfolding without_resume
without_resume-same args =
    drop_resume-same (drop_resume false args) (λ a i. drop_resume-In false args a i)

abbrev pub prompt_list : Option String → List String
prompt_list none = []
prompt_list (some prompt) = prompt ∷ []

split_after-append :
    (option : Bool) (args : List String)
    → (split_after option args).0 ++ prompt_list (split_after option args).1 ≡ args
unfolding split_after
split_after-append option [] = refl
split_after-append option (x ∷ []) = ground arith
split_after-append option (x ∷ (y ∷ ys)) =
    ap (λ t. x ∷ t) (split_after-append (is_option x) (y ∷ ys))

-- The options followed by the prompt, if there is one, are the user's arguments.
pub split_prompt-append :
    (args : List String) → (split_prompt args).0 ++ prompt_list (split_prompt args).1 ≡ args
unfolding split_prompt
split_prompt-append args = split_after-append false args

-- ===== src/Switch.antt =====
-- auto_router/switch.py: which mode answers a prompt, and the arguments of the session that is
-- started for it. The job router is an argument; an exception of it is `none`. The texts of
-- `reason` are constructors. The hook's files and processes are not modelled.
pub mod Sessions
pub mod Apart
pub mod Target
use auto_model_router.Prelude.{
  ℕ, ◌+◌, String, Bool, true, false, not, ◌&&◌, ◌||◌, Option, none, some, List, [], ◌∷◌, ◌++◌, leb,
  nat_beq, str_eq, if◌then◌else◌, is_some, any, first,
}
use auto_model_router.Prelude.Float.{Float, decimal, ◌⊕◌, ◌⊖◌, ◌≤?◌}
use auto_model_router.Prelude.Text.{codes, text_after, is_space, lstrip}
use auto_model_router.Catalog.{ModelInfo, truthy, equals}
use auto_model_router.Policies.State.{Result, ok, raises, type_error}

pub data Mode : Type 0 where
  cheap plan : Mode

-- `s.lower()` as far as it can spell a prefix below, which holds none of the letters that other
-- characters than the capitals are lowered to.
abbrev pub lower_code : ℕ → ℕ
lower_code c = if leb b'A' c && leb c b'Z' then c + 32 else c

-- What follows a prefix of the lowered text, if it starts with it.
unfoldable pub after_prefix : List ℕ → List ℕ → Option (List ℕ)
after_prefix [] text = some text
after_prefix (p ∷ ps) [] = none
after_prefix (p ∷ ps) (c ∷ cs) =
    let rest = after_prefix ps cs in if nat_beq (lower_code c) p then rest else none

-- The prefix is a word of its own: the text ends after it, or a space follows.
abbrev pub at_word_end : Option (List ℕ) → Option (List ℕ)
at_word_end none = none
at_word_end (some []) = some []
at_word_end (some (c ∷ cs)) = if is_space c then some (c ∷ cs) else none

abbrev pub force_prefixes : List (List ℕ × Mode)
force_prefixes = (codes "~plan", plan) ∷ (codes "~cheap", cheap) ∷ []

abbrev pub or_forced : Option (List ℕ) → Mode → List ℕ × Option Mode → List ℕ × Option Mode
or_forced none mode rest = rest
or_forced (some text) mode rest = (lstrip text, some mode)

unfoldable pub force_loop : List (List ℕ × Mode) → List ℕ → List ℕ × Option Mode
force_loop [] prompt = (prompt, none)
force_loop ((prefix, mode) ∷ more) prompt =
    or_forced (at_word_end (after_prefix prefix (lstrip prompt))) mode (force_loop more prompt)

unfoldable pub strip_force : List ℕ → List ℕ × Option Mode
unfolding force_loop
strip_force prompt = force_loop force_prefixes prompt

-- A row of `explanation.to_dict()["candidates"]`, where an expected cost may be `None`.
pub record JobRow (F : Type 0) : Type 0 where
  pub model : String
  pub subscription : Option String
  pub rejected : Option String
  pub expected : Option F
  pub p_success : F

pub record JobRoute (F : Type 0) : Type 0 where
  pub model : ModelInfo F
  pub difficulty : Option F
  pub rows : Option (List (JobRow F))

pub data SwitchReason : Type 0 where
  forced_with unavailable : Mode → SwitchReason
  no_configuration not_clearly_easy as_routed : SwitchReason
  as_good_as_plan : String → SwitchReason

pub record Decision (F : Type 0) : Type 0 where
  pub target : Mode
  pub model : String
  pub reason : SwitchReason
  pub difficulty : Option F
  pub forced : Bool
  pub prompt : List ℕ
  pub plan_model : Option String

module _ {F : Type 0} ⦃fl : Float F⦄ where
  abbrev pub is_close : JobRow F → F → F → JobRow F → Bool
  is_close chosen chosen_usd row_usd row =
      row_usd ≤? chosen_usd ⊕ decimal 1 2 && (chosen.p_success ⊖ decimal 2 2) ≤? row.p_success

  -- One row of the loop that is neither of a plan nor rejected.
  abbrev pub compared :
      JobRow F → JobRow F → Option F → Option F → Result (Option String) → Result (Option String)
  compared chosen row none chosen_usd rest = raises type_error
  compared chosen row (some usd) none rest = raises type_error
  compared chosen row (some usd) (some chosen_usd) rest =
      if is_close chosen chosen_usd usd row then ok (some row.model) else rest

  abbrev pub is_skipped : JobRow F → Bool
  is_skipped row = truthy row.subscription || truthy row.rejected

  unfoldable pub first_close : JobRow F → List (JobRow F) → Result (Option String)
  first_close chosen [] = ok none
  first_close chosen (row ∷ rows) =
      let rest = first_close chosen rows in
      if is_skipped row then rest else compared chosen row row.expected chosen.expected rest

  abbrev pub close_to : Option (JobRow F) → List (JobRow F) → Result (Option String)
  close_to none rows = ok none
  close_to (some chosen) rows = first_close chosen rows

  abbrev pub close_in : String → Option (List (JobRow F)) → Result (Option String)
  close_in name none = ok none
  close_in name (some rows) = close_to (first (λ r. str_eq r.model name) rows) rows

  unfoldable pub cheap_equivalent : JobRoute F → Result (Option String)
  cheap_equivalent route = close_in route.model.name route.rows

  -- `switch_candidate`
  unfoldable pub switch_candidate : ModelInfo F → Bool
  switch_candidate m =
      if truthy m.subscription then equals m.subscription "claude" else not m.launch_only

  abbrev pub is_hard : F → Option F → Bool
  is_hard threshold none = false
  is_hard threshold (some difficulty) = threshold ≤? difficulty

  abbrev pub settled : Mode → String → SwitchReason → Option F → List ℕ → Option String → Decision F
  settled mode model why difficulty text plan_model = record {
    target = mode;
    model = model;
    reason = why;
    difficulty = difficulty;
    forced = false;
    prompt = text;
    plan_model = plan_model;
  }

  abbrev pub forced_into : Decision F → Decision F
  forced_into d = record d { forced = true }

  abbrev pub or_alternative : JobRoute F → List ℕ → Option String → Decision F
  or_alternative route text none =
      settled plan route.model.name as_routed route.difficulty text (some route.model.upstream_id)
  or_alternative route text (some name) =
      settled cheap name (as_good_as_plan name) route.difficulty text none

  -- The target is cheap, with the hysteresis of a session that is on the plan.
  abbrev pub leave_plan : Mode → F → JobRoute F → List ℕ → Decision F
  leave_plan cheap threshold route text =
      settled cheap route.model.name as_routed route.difficulty text none
  leave_plan plan threshold route text =
      if is_hard threshold route.difficulty
      then settled plan route.model.name not_clearly_easy route.difficulty text none
      else settled cheap route.model.name as_routed route.difficulty text none

  abbrev pub by_equivalent : JobRoute F → List ℕ → Result (Option String) → Result (Decision F)
  by_equivalent route text (raises e) = raises e
  by_equivalent route text (ok alternative) = ok (or_alternative route text alternative)

  abbrev pub by_route : Mode → F → List ℕ → Option (JobRoute F) → Result (Decision F)
  by_route current threshold text none =
      ok (settled current "(error)" (unavailable current) none text none)
  by_route current threshold text (some route) =
      if equals route.model.subscription "claude"
      then by_equivalent route text (cheap_equivalent route)
      else ok (leave_plan current threshold route text)

  abbrev pub by_router :
      Mode → F → List ℕ → Option (List ℕ → Option (JobRoute F)) → Result (Decision F)
  by_router current threshold text none =
      ok (settled current "(none)" no_configuration none text none)
  by_router current threshold text (some route_job) =
      by_route current threshold text (route_job text)

  abbrev pub by_force :
      Mode → Option (List ℕ → Option (JobRoute F)) → F → List ℕ × Option Mode → Result (Decision F)
  by_force current router threshold (text, none) = by_router current threshold text router
  by_force current router threshold (text, some mode) =
      ok (forced_into (settled mode "(forced)" (forced_with mode) none text none))

  -- `decide`, with the threshold that `sticky` or the environment gives.
  unfoldable pub decide :
      List ℕ → Mode → Option (List ℕ → Option (JobRoute F)) → F → Result (Decision F)
  decide prompt current router threshold = by_force current router threshold (strip_force prompt)

-- The options that `without_resume` drops with their value, and those it drops alone.
abbrev pub is_resume : String → Bool
is_resume arg = str_eq arg "--resume" || str_eq arg "-r"

abbrev pub is_continue : String → Bool
is_continue arg =
    str_eq arg "--continue"
    || str_eq arg "-c"
    || is_some (text_after (codes "--resume=") (codes arg))

-- The loop, `skip` being whether the value of an option follows.
unfoldable pub drop_resume : Bool → List String → List String
drop_resume skip [] = []
drop_resume true (arg ∷ args) = drop_resume false args
drop_resume false (arg ∷ args) =
    let value_dropped = drop_resume true args in
    let rest = drop_resume false args in
    if is_resume arg then value_dropped else if is_continue arg then rest else arg ∷ rest

unfoldable pub without_resume : List String → List String
unfolding drop_resume
without_resume = drop_resume false

abbrev pub is_option : String → Bool
is_option arg = is_some (text_after (codes "-") (codes arg))

-- `split_prompt`, from the first argument on: whether the one before it is an option.
unfoldable pub split_after : Bool → List String → List String × Option String
split_after option [] = ([], none)
split_after option (arg ∷ []) =
    if not (is_option arg) && not option then ([], some arg) else (arg ∷ [], none)
split_after option (arg ∷ (next ∷ args)) =
    let (options, prompt) = split_after (is_option arg) (next ∷ args) in (arg ∷ options, prompt)

unfoldable pub split_prompt : List String → List String × Option String
unfolding split_after
split_prompt = split_after false

abbrev pub model_args : Mode → Option String → List String → List String
model_args cheap plan_model user_args = []
model_args plan none user_args = []
model_args plan (some model) user_args =
    if truthy (some model) && not (any (λ a. str_eq a "--model") user_args)
    then "--model" ∷ model ∷ []
    else []

abbrev pub prompt_args : Option String → List String
prompt_args none = []
prompt_args (some prompt) = if truthy (some prompt) then prompt ∷ [] else []

unfoldable pub claude_argv :
    String
    → String
    → Mode
    → List String
    → Option String
    → Option (String × String)
    → Option String
    → List String
claude_argv claude settings mode user_args plan_model none prompt =
    (claude ∷ "--settings" ∷ settings ∷ [])
    ++ (model_args mode plan_model user_args ++ (user_args ++ prompt_args prompt))
claude_argv claude settings mode user_args plan_model (some (session, text)) prompt =
    (claude ∷ "--settings" ∷ settings ∷ [])
    ++ (model_args mode plan_model user_args
        ++ (without_resume user_args ++ ("--resume" ∷ session ∷ text ∷ [])))

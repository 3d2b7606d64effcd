-- ===== src/Translate/Stream/Blocks.antt =====
-- The blocks that the variables of `translate_stream` of auto_router/stream_translate.py stand for.
use auto_model_router.Prelude.{
  ℕ, ◌+◌, ◌≤◌, ◌<◌, ◌≡◌, ◌≢◌, inl, inr, refl, true, false, ◌&&◌, Option, none, some, [], ◌∷◌, arith,
  nat_beq, nat_beq_iff, nat_eq, if◌then◌else◌, Bool-cases, subst,
}
use auto_model_router.Prelude.Dict
use auto_model_router.Prelude.Dict.{Dict}
use auto_model_router.Translate.Protocol.{mark, Status, unused, opened, of_text, of_tool}
use auto_model_router.Translate.Stream.{Tool}

abbrev pub Tools : Type 0
Tools = Dict ℕ Tool

-- What the client thinks of a block that the accumulators stand for.
abbrev pub tool_status : Tools → ℕ → Status
tool_status [] j = unused
tool_status ((key, acc) ∷ tools) j =
    if acc.started && nat_beq acc.block_index j then opened of_tool else tool_status tools j

abbrev pub text_status : Option ℕ → Tools → ℕ → Status
text_status none tools j = tool_status tools j
text_status (some i) tools j = if nat_beq i j then opened of_text else tool_status tools j

-- No accumulator has this block, and each has one of its own below the next index.
abbrev pub Apart : ℕ → Tools → Type 0
Apart i [] = Unit
Apart i ((key, acc) ∷ tools) = (acc.block_index ≢ i) × Apart i tools

abbrev pub Distinct : ℕ → Tools → Type 0
Distinct next [] = Unit
Distinct next ((key, acc) ∷ tools) =
    (acc.block_index < next) × Apart acc.block_index tools × Distinct next tools

pub Apart-status : (i : ℕ) (tools : Tools) → Apart i tools → tool_status tools i ≡ unused
Apart-status i [] a = refl
Apart-status i ((key, acc) ∷ tools) a =
    ground (arith, Apart-status i tools, nat_beq_iff acc.block_index i)

pub Distinct-Apart : (next i : ℕ) (tools : Tools) → next ≤ i → Distinct next tools → Apart i tools
Distinct-Apart next i [] le d = tt
Distinct-Apart next i ((key, acc) ∷ tools) le d = (ground arith, Distinct-Apart next i tools le d.2)

pub Distinct-suc : (next : ℕ) (tools : Tools) → Distinct next tools → Distinct (next + 1) tools
Distinct-suc next [] d = tt
Distinct-suc next ((key, acc) ∷ tools) d = (omega (arith, d.0), d.1, Distinct-suc next tools d.2)

-- A write under a key, to an accumulator of the same block or of a new one, keeps blocks apart.
Apart-insert :
    (i key : ℕ) (acc : Tool) (tools : Tools)
    → acc.block_index ≢ i
    → Apart i tools
    → Apart i (Dict.insert key acc tools)
unfolding Dict.insert
Apart-insert i key acc [] ne a = (ne, tt)
Apart-insert i key acc ((k, other) ∷ tools) ne a = elim (Bool-cases (nat_beq k key)) [
  | inl e ↦ rw e (ne, a.1)
  | inr e ↦ rw e (a.0, Apart-insert i key acc tools ne a.1)
]

Apart-insert_same :
    (i key : ℕ) (acc old : Tool) (tools : Tools)
    → Dict.get key tools ≡ some old
    → old.block_index ≡ acc.block_index
    → Apart i tools
    → acc.block_index ≢ i
unfolding Dict.get
Apart-insert_same i key acc old [] g e a = cc
Apart-insert_same i key acc old ((k, other) ∷ tools) g e a =
    ground (arith, Apart-insert_same i key acc old tools)

some-ne-none : {A : Type 0} {a : A} → some a ≡ none → ⊥
some-ne-none h = cc

pub Distinct-new :
    (next key : ℕ) (acc : Tool) (tools : Tools)
    → acc.block_index ≡ next
    → Dict.get key tools ≡ none
    → Distinct next tools
    → Distinct (next + 1) (Dict.insert key acc tools)
unfolding Dict.insert Dict.get
Distinct-new next key acc [] e g d = (omega (arith, e), tt, tt)
Distinct-new next key acc ((k, other) ∷ tools) e g d = elim (Bool-cases (nat_beq k key)) [
  | inl b ↦ absurd (some-ne-none (rw b at g))
  | inr b ↦ rw b (
    omega (arith, d.0),
    Apart-insert other.block_index key acc tools (omega (arith, d.0, e)) d.1,
    Distinct-new next key acc tools e (rw b at g) d.2,
  )
]

pub Distinct-same :
    (next key : ℕ) (acc old : Tool) (tools : Tools)
    → Dict.get key tools ≡ some old
    → old.block_index ≡ acc.block_index
    → Distinct next tools
    → Distinct next (Dict.insert key acc tools)
unfolding Dict.insert Dict.get
Distinct-same next key acc old [] g e d = cc
Distinct-same next key acc old ((k, other) ∷ tools) g e d = elim (Bool-cases (nat_beq k key)) [
  | inl b ↦
      let o : other.block_index ≡ acc.block_index = ground arith in
      rw b (ground arith, subst (λ i. Apart i tools) o d.1, d.2)
  | inr b ↦ rw b (
    d.0,
    Apart-insert other.block_index key acc tools
        (Apart-insert_same other.block_index key acc old tools (rw b at g) e d.1) d.1,
    Distinct-same next key acc old tools (rw b at g) e d.2,
  )
]

-- An accumulator that is not started stands for no block.
pub status-insert_new :
    (j key : ℕ) (acc : Tool) (tools : Tools)
    → acc.started ≡ false
    → Dict.get key tools ≡ none
    → tool_status (Dict.insert key acc tools) j ≡ tool_status tools j
unfolding Dict.insert Dict.get
status-insert_new j key acc [] f g = ground arith
status-insert_new j key acc ((k, other) ∷ tools) f g =
    ground (arith, status-insert_new j key acc tools)

pub status-insert_same :
    (j key : ℕ) (acc old : Tool) (tools : Tools)
    → Dict.get key tools ≡ some old
    → old.block_index ≡ acc.block_index
    → old.started ≡ acc.started
    → tool_status (Dict.insert key acc tools) j ≡ tool_status tools j
unfolding Dict.insert Dict.get
status-insert_same j key acc old [] g e f = cc
status-insert_same j key acc old ((k, other) ∷ tools) g e f =
    ground (arith, status-insert_same j key acc old tools)

pub status-insert_started :
    (j key : ℕ) (acc old : Tool) (tools : Tools)
    → Dict.get key tools ≡ some old
    → old.block_index ≡ acc.block_index
    → old.started ≡ false
    → acc.started ≡ true
    → tool_status (Dict.insert key acc tools) j
      ≡ mark acc.block_index (opened of_tool) (tool_status tools) j
unfolding Dict.insert Dict.get
status-insert_started j key acc old [] g e f t = cc
status-insert_started j key acc old ((k, other) ∷ tools) g e f t =
    ground (arith, status-insert_started j key acc old tools)

pub status-get_idle :
    (next key : ℕ) (old : Tool) (tools : Tools)
    → Dict.get key tools ≡ some old
    → old.started ≡ false
    → Distinct next tools
    → tool_status tools old.block_index ≡ unused
unfolding Dict.get
status-get_idle next key old [] g f d = cc
status-get_idle next key old ((k, other) ∷ tools) g f d = ground (
  arith,
  status-get_idle next key old tools,
  Apart-status other.block_index tools,
  Apart-insert_same other.block_index key old old tools,
  nat_beq_iff other.block_index old.block_index,
)

pub status-get_started :
    (next key : ℕ) (old : Tool) (tools : Tools)
    → Dict.get key tools ≡ some old
    → old.started ≡ true
    → Distinct next tools
    → tool_status tools old.block_index ≡ opened of_tool
unfolding Dict.get
status-get_started next key old [] g f d = cc
status-get_started next key old ((k, other) ∷ tools) g f d = ground (
  arith,
  status-get_started next key old tools,
  Apart-insert_same other.block_index key old old tools,
  nat_beq_iff other.block_index old.block_index,
)

-- The text block has an index of its own.
abbrev pub TextApart : ℕ → Option ℕ → Tools → Type 0
TextApart next none tools = Unit
TextApart next (some i) tools = (i < next) × Apart i tools

pub TextApart-new :
    (next key : ℕ) (text_at : Option ℕ) (acc : Tool) (tools : Tools)
    → acc.block_index ≡ next
    → TextApart next text_at tools
    → TextApart (next + 1) text_at (Dict.insert key acc tools)
TextApart-new next key none acc tools e a = tt
TextApart-new next key (some i) acc tools e a =
    (omega (arith, a.0), Apart-insert i key acc tools (omega (arith, a.0, e)) a.1)

pub TextApart-same :
    (next key : ℕ) (text_at : Option ℕ) (acc old : Tool) (tools : Tools)
    → Dict.get key tools ≡ some old
    → old.block_index ≡ acc.block_index
    → TextApart next text_at tools
    → TextApart next text_at (Dict.insert key acc tools)
TextApart-same next key none acc old tools g e a = tt
TextApart-same next key (some i) acc old tools g e a =
    (a.0, Apart-insert i key acc tools (Apart-insert_same i key acc old tools g e a.1) a.1)

-- The text block is none of a call's.
pub TextApart-get :
    (next key : ℕ) (text_at : Option ℕ) (old : Tool) (tools : Tools)
    → Dict.get key tools ≡ some old
    → TextApart next text_at tools
    → text_status text_at tools old.block_index ≡ tool_status tools old.block_index
TextApart-get next key none old tools g a = refl
TextApart-get next key (some i) old tools g a =
    ground (arith, Apart-insert_same i key old old tools g refl a.1, nat_beq_iff i old.block_index)

pub text-same :
    (text_at : Option ℕ) (a b : Tools) (j : ℕ)
    → tool_status a j ≡ tool_status b j
    → text_status text_at a j ≡ text_status text_at b j
text-same none a b j e = e
text-same (some i) a b j e = ground arith

pub text-mark :
    (next key : ℕ) (text_at : Option ℕ) (old : Tool) (a b : Tools) (j : ℕ)
    → Dict.get key b ≡ some old
    → TextApart next text_at b
    → tool_status a j ≡ mark old.block_index (opened of_tool) (tool_status b) j
    → text_status text_at a j ≡ mark old.block_index (opened of_tool) (text_status text_at b) j
text-mark next key none old a b j g apart e = e
text-mark next key (some i) old a b j g apart e = ground (
  arith,
  Apart-insert_same i key old old b g refl apart.1,
  nat_beq_iff i old.block_index,
  nat_beq_iff i j,
  nat_beq_iff old.block_index j,
)

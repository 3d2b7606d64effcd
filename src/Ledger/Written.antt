-- ===== src/Ledger/Written.antt =====
-- The counters of auto_router/ledger.py against the lines that were written.
use mathlib.Core.List.{append-nil, append_assoc}
use auto_model_router.Prelude.{
  ℕ, not, nat_beq, nat_beq_iff, if◌then◌else◌, ◌+◌, ◌≡◌, refl, sym, ap, ◌∙◌, String, Bool, true,
  false, Option, none, some, List, [], ◌∷◌, ◌++◌, length, arith, length-snoc,
}
use auto_model_router.Ledger.{RoutingLedger, new_ledger, warn_once, try_line, append_at, append}

-- Attempts: a line, and whether the file takes it
abbrev pub write_all : List (String × Bool) → RoutingLedger → RoutingLedger
write_all [] l = l
write_all ((line, takes) ∷ ws) l = write_all ws (append takes line l).0

abbrev pub taken : List (String × Bool) → List String
taken [] = []
taken ((line, true) ∷ ws) = line ∷ taken ws
taken ((line, false) ∷ ws) = taken ws

-- One warning as soon as a line failed
abbrev pub warnings_due : ℕ → ℕ
warnings_due failed = if nat_beq failed 0 then 0 else 1

pub record IsSound (l : RoutingLedger) : Type 0 where
  pub counted : l.written ≡ length l.file
  pub warned_of : l.warned ≡ not (nat_beq l.failed 0)
  pub warned_once : l.warnings ≡ warnings_due l.failed

warn_once-IsSound :
    (warned : Bool) (l : RoutingLedger)
    → IsSound l
    → warned ≡ l.warned
    → IsSound (warn_once warned (record l { failed = l.failed + 1 }))
warn_once-IsSound true l s e = record {
  counted = s.counted;
  warned_of = ground (arith, s.warned_of, nat_beq_iff l.failed 0, nat_beq_iff (l.failed + 1) 0);
  warned_once =
      ground
        (arith, s.warned_of, s.warned_once, nat_beq_iff l.failed 0, nat_beq_iff (l.failed + 1) 0);
}
warn_once-IsSound false l s e = record {
  counted = s.counted;
  warned_of = ground (arith, s.warned_of, nat_beq_iff l.failed 0, nat_beq_iff (l.failed + 1) 0);
  warned_once =
      ground
        (arith, s.warned_of, s.warned_once, nat_beq_iff l.failed 0, nat_beq_iff (l.failed + 1) 0);
}

try_line-IsSound :
    (takes : Bool) (line : String) (l : RoutingLedger)
    → IsSound l
    → IsSound (try_line takes line l).0
try_line-IsSound true line l s = record {
  counted = ap (λ n. n + 1) s.counted ∙ omega (arith, length-snoc l.file line);
  warned_of = s.warned_of;
  warned_once = s.warned_once;
}
try_line-IsSound false line l s = warn_once-IsSound l.warned l s refl

append_at-IsSound :
    (path : Option String) (takes : Bool) (line : String) (l : RoutingLedger)
    → IsSound l
    → IsSound (append_at path takes line l).0
append_at-IsSound none takes line l s = s
append_at-IsSound (some path) takes line l s = try_line-IsSound takes line l s

write_all-IsSound :
    (ws : List (String × Bool)) (l : RoutingLedger) → IsSound l → IsSound (write_all ws l)
unfolding append
write_all-IsSound [] l s = s
write_all-IsSound ((line, takes) ∷ ws) l s =
    write_all-IsSound ws (append takes line l).0 (append_at-IsSound l.path takes line l s)

-- What one attempt does to an enabled ledger
record Tried (line : String) (takes : Bool) (l m : RoutingLedger) : Type 0 where
  same_path : m.path ≡ l.path
  more_file : m.file ≡ l.file ++ taken ((line, takes) ∷ [])
  more_tries : m.written + m.failed ≡ l.written + l.failed + 1

warn_once-Tried :
    (warned : Bool) (line : String) (l : RoutingLedger)
    → Tried line false l (warn_once warned (record l { failed = l.failed + 1 }))
warn_once-Tried true line l = record {
  same_path = refl;
  more_file = sym (append-nil l.file);
  more_tries = omega arith;
}
warn_once-Tried false line l = record {
  same_path = refl;
  more_file = sym (append-nil l.file);
  more_tries = omega arith;
}

append_at-Tried :
    (path : Option String) {name : String} (takes : Bool) (line : String) (l : RoutingLedger)
    → path ≡ some name
    → Tried line takes l (append_at path takes line l).0
append_at-Tried none takes line l e = cc
append_at-Tried (some path) true line l e = record {
  same_path = refl;
  more_file = refl;
  more_tries = omega arith;
}
append_at-Tried (some path) false line l e = warn_once-Tried l.warned line l

taken-cons :
    (line : String) (takes : Bool) (ws : List (String × Bool))
    → taken ((line, takes) ∷ []) ++ taken ws ≡ taken ((line, takes) ∷ ws)
taken-cons line true ws = refl
taken-cons line false ws = refl

write_all-file :
    (ws : List (String × Bool)) (l : RoutingLedger) (name : String)
    → l.path ≡ some name
    → ((write_all ws l).file ≡ l.file ++ taken ws)
      × ((write_all ws l).written + (write_all ws l).failed ≡ l.written + l.failed + length ws)
unfolding append
write_all-file [] l name e = (sym (append-nil l.file), omega arith)
write_all-file ((line, takes) ∷ ws) l name e =
    let m = (append takes line l).0 in
    let t = append_at-Tried l.path takes line l e in
    let (f, n) = write_all-file ws m name (t.same_path ∙ e) in
    (
      f
          ∙ ap (λ fs. fs ++ taken ws) t.more_file
          ∙ append_assoc l.file (taken ((line, takes) ∷ [])) (taken ws)
          ∙ ap (λ fs. l.file ++ fs) (taken-cons line takes ws),
      n ∙ omega (arith, t.more_tries),
    )

-- A ledger with a path holds, after any attempts, exactly the lines that the file took, in order. It
-- counts each attempt once, as written or as failed, and it warns once if any attempt failed.
pub write_all-lines :
    (path : String) (ws : List (String × Bool))
    → let l = write_all ws (new_ledger (some path)) in
      (l.file ≡ taken ws)
      × (l.written ≡ length (taken ws))
      × (l.written + l.failed ≡ length ws)
      × (l.warnings ≡ warnings_due l.failed)
write_all-lines path ws =
    let (f, n) = write_all-file ws (new_ledger (some path)) path refl in
    let s =
      write_all-IsSound ws (new_ledger (some path))
        (record { counted = refl; warned_of = refl; warned_once = refl }) in
    (f, s.counted ∙ ap length f, n ∙ omega arith, s.warned_once)

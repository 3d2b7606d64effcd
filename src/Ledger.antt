-- ===== src/Ledger.antt =====
-- auto_router/ledger.py: the lines that `_append` writes. Whether the file takes a line is an argument:
-- false stands for an OSError. `file` holds the lines of the file.
pub mod Written
use auto_model_router.Prelude.{
  ℕ, ◌+◌, String, Bool, true, false, not, Option, none, some, List, [], ◌∷◌, ◌++◌,
}

pub record RoutingLedger : Type 0 where
  pub path : Option String
  pub written : ℕ
  pub failed : ℕ
  pub warned : Bool
  pub file : List String
  -- how many warnings were logged
  pub warnings : ℕ

abbrev pub new_ledger : Option String → RoutingLedger
new_ledger path = record {
  path = path;
  written = 0;
  failed = 0;
  warned = false;
  file = [];
  warnings = 0;
}

abbrev pub warn_once : Bool → RoutingLedger → RoutingLedger
warn_once true l = l
warn_once false l = record l { warned = true; warnings = l.warnings + 1 }

abbrev pub try_line : Bool → String → RoutingLedger → RoutingLedger × Bool
try_line true line l = (record l { file = l.file ++ (line ∷ []); written = l.written + 1 }, true)
try_line false line l = (warn_once l.warned (record l { failed = l.failed + 1 }), false)

abbrev pub append_at : Option String → Bool → String → RoutingLedger → RoutingLedger × Bool
append_at none takes line l = (l, false)
append_at (some path) takes line l = try_line takes line l

-- `_append`
unfoldable pub append : Bool → String → RoutingLedger → RoutingLedger × Bool
append takes line l = append_at l.path takes line l

-- ===== src/Coverage/Main/Exit.antt =====
-- The exit code of tools/coverage/src/main.rs.
use rust_microservices_archi.Prelude.{◌≡◌, ◌↔◌, Bool, Option, some, List}
use rust_microservices_archi.Coverage.Types.{ExitCode, success}
use rust_microservices_archi.Coverage.Commands.{Action}

abbrev Run : Type 0
Run = Option (List Action × ExitCode)

-- A run succeeds exactly when this holds.
abbrev Ends : Run → Type 0 → Type 0
Ends o P = (log : List Action) × (code : ExitCode) × (o ≡ some (log, code)) × ((code ≡ success) ↔ P)

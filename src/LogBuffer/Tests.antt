-- ===== src/LogBuffer/Tests.antt =====
-- A short log.
use evoclaw.Base.{◌≡◌, refl, String, List, [], ◌∷◌, string_discrete}
use evoclaw.LogBuffer.{LogRecord, init, last, emit, newer_than, of_level, get_logs, get_error_count}
use evoclaw.LogBuffer.Ring.{emit_all, numbered}
use evoclaw.LogBuffer.Polls.{get_logs-polls}

program : Unit {0}
unfolding string_discrete last emit newer_than of_level get_logs get_error_count emit_all numbered
program = tt

abbrev line : String → LogRecord
line level = record { time = ""; level = level; name = "host"; msg = "m" }

abbrev log : List LogRecord
log = line "INFO" ∷ line "ERROR" ∷ line "INFO" ∷ []

polled :
    get_logs (λ s. s) (emit_all init log) 1 "INFO" 10 ≡ record { idx = 3; entry = line "INFO" } ∷ []
unfolding program
polled = refl

errors : get_error_count (emit_all init log).buffer ≡ 1
unfolding program
errors = refl

get_logs-polls_example :
    get_logs (λ s. s) (emit_all init log) 1 "" 1 ≡ record { idx = 3; entry = line "INFO" } ∷ []
unfolding program
get_logs-polls_example = get_logs-polls log (λ s. s) 1 1

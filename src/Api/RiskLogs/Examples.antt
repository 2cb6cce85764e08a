-- ===== src/Api/RiskLogs/Examples.antt =====
-- Pages of three logs.
use xianyu_manager.Api.RiskLogs.Pages.{first_pages, first_pages-all}
use xianyu_manager.Api.RiskLogs.{
  RiskLog, legacy_list_risk_logs, limit_offset, newest_first, risk_logs_payload, wanted, place_log,
}
use xianyu_manager.Api.{answered}
use xianyu_manager.Prelude.{List, [], none, refl, some, ℕ, ◌∷◌, ◌≡◌, arith}

abbrev log : ℕ → RiskLog
log n = record { id = n; account_id = "anna"; event_type = "slider"; details = "" }

abbrev three : List RiskLog
three = log 1 ∷ log 2 ∷ log 3 ∷ []

first_pages-all_example :
    first_pages (some "anna") 2 2 three ≡ newest_first (wanted (some "anna") three)
unfolding risk_logs_payload wanted
first_pages-all_example = first_pages-all (some "anna") 2 2 three (omega arith)

-- The answer to the offset 1 starts with the newest log, which is before this offset.
legacy_page :
    legacy_list_risk_logs none 2 1 three
    ≡ answered (record { logs = log 3 ∷ log 2 ∷ []; total = 3; limit = 2; offset = 1 })
unfolding legacy_list_risk_logs risk_logs_payload wanted newest_first place_log limit_offset
legacy_page = refl

pages_of_three :
    ((risk_logs_payload (some "") 1 2 three).logs ≡ log 3 ∷ log 2 ∷ [])
    × ((risk_logs_payload none 2 2 three).logs ≡ log 1 ∷ [])
    × ((risk_logs_payload (some "b") 1 2 three).logs ≡ [])
unfolding risk_logs_payload wanted newest_first place_log limit_offset
pages_of_three = (refl, refl, refl)

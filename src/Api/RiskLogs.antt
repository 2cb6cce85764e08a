-- ===== src/Api/RiskLogs.antt =====
-- app/api/routers/runtime.py: the requests on the logs of risks, by pages. The ids of the rows grow in the
-- order of the table.
pub mod Pages
mod Examples
use xianyu_manager.Api.Table.{delete, find}
use xianyu_manager.Api.{Answer, answered, not_found, refused, unprocessable}
use xianyu_manager.Dict.{is_some}
use xianyu_manager.Prelude.{
  Bool, List, Option, String, [], false, if◌then◌else◌, leb, length, none, not, some, suc, true,
  zero, ℕ, ◌&&◌, ◌*◌, ◌+◌, ◌-◌, ◌/◌, ◌==◌, ◌∷◌, ◌==ℕ◌, ◌||◌,
}

pub record RiskLog : Type 0 where
  pub id : ℕ
  pub account_id : String
  pub event_type : String
  pub details : String

-- `ORDER BY id DESC`
unfoldable pub place_log : RiskLog → List RiskLog → List RiskLog
place_log r [] = r ∷ []
place_log r (t ∷ rows) =
    let rest = place_log r rows in if leb t.id r.id then r ∷ t ∷ rows else t ∷ rest

unfoldable pub newest_first : List RiskLog → List RiskLog
unfolding place_log
newest_first [] = []
newest_first (r ∷ rows) = place_log r (newest_first rows)

-- `WHERE account_id = ?`, if there is a filter.
abbrev pub is_wanted : Option String → RiskLog → Bool
is_wanted none r = true
is_wanted (some account_id) r = account_id == "" || r.account_id == account_id

unfoldable pub wanted : Option String → List RiskLog → List RiskLog
wanted account_id [] = []
wanted account_id (r ∷ rows) =
    let rest = wanted account_id rows in if is_wanted account_id r then r ∷ rest else rest

-- `LIMIT ? OFFSET ?`
unfoldable pub limit_offset {ℓ} : {A : Type ℓ} → ℕ → ℕ → List A → List A
limit_offset limit offset [] = []
limit_offset zero zero (x ∷ xs) = []
limit_offset (suc limit) zero (x ∷ xs) = x ∷ limit_offset limit zero xs
limit_offset limit (suc offset) (x ∷ xs) = limit_offset limit offset xs

pub record RiskLogPage : Type 0 where
  pub logs : List RiskLog
  pub total : ℕ
  pub page : ℕ
  pub page_size : ℕ

unfoldable pub risk_logs_payload : Option String → ℕ → ℕ → List RiskLog → RiskLogPage
unfolding limit_offset newest_first wanted
risk_logs_payload account_id page page_size rows = record {
  logs = limit_offset page_size ((page - 1) * page_size) (newest_first (wanted account_id rows));
  total = length (wanted account_id rows);
  page = page;
  page_size = page_size;
}

unfoldable pub list_risk_logs : Option String → ℕ → ℕ → List RiskLog → Answer RiskLogPage
unfolding risk_logs_payload
list_risk_logs account_id page page_size rows =
    if page ==ℕ 0 || page_size ==ℕ 0
    then refused (unprocessable "Input should be greater than or equal to 1")
    else if leb page_size 500
    then answered (risk_logs_payload account_id page page_size rows)
    else refused (unprocessable "Input should be less than or equal to 500")

-- The number of the deleted rows, and the table.
unfoldable pub clear_risk_logs : List RiskLog → ℕ × List RiskLog
clear_risk_logs rows = (length rows, [])

-- The answer of the old interface, with `data` as `logs`, and without `success`, which is always true.
pub record LegacyRiskLogs : Type 0 where
  pub logs : List RiskLog
  pub total : ℕ
  pub limit : ℕ
  pub offset : ℕ

unfoldable pub legacy_list_risk_logs : Option String → ℕ → ℕ → List RiskLog → Answer LegacyRiskLogs
unfolding risk_logs_payload
legacy_list_risk_logs cookie_id limit offset rows =
    let payload = risk_logs_payload cookie_id (offset / limit + 1) limit rows in
    if limit ==ℕ 0
    then refused (unprocessable "Input should be greater than or equal to 1")
    else if leb limit 500
    then answered
        (record { logs = payload.logs; total = payload.total; limit = limit; offset = offset })
    else refused (unprocessable "Input should be less than or equal to 500")

unfoldable pub legacy_delete_risk_log : ℕ → List RiskLog → Answer {0} Unit × List RiskLog
unfolding delete find
legacy_delete_risk_log log_id rows =
    if is_some (find (λ r. r.id) log_id rows)
    then (answered tt, delete (λ r. r.id) log_id rows)
    else (refused (not_found "Risk log not found"), rows)

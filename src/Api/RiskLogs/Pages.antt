-- ===== src/Api/RiskLogs/Pages.antt =====
-- app/api/routers/runtime.py: the pages of the logs of risks, one after the other.
use xianyu_manager.Api.RiskLogs.{
  RiskLog, limit_offset, newest_first, risk_logs_payload, wanted, place_log,
}
use xianyu_manager.Prelude.{
  List, Option, String, [], ap, arith, length, refl, suc, zero, ℕ, ◌*◌, ◌+◌, ◌++◌, ◌-◌, ◌∙◌, ◌∷◌,
  ◌≡◌, ◌≤◌, sym,
}

module _ {ℓ} {A : Type ℓ} where
  pub limit_offset-append :
      (a b : ℕ) (xs : List A)
      → limit_offset a 0 xs ++ limit_offset b a xs ≡ limit_offset (a + b) 0 xs
  unfolding limit_offset
  limit_offset-append zero b [] = refl
  limit_offset-append (suc a) b [] = refl
  limit_offset-append zero b (x ∷ xs) =
      let sum : b ≡ 0 + b = omega arith in ap (λ n. limit_offset n 0 (x ∷ xs)) sum
  limit_offset-append (suc a) b (x ∷ xs) =
      let sum : suc (a + b) ≡ suc a + b = omega arith in
      ap (λ ys. x ∷ ys) (limit_offset-append a b xs) ∙ ap (λ n. limit_offset n 0 (x ∷ xs)) sum

  pub limit_offset-all : (n : ℕ) (xs : List A) → length xs ≤ n → limit_offset n 0 xs ≡ xs
  unfolding limit_offset
  limit_offset-all n [] h = refl
  limit_offset-all zero (x ∷ xs) h = absurd (omega arith)
  limit_offset-all (suc n) (x ∷ xs) h = ap (λ ys. x ∷ ys) (limit_offset-all n xs (omega arith))

-- The logs of the first pages, one page after the other.
abbrev pub first_pages : Option String → ℕ → ℕ → List RiskLog → List RiskLog
first_pages account_id zero page_size rows = []
first_pages account_id (suc k) page_size rows =
    first_pages account_id k page_size rows
    ++ (risk_logs_payload account_id (suc k) page_size rows).logs

limit_offset-none {ℓ} : {A : Type ℓ} (xs : List A) → limit_offset 0 0 xs ≡ []
unfolding limit_offset
limit_offset-none [] = refl
limit_offset-none (x ∷ xs) = refl

first_pages-limit :
    (account_id : Option String) (k page_size : ℕ) (rows : List RiskLog)
    → first_pages account_id k page_size rows
      ≡ limit_offset (k * page_size) 0 (newest_first (wanted account_id rows))
unfolding risk_logs_payload
first_pages-limit account_id zero page_size rows =
    let none_left : 0 ≡ 0 * page_size = grind arith in
    sym (limit_offset-none (newest_first (wanted account_id rows)))
    ∙ ap (λ n. limit_offset n 0 (newest_first (wanted account_id rows))) none_left
first_pages-limit account_id (suc k) page_size rows =
    let all : List RiskLog = newest_first (wanted account_id rows) in
    let before : (suc k - 1) * page_size ≡ k * page_size = grind arith in
    let sum : k * page_size + page_size ≡ suc k * page_size = grind arith in
    ap (λ logs. logs ++ limit_offset page_size ((suc k - 1) * page_size) all)
      (first_pages-limit account_id k page_size rows)
    ∙ ap (λ n. limit_offset (k * page_size) 0 all ++ limit_offset page_size n all) before
    ∙ limit_offset-append (k * page_size) page_size all
    ∙ ap (λ n. limit_offset n 0 all) sum

length-place_log :
    (r : RiskLog) (rows : List RiskLog) → length (place_log r rows) ≡ suc (length rows)
unfolding place_log
length-place_log r [] = refl
length-place_log r (t ∷ rows) = ground (arith, length-place_log r rows)

length-newest_first : (rows : List RiskLog) → length (newest_first rows) ≡ length rows
unfolding newest_first
length-newest_first [] = refl
length-newest_first (r ∷ rows) =
    length-place_log r (newest_first rows) ∙ ap suc (length-newest_first rows)

-- The pages of the logs of risks, one after the other, are all logs that the filter wants, the newest
-- first, each in its place and none twice: as soon as there are as many pages as the total needs.
pub first_pages-all :
    (account_id : Option String) (k page_size : ℕ) (rows : List RiskLog)
    → (risk_logs_payload account_id k page_size rows).total ≤ k * page_size
    → first_pages account_id k page_size rows ≡ newest_first (wanted account_id rows)
unfolding risk_logs_payload
first_pages-all account_id k page_size rows h =
    first_pages-limit account_id k page_size rows
    ∙ limit_offset-all (k * page_size) (newest_first (wanted account_id rows))
        (ground (arith, length-newest_first (wanted account_id rows)))

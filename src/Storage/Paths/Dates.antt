-- ===== src/Storage/Paths/Dates.antt =====
-- `today_string` of src/storage.c: the order of its texts, by which src/storage_db.c finds the oldest day.
use native.Mathlib.Nat.{pow-suc}
use montion_sense.Prelude.{
  ℕ, zero, suc, ◌+◌, ◌-◌, ◌/◌, ◌%◌, ◌^◌, ◌<◌, ◌≤◌, ◌≡◌, ◌≢◌, refl, sym, ◌∙◌, ap, arith, Bool, true,
  false, ◌&&◌, some, List, [], ◌∷◌, ◌==◌, ltb, leb, if◌then◌else◌, length, take_all,
}
use montion_sense.Storage.Paths.{digits, today_string}
use montion_sense.Storage.Retention.Engine.{Engine, InState, sorts_before}
use montion_sense.Storage.Sql.{Stmt, Answer, row, oldest_date, active}
use montion_sense.Storage.MetaDb.{date_of, meta_db_oldest_retention_candidate}

-- The first day is the second one, or comes before it.
unfoldable pub not_after : ℕ → ℕ → ℕ → ℕ → ℕ → ℕ → Bool
not_after year month day year' month' day' =
    if year == year'
    then if month == month' then leb day day' else ltb month month'
    else ltb year year'

digits_none : (fuel : ℕ) (text : List ℕ) → digits fuel 0 0 text ≡ text
unfolding digits
digits_none zero text = refl
digits_none (suc fuel) text = refl

digits_more :
    (fuel w n : ℕ) (text : List ℕ)
    → digits (suc fuel) (suc w) n text ≡ digits fuel w (n / 10) ((b'0' + n % 10) ∷ text)
unfolding digits
digits_more fuel w n text =
    let e : suc w - 1 ≡ w = omega arith in
    let f : (suc w == 0 && n == 0) ≡ false = ground arith in rw f (rw e refl)

compare_last :
    (a b : ℕ) (r : Bool)
    → (if a / 10 == b / 10
        then (if b'0' + a % 10 == b'0' + b % 10 then r else ltb (b'0' + a % 10) (b'0' + b % 10))
        else ltb (a / 10) (b / 10))
      ≡ (if a == b then r else ltb a b)
compare_last a b r = ground arith

-- Numerals of the same width are ordered as their numbers, and what follows decides between equal ones.
sorts_before-digits :
    (w fuel a b : ℕ) (s t : List ℕ)
    → w ≤ fuel
    → a < 10 ^ w
    → b < 10 ^ w
    → sorts_before (digits fuel w a s) (digits fuel w b t)
      ≡ (if a == b then sorts_before s t else ltb a b)
unfolding sorts_before
sorts_before-digits zero fuel a b s t h i j =
    let e : a ≡ 0 = omega arith in
    let f : b ≡ 0 = omega arith in
    rw e (rw f (rw (digits_none fuel s) (rw (digits_none fuel t) refl)))
sorts_before-digits (suc w) zero a b s t h i j = absurd (omega arith)
sorts_before-digits (suc w) (suc fuel) a b s t h i j =
    let p = pow-suc 10 w in
    rw (digits_more fuel w a s) (
      rw (digits_more fuel w b t) (
        sorts_before-digits w fuel (a / 10) (b / 10) _ _ (omega arith) (omega (arith, p))
          (omega (arith, p))
        ∙ compare_last a b (sorts_before s t)))

length-digits_exact :
    (w fuel n : ℕ) (text : List ℕ)
    → w ≤ fuel
    → n < 10 ^ w
    → length (digits fuel w n text) ≡ w + length text
length-digits_exact zero fuel n text h i =
    let e : n ≡ 0 = omega arith in rw e (rw (digits_none fuel text) (omega arith))
length-digits_exact (suc w) zero n text h i = absurd (omega arith)
length-digits_exact (suc w) (suc fuel) n text h i =
    let p = pow-suc 10 w in
    rw (digits_more fuel w n text)
      (length-digits_exact w fuel (n / 10) _ (omega arith) (omega (arith, p)) ∙ omega arith)

pub length-today_string :
    (year month day : ℕ)
    → year < 10000
    → month < 100
    → day < 100
    → length (today_string year month day) ≡ 10
unfolding today_string
length-today_string year month day h i j =
    length-digits_exact 4 10 year _ (omega arith) (omega arith)
    ∙ ap (λ (n : ℕ). 4 + suc n)
        (length-digits_exact 2 10 month _ (omega arith) (omega arith)
          ∙ ap (λ (n : ℕ). 2 + suc n) (length-digits_exact 2 10 day _ (omega arith) (omega arith)))
    ∙ omega arith

pub sorts_before-today_string :
    (year month day year' month' day' : ℕ)
    → year < 10000
    → month < 100
    → day < 100
    → year' < 10000
    → month' < 100
    → day' < 100
    → sorts_before (today_string year month day) (today_string year' month' day')
      ≡ not_after year month day year' month' day'
unfolding today_string not_after sorts_before
sorts_before-today_string year month day year' month' day' h i j k l m =
    rw (sorts_before-digits 4 10 year year' _ _ (omega arith) (omega arith) (omega arith)) (
      rw (sorts_before-digits 2 10 month month' _ _ (omega arith) (omega arith) (omega arith)) (
        rw (sorts_before-digits 2 10 day day' [] [] (omega arith) (omega arith) (omega arith))
          (ground arith)))

module _ {Db : Type 0} (run : Stmt → Db → Answer × Db) (engine : Engine run) where
  -- The day that the database gives for the clean-up is found with its whole text, and comes before every
  -- other active day by the calendar. The years have four digits, and neither day is today.
  pub oldest_candidate-First :
      (db : Db) (today : List ℕ) (year month day year' month' day' : ℕ)
      → year < 10000
      → month < 100
      → day < 100
      → year' < 10000
      → month' < 100
      → day' < 100
      → (run (oldest_date today active) db).0 ≡ row (some (today_string year month day))
      → InState (engine.table db) active (today_string year' month' day')
      → today_string year' month' day' ≢ today
      → ((meta_db_oldest_retention_candidate run (some db) today).0
          ≡ some (today_string year month day))
        × (not_after year month day year' month' day' ≡ true)
  unfolding meta_db_oldest_retention_candidate date_of
  oldest_candidate-First db today year month day year' month' day' h i j k l m q s n =
      let w = length-today_string year month day h i j in
      let o = (engine.selects_oldest today active db _ q).oldest _ s n in
      (
        rw q (ap some (take_all 15 (today_string year month day) (omega arith))),
        sym (sorts_before-today_string year month day year' month' day' h i j k l m) ∙ o,
      )

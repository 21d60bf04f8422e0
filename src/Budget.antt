-- ===== src/Budget.antt =====
-- class Budget of noesis_harness/budget.py. `day` is the text that `_day` reads off the clock; the
-- check and the write of `spend` are two steps, since the lock is taken between them. `spend` reads
-- the day once for the check and once for the write: in the model of the whole call one reading
-- stands for both, so a call that runs over midnight is not a call of the model.
pub mod Cap
use noesis_harness_agent_mem.Prelude.{
  [], leb, eqb, if◌then◌else◌, is_some, ℕ, ◌+◌, ◌-◌, String, Bool, ◌&&◌, not, List, ◌∷◌, ◌++◌, ◌==◌,
}
use noesis_harness_agent_mem.Table.{fetchone}

pub record Spend : Type 0 where
  pub day : String
  pub key : String
  pub units : ℕ
  pub created_at : ℕ

pub record Budget : Type 0 where
  pub daily_cap : ℕ
  pub rows : List Spend

-- the dictionary that `spend` returns
pub data Reply : Type 0 where
  not_validated bad_units : Reply
  exhausted : ℕ → Reply
  idempotent : ℕ → Reply
  spent : ℕ → Reply

-- SELECT COALESCE(SUM(units),0) FROM spend WHERE day=?
unfoldable pub used : String → List Spend → ℕ
used day [] = 0
used day (r ∷ rs) = (if r.day == day then r.units else 0) + used day rs

unfoldable pub remaining : Budget → String → ℕ
unfolding used
remaining s day = s.daily_cap - used day s.rows

unfoldable pub can_spend : Budget → String → ℕ → Bool
unfolding remaining
can_spend s day units = leb units (remaining s day)

abbrev pub has_key : String → String → Spend → Bool
has_key day key r = (r.day == day) && (r.key == key)

-- the transaction of `spend`
unfoldable pub write : Budget → String → String → ℕ → ℕ → Reply × Budget
unfolding remaining
write s day key units now =
    let row : Spend = record { day = day; key = key; units = units; created_at = now } in
    let s' = record s { rows = s.rows ++ row ∷ [] } in
    if is_some (fetchone (has_key day key) s.rows)
    then (idempotent (remaining s day), s)
    else (spent (remaining s' day), s')

-- `units` is the value of int(units), with every negative one read as 0: both are refused alike.
unfoldable pub spend : Budget → String → String → ℕ → Bool → ℕ → Reply × Budget
spend s day key units validated now =
    if not validated
    then (not_validated, s)
    else if eqb units 0
    then (bad_units, s)
    else if not (can_spend s day units)
    then (exhausted (remaining s day), s)
    else write s day key units now

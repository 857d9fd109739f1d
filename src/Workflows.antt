-- ===== src/Workflows.antt =====
-- What the CVE and review workflows share (workflows/services.py, advisories/validators.py).
pub mod Cve
pub mod Orphan
pub mod Review
use advisoryhub.Prelude.{
  ℕ, zero, suc, Bool, true, false, not, ◌&&◌, ◌||◌, ◌==◌, leb, Option, none, some, List, [], ◌∷◌,
  Text, codes, get_row, modify_row, if◌then◌else◌,
}
use advisoryhub.Accounts.{Actor}
use advisoryhub.Advisory.{Advisory}
use advisoryhub.Tasks.{CveRequestTask}
use advisoryhub.Db.{Db, M, Error, or_raise, gets, require, ◌>>=◌}

-- Follows a foreign key to an advisory.
unfoldable pub load_advisory : ℕ → M Advisory
load_advisory pk db =
    or_raise (get_row (λ (a : Advisory). a.pk) pk db.advisories) Error.does_not_exist db

unfoldable pub drop_prefix : Text → Text → Option Text
drop_prefix [] s = some s
drop_prefix (p ∷ ps) [] = none
drop_prefix (p ∷ ps) (c ∷ s) = if p == c then drop_prefix ps s else none

drop_decimals : (ℕ → Bool) → ℕ → Text → Option Text
drop_decimals is_decimal zero s = some s
drop_decimals is_decimal (suc n) [] = none
drop_decimals is_decimal (suc n) (c ∷ s) =
    if is_decimal c then drop_decimals is_decimal n s else none

unfoldable pub leading_decimals : (ℕ → Bool) → Text → ℕ
leading_decimals is_decimal [] = 0
leading_decimals is_decimal (c ∷ s) =
    if is_decimal c then suc (leading_decimals is_decimal s) else 0

unfoldable pub after_decimals : (ℕ → Bool) → Text → Text
after_decimals is_decimal [] = []
after_decimals is_decimal (c ∷ s) = if is_decimal c then after_decimals is_decimal s else c ∷ s

-- `$`: the end, or a last line feed.
unfoldable pub is_end : Text → Bool
is_end [] = true
is_end (c ∷ []) = c == 10
is_end _ = false

is_sequence : (ℕ → Bool) → Text → Bool
unfolding leading_decimals after_decimals is_end
is_sequence is_decimal s =
    leb 4 (leading_decimals is_decimal s)
    && leb (leading_decimals is_decimal s) 19
    && is_end (after_decimals is_decimal s)

-- `CVE_ID_RE.match`: `^CVE-\d{4}-\d{4,19}$`
unfoldable pub is_cve_id : (ℕ → Bool) → Text → Bool
unfolding drop_prefix drop_decimals is_sequence
is_cve_id is_decimal s = elim (drop_prefix (codes "CVE-") s) [
  | none ↦ false
  | some year ↦ elim (drop_decimals is_decimal 4 year) [
    | none ↦ false
    | some r ↦ elim (drop_prefix (codes "-") r) [
      | none ↦ false
      | some sequence ↦ is_sequence is_decimal sequence
    ]
  ]
]

-- `validate_cve_id`
pub validate_cve_id : Text → M (Unit {0})
validate_cve_id value = do
  db ← gets (λ db. db)
  require (is_cve_id db.settings.is_decimal value) Error.validation_error

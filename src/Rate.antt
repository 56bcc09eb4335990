-- ===== src/Rate.antt =====
-- `Rate` of src/traffik/rates.py: its validation and the fields that the strategies read. The
-- floating-point rates per second, minute, hour and day are not modelled.
use traffik.Base.{ℕ, ◌+◌, ◌*◌, ◌-◌, Bool, false, ◌&&◌, not, ltb, ◌==◌}
use traffik.Base.Int.{ℤ, pos, negsuc, ◌+ℤ◌, ltb_ℤ, pos_part}
use traffik.Result.{Result, ok, value_error, ◌>>◌, raise_if}

pub record Rate : Type 0 where
  pub limit : ℕ
  pub expire : ℕ

-- `is_subsecond`
abbrev pub is_subsecond : Rate → Bool
is_subsecond r = ltb r.expire 1000

-- `unlimited`
abbrev pub unlimited : Rate → Bool
unlimited r = r.limit == 0 && r.expire == 0

-- `k * z` for a number `k` above zero.
abbrev pub scaled : ℕ → ℤ → ℤ
scaled k (pos n) = pos (k * n)
scaled k (negsuc n) = negsuc (k * n + (k - 1))

abbrev pub is_zero : ℤ → Bool
is_zero (pos n) = n == 0
is_zero (negsuc n) = false

-- `Rate.__init__`
unfoldable pub new : ℤ → ℤ → ℤ → ℤ → ℤ → Result Rate
new limit milliseconds seconds minutes hours = do
  raise_if (ltb_ℤ limit (pos 0)) value_error
  let expire = milliseconds +ℤ scaled 1000 seconds +ℤ scaled 60000 minutes +ℤ scaled 3600000 hours
  raise_if (ltb_ℤ expire (pos 0)) value_error
  raise_if (is_zero limit && not (is_zero expire)) value_error
  raise_if (not (is_zero limit) && is_zero expire) value_error
  ok (record { limit = pos_part limit; expire = pos_part expire })

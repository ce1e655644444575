-- ===== src/Time.antt =====
-- `time.Time` and `time.Duration`: an instant is the number of nanoseconds since Go's zero time,
-- and a duration a signed number of nanoseconds. Instants before the zero time and the overflow
-- of a duration past 292 years are left out.
use go_memoize.Base.{ℕ, ◌+◌, ◌-◌, Bool, ◌==◌, ltb}
use go_memoize.Base.Int.{ℤ, pos_part, neg_part, sub_ℕ}

abbrev pub Time : Type 0
Time = ℕ

abbrev pub Duration : Type 0
Duration = ℤ

-- `t.Before(u)`, `t.Equal(u)`, `t.After(u)`, `t.IsZero()`
abbrev pub before : Time → Time → Bool
before t u = ltb t u

abbrev pub equal : Time → Time → Bool
equal t u = t == u

abbrev pub after : Time → Time → Bool
after t u = ltb u t

abbrev pub is_zero : Time → Bool
is_zero t = t == 0

-- `t.Add(d)` and `t.Sub(u)`
abbrev pub add : Time → Duration → Time
add t d = t + pos_part d - neg_part d

abbrev pub sub : Time → Time → Duration
sub t u = sub_ℕ t u

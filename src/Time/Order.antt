-- ===== src/Time/Order.antt =====
-- The six comparisons of `TimeParam`, beside those of the number of seconds.
use pparam.Prelude.{◌≡◌, true, not, ltb, leb, ◌==◌, arith}
use pparam.Time.{
  Time, is_valid, less, equal, not_equal, greater, greater_equal, less_equal, seconds_of_time,
}

-- On valid times each comparison says of the times what it says of their seconds.
pub comparisons_seconds :
    (a b : Time)
    → is_valid a ≡ true
    → is_valid b ≡ true
    → (less a b ≡ ltb (seconds_of_time a) (seconds_of_time b))
      × (greater a b ≡ ltb (seconds_of_time b) (seconds_of_time a))
      × (less_equal a b ≡ leb (seconds_of_time a) (seconds_of_time b))
      × (greater_equal a b ≡ leb (seconds_of_time b) (seconds_of_time a))
      × (equal a b ≡ (seconds_of_time a == seconds_of_time b))
      × (not_equal a b ≡ not (seconds_of_time a == seconds_of_time b))
unfolding is_valid less equal not_equal greater greater_equal less_equal seconds_of_time
comparisons_seconds a b va vb =
    (ground arith, ground arith, ground arith, ground arith, ground arith, ground arith)

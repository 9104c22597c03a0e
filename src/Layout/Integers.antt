-- ===== src/Layout/Integers.antt =====
-- Python's integers, where a number of heads and the offsets behind it may go below 0.
use kvserve.Common.{ℕ, zero, suc, ◌+◌, ◌*◌, ◌/◌, min, max, List, [], ◌∷◌}
use kvserve.Workspace.{round_up}
use kvserve.Tokens.{ℤ, pos, negsuc, difference}

unfoldable pub negate : ℕ → ℤ
negate zero = pos 0
negate (suc n) = negsuc n

unfoldable pub plus : ℤ → ℤ → ℤ
plus (pos a) (pos b) = pos (a + b)
plus (pos a) (negsuc b) = difference a (suc b)
plus (negsuc a) (pos b) = difference b (suc a)
plus (negsuc a) (negsuc b) = negsuc (a + b + 1)

unfoldable pub product : ℤ → ℤ → ℤ
unfolding negate
product (pos a) (pos b) = pos (a * b)
product (pos a) (negsuc b) = negate (a * suc b)
product (negsuc a) (pos b) = negate (suc a * b)
product (negsuc a) (negsuc b) = pos (suc a * suc b)

unfoldable pub maximum : ℤ → ℤ → ℤ
maximum (pos a) (pos b) = pos (max a b)
maximum (pos a) (negsuc b) = pos a
maximum (negsuc a) (pos b) = pos b
maximum (negsuc a) (negsuc b) = negsuc (min a b)

-- `round_up` of spec.py, whose division rounds down: below 0 this drops the rest.
unfoldable pub round_up_int : ℤ → ℕ → ℤ
unfolding negate
round_up_int (pos a) alignment = pos (round_up a alignment)
round_up_int (negsuc a) alignment = negate (suc a / alignment * alignment)

-- math.prod
unfoldable pub prod_int : List ℤ → ℤ
unfolding product
prod_int [] = pos 1
prod_int (d ∷ ds) = product d (prod_int ds)

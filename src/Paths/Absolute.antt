-- ===== src/Paths/Absolute.antt =====
-- Cleaning keeps a path absolute, or relative.
use homura.Bytes.{Bytes}
use homura.Paths.{is_abs, clean, print}
use homura.Prelude.{true, ◌≡◌, arith}

pub is_abs-clean : (p : Bytes) → is_abs p ≡ true → is_abs (clean p) ≡ true
unfolding clean print is_abs
is_abs-clean p h = ground arith

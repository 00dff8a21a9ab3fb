-- ===== src/Inflate/Run.antt =====
-- The outcome of a loop that runs on fuel, in the model of src/inflate.c.

-- `failed` is the result -1.
pub data Run (A : Type 0) : Type 0 where
  done : A → Run A
  failed : Run A
  out_of_fuel : Run A

abbrev pub and_then : {A B : Type 0} → Run A → (A → Run B) → Run B
and_then (done a) k = k a
and_then failed k = failed
and_then out_of_fuel k = out_of_fuel

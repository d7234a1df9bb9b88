-- ===== src/Nmea/Units.antt =====
-- The conversions of src/spi/utils/nmea/include/nmea/Units.h that the client uses, over the
-- operations of `double`.
use precision_location_lite.Base.{ℕ}

-- `double`: its arithmetic, the integral part that `modf` stores, and the numbers n and n / 1000.
pub record Arith (D : Type 0) : Type 0 where
  pub negate : D → D
  pub add : D → D → D
  pub subtract : D → D → D
  pub multiply : D → D → D
  pub divide : D → D → D
  pub whole : D → D
  pub number : ℕ → D
  pub thousandths : ℕ → D

module _ {D : Type 0} (op : Arith D) where
  abbrev pub ndeg2degree : D → D
  ndeg2degree ndeg =
      let d = op.whole (op.divide ndeg (op.number 100)) in
      op.add d (op.divide (op.subtract ndeg (op.multiply d (op.number 100))) (op.number 60))

  abbrev pub knots2kph : D → D
  knots2kph knots = op.multiply knots (op.thousandths 1852)

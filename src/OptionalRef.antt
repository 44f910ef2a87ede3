-- ===== src/OptionalRef.antt =====
-- `optional_ref` of core/util/optional_ref.hpp: a reference to an object that may be missing. The
-- objects are values here. `has_value` and `value` are the two branches of an `elim`.
use mydak_server.Base.{Option}

abbrev pub OptionalRef : Type 0 → Type 0
OptionalRef T = Option T

-- ===== src/Logging/Samples.antt =====
-- Memory and calls that the tests of both loggers with a ring use.
use xm_sigma.Common.{ℕ, zero, suc, refl, arith, some, none, List, [], ◌∷◌}
use xm_sigma.Common.Indices.{IsSize}
use xm_sigma.Logging.Level.{LogLevel}
use xm_sigma.Logging.RtLogger.{Record, Call}
use xm_sigma.Logging.RtLogger.Delivery.{AreSlots}

pub two : IsSize 2
two = record { k = 1; small = omega arith; pow = refl }

abbrev zeros : ℕ → List ℕ
zeros zero = []
zeros (suc n) = 0 ∷ zeros n

abbrev pub blank : Record
blank = record { time = 0; level = LogLevel.trace; len = 0; msg = zeros 256 }

abbrev pub slots : List Record
slots = blank ∷ blank ∷ []

pub slots-AreSlots : AreSlots 2 slots
slots-AreSlots = (refl, (refl, (refl, tt)))

-- A warning "hi", and an error whose arguments do not fit its format.
abbrev pub hi : Call
hi = record { level = LogLevel.warn; outcome = some (0x68 ∷ 0x69 ∷ []) }

abbrev pub bad : Call
bad = record { level = LogLevel.error; outcome = none }

-- ===== src/Types/Time.antt =====
-- types/time.hpp and types/stamped.hpp: the monotonic time, and a value with the time of it. The
-- clock of the standard library is an argument, and its readings are numbered in the order in
-- which they are made.
use xm_sigma.Common.{ℕ, suc, ◌≤◌, List, [], ◌∷◌, All}

pub record SteadyClock : Type 0 where
  pub reading : ℕ → ℕ  -- what the reading of a number gives, in the clock's own ticks
  pub nanoseconds : ℕ → ℕ  -- `time_point_cast<std::chrono::nanoseconds>` of a number of ticks

-- A steady clock never steps back, and the cast keeps the order.
pub record IsSteady (clock : SteadyClock) : Type 0 where
  pub forward : (k : ℕ) → clock.reading k ≤ clock.reading (suc k)
  pub in_order : (a b : ℕ) → a ≤ b → clock.nanoseconds a ≤ clock.nanoseconds b

-- Nanoseconds since the clock's epoch.
abbrev pub Timestamp : Type 0
Timestamp = ℕ

-- The next reading, and the number of the one after it.
unfoldable pub now : SteadyClock → ℕ → Timestamp × ℕ
now clock k = (clock.nanoseconds (clock.reading k), suc k)

pub record Stamped {ℓ} (T : Type ℓ) : Type ℓ where
  pub stamp : Timestamp
  pub value : T

abbrev pub default_stamped {ℓ} : {T : Type ℓ} → T → Stamped T
default_stamped zero_value = record { stamp = 0; value = zero_value }

unfoldable pub stamp_now {ℓ} : {T : Type ℓ} → SteadyClock → T → ℕ → Stamped T × ℕ
unfolding now
stamp_now clock value k = let (t, k') = now clock k in (record { stamp = t; value = value }, k')

-- Values that are stamped one after the other, from the reading `k` on.
unfoldable pub stamp_all {ℓ} : {T : Type ℓ} → SteadyClock → List T → ℕ → List (Stamped T)
unfolding stamp_now
stamp_all clock [] k = []
stamp_all clock (v ∷ vs) k = let (s, k') = stamp_now clock v k in s ∷ stamp_all clock vs k'

-- No stamp is earlier than one before it.
abbrev pub IsMonotonic {ℓ} : {T : Type ℓ} → List (Stamped T) → Type 0
IsMonotonic [] = Unit
IsMonotonic (s ∷ rest) = All (λ later. s.stamp ≤ later.stamp) rest × IsMonotonic rest

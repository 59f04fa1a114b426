-- ===== src/Ingest/Arrivals.antt =====
-- monitoring/services.py: payloads of both kinds, one after another.
use icmp.Base.{ℕ, String, List, [], ◌∷◌, string_eq}
use icmp.Float.{Float}
use icmp.Ingest.Data.{Payload, World, Models, after}
use icmp.Ingest.Gas.{process_gas_ingest}
use icmp.Ingest.Power.{process_power_ingest}

-- A payload that arrives, with the clock's reading.
pub data Arrival (F : Type 0) : Type 0 where
  gas_arrival : ℕ → String → Payload F → Arrival F
  power_arrival : ℕ → String → String → Payload F → Arrival F

module _ {F : Type 0} ⦃f : Float F⦄ where
  unfoldable pub ingest : Models F → World F → Arrival F → World F
  unfolding process_gas_ingest process_power_ingest
  ingest models w (gas_arrival now uid p) = after w (process_gas_ingest models now uid p w)
  ingest models w (power_arrival now uid code p) =
      after w (process_power_ingest models now uid code p w)

  unfoldable pub ingest_all : Models F → World F → List (Arrival F) → World F
  unfolding ingest
  ingest_all models w [] = w
  ingest_all models w (a ∷ rest) = ingest_all models (ingest models w a) rest

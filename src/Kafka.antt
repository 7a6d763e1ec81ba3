-- ===== src/Kafka.antt =====
-- common/kafka: interface.go, the producer and the consumer. The library github.com/IBM/sarama is a
-- parameter that acts on a state `W`.
pub mod Producer
pub mod Consumer
use analytics_system.Prelude.{ℕ, List, Option}
use analytics_system.Prelude.Text.{Text}
use analytics_system.Prelude.Map.{Map}

-- `Message`; a key or a value that is nil is empty.
pub record Message : Type 0 where
  pub key : Text
  pub value : Text
  pub topic : Text
  pub partition : ℕ
  pub offset : ℕ
  pub timestamp : ℕ
  pub headers : Map Text

-- `sarama.RecordHeader`, where a key or a value may be nil.
pub record RecordHeader : Type 0 where
  pub header_key : Option Text
  pub header_value : Option Text

-- `sarama.ConsumerMessage`; a header may be a nil pointer.
pub record ConsumerMessage : Type 0 where
  pub key : Text
  pub value : Text
  pub topic : Text
  pub partition : ℕ
  pub offset : ℕ
  pub timestamp : ℕ
  pub headers : List (Option RecordHeader)

-- ===== src/Rmq/Regrouping.antt =====
-- A second run of the RabbitMQ test on the same apps.
use m_scale.Common.{string_eq}
use m_scale.Hydra.{Hydra}

-- ===== src/Subscriber/Receiving.antt =====
-- What a subscriber reports of what it has received.
use m_scale.Common.{nat_eq}
use m_scale.Subscriber.{Subscriber}

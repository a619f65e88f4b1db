-- ===== src/Publisher/Reporting.antt =====
-- What a publisher may report.
use m_scale.Common.{nat_eq}
use m_scale.Publisher.{Publisher}

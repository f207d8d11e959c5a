-- ===== src/Common/Events.antt =====
-- common/src/events.rs: the click event that the gateway sends and the analytics service reads.
use k_url.Prelude.{String}
use k_url.Prelude.Time.{DateTime}

pub record ClickEvent : Type 0 where
  pub short_code : String
  pub at : DateTime

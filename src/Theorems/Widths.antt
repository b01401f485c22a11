-- ===== src/Theorems/Widths.antt =====
-- What of a device fits the columns that take it.
use video_site.Common.{◌≡◌, true}
use video_site.Database.{fits}
use video_site.Service.{DeviceInfo}

-- The address and the user agent fit the audit log.
abbrev pub FitsAudit : DeviceInfo → Type 0
FitsAudit device = (fits 45 device.ip_address ≡ true) × (fits 400 device.user_agent ≡ true)

-- All of the device fits a session, and so the audit log.
abbrev pub FitsSession : DeviceInfo → Type 0
FitsSession device =
    (fits 36 device.visitor_id ≡ true)
    × (fits 400 device.user_agent ≡ true)
    × (fits 45 device.ip_address ≡ true)
    × (fits 100 device.device ≡ true)

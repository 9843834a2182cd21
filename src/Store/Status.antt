-- ===== src/Store/Status.antt =====
-- The status texts: the `Status…` constants of pkg/store/types.go, and the two that
-- pkg/accounting and pkg/settlement write out.
use Prim.Native.String.{String}

abbrev pub active : String
active = "active"

abbrev pub inactive : String
inactive = "inactive"

abbrev pub banned : String
banned = "banned"

abbrev pub pending : String
pending = "pending"

abbrev pub expired : String
expired = "expired"

abbrev pub cancelled : String
cancelled = "cancelled"

abbrev pub confirmed : String
confirmed = "confirmed"

abbrev pub settled : String
settled = "settled"

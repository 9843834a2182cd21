-- ===== src/Store/SubType.antt =====
-- The subscription types: the `SubType…` constants of pkg/store/types.go.
use Prim.Native.String.{String}

abbrev pub tip : String
tip = "tip"

abbrev pub snapshot : String
snapshot = "snapshot"

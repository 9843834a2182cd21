-- ===== src/Store/Outcome.antt =====
-- The comparison outcomes: the `Outcome…` constants of pkg/store/types.go.
use Prim.Native.String.{String}

abbrev pub clean : String
clean = "clean_delivery"

abbrev pub under_report : String
under_report = "under_report"

abbrev pub mismatch : String
mismatch = "mismatch"

abbrev pub indexer_silent : String
indexer_silent = "indexer_silent"

abbrev pub host_silent : String
host_silent = "host_silent"

-- ===== src/Requests/Examples.antt =====
-- The theorems on making requests, applied to concrete arguments and options.
use gohbase.Prelude.{◌≡◌, some, List, [], ◌∷◌}
use gohbase.Bytes.{Bytes}
use gohbase.Mutate.{Values, put, append, increment}
use gohbase.Options.{CallOption, max_versions, time_range_uint64, durability, delete_one_version}
use gohbase.Options.Validity.{Outcome, ValidScan, ValidGet}
use gohbase.Prelude.Int.{pos}
use gohbase.Requests.{new_scan_range, base_get, new_put, new_app, new_inc, new_del}
use gohbase.Requests.Made.{IsMade, IsDeletion, new_query-Valid, new_mutation-IsMade}

abbrev table : Bytes
table = b't' ∷ []

abbrev row : Bytes
row = b'r' ∷ []

abbrev stop : Bytes
stop = b's' ∷ []

abbrev three_versions : List CallOption
three_versions = max_versions 3 ∷ time_range_uint64 10 20 ∷ []

new_query-Valid_example :
    Outcome
      (λ s.
        ValidScan s × (s.table ≡ table) × (s.start_row ≡ row) × (s.stop_row ≡ stop) × (s.key ≡ row))
      (new_scan_range table row stop three_versions)
    × Outcome
        (λ g. ValidGet g × (g.table ≡ table) × (g.key ≡ row))
        (base_get table row three_versions)
new_query-Valid_example = new_query-Valid table row stop three_versions

abbrev values : Values
values = (b'f' ∷ [], some ((b'q' ∷ [], b'v' ∷ []) ∷ [])) ∷ []

abbrev one_version : List CallOption
one_version = durability (pos 2) ∷ delete_one_version ∷ []

new_mutation-IsMade_example :
    Outcome (IsMade put table row values) (new_put table row values one_version)
    × Outcome (IsMade append table row values) (new_app table row values one_version)
    × Outcome (IsMade increment table row values) (new_inc table row values one_version)
    × Outcome (IsDeletion table row values) (new_del table row values one_version)
new_mutation-IsMade_example = new_mutation-IsMade table row values one_version

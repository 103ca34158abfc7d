-- ===== src/Tests/ServiceRuns.antt =====
-- A table with two services and a request for the second.
use bristlemouth_rs.Common.{ℕ, ◌≡◌, refl, List, [], ◌∷◌, replicate, prefix, u32_at, from_le_bytes}
use bristlemouth_rs.Service.{
  RequestHeader, decode_request_header, Service, ServiceTable, call, hay, strncmp_eq, compare_from,
  lookup,
}
use bristlemouth_rs.Service.Calls.{IsCalled, IsSound, IsPassed, lookup-IsSound, lookup_finds}

abbrev question : RequestHeader
question = record { id = 3; data_size = 2 }

abbrev first : Service ℕ
first = record { name = 0x61 ∷ []; handler = 10 }

abbrev second : Service ℕ
second = record { name = 0x62 ∷ 0x63 ∷ []; handler = 20 }

abbrev table : ServiceTable ℕ
table = record { capacity = 3; name_limit = 8; services = first ∷ second ∷ [] }

-- `bc/req` and a header for two bytes.
abbrev asked : List ℕ
asked = 0x62 ∷ 0x63 ∷ 0x2f ∷ 0x72 ∷ 0x65 ∷ 0x71 ∷ []

abbrev request : List ℕ
request = 3 ∷ 0 ∷ 0 ∷ 0 ∷ 2 ∷ 0 ∷ 0 ∷ 0 ∷ 7 ∷ 8 ∷ []

abbrev zeros : List ℕ
zeros = replicate 16 0

second-IsCalled : IsCalled second asked request (0x62 ∷ 0x63 ∷ []) 20 question (7 ∷ 8 ∷ [])
unfolding strncmp_eq compare_from hay decode_request_header prefix u32_at from_le_bytes
second-IsCalled = record {
  same_name = refl;
  same_handler = refl;
  matched = refl;
  decoded = refl;
  sized = refl;
  suffixed = refl;
  rest = refl;
}

first-IsPassed : IsPassed asked request first
unfolding strncmp_eq compare_from hay
first-IsPassed = refl

lookup-IsSound_example : IsSound 0 table.services asked request (lookup table asked request)
lookup-IsSound_example = lookup-IsSound table asked request

lookup_finds_example :
    lookup table asked request ≡ call 1 (0x62 ∷ 0x63 ∷ []) 20 question (7 ∷ 8 ∷ [])
lookup_finds_example =
    lookup_finds table (first ∷ []) [] second asked request (7 ∷ 8 ∷ []) question refl
      (first-IsPassed, tt) second-IsCalled

-- ===== src/Mangle/Runs.antt =====
-- Tests and examples for mangled addresses.
use kd_desk_tc.Prelude.{ℕ, ◌≡◌, ◌≤◌, refl, List, none, some, length, arith}
use kd_desk_tc.Net.{Ipv4Addr, v4, v6}
use kd_desk_tc.Mangle.{encode, decode}
use kd_desk_tc.Mangle.RoundTrip.{decode-encode_addr}

abbrev router : Ipv4Addr
router = record { a = 192; b = 168; c = 16; d = 32 }

-- The address of the source's test, `192.168.16.32:21116`.
source_test :
    elim (encode 1234567890123456 (record { ip = v4 router; port = 21116 })) [
      | none ↦ none
      | some bytes ↦ decode bytes
    ]
    ≡ some (record { ip = v4 router; port = 21116 })
unfolding encode decode
source_test = refl

encode_v6 : encode 0 (record { ip = v6 1; port = 80 }) ≡ none
unfolding encode
encode_v6 = refl

decode-encode_addr_example :
    (bytes : List ℕ) × (encode 1234567890123456 (record { ip = v4 router; port = 21116 })
      ≡ some bytes)
    × (length bytes ≤ 16)
    × (decode bytes ≡ some (record { ip = v4 router; port = 21116 }))
decode-encode_addr_example =
    decode-encode_addr 1234567890123456 router 21116
      (omega arith, omega arith, omega arith, omega arith) (omega arith)

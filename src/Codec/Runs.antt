-- ===== src/Codec/Runs.antt =====
-- Tests and examples for the codec.
use kd_desk_tc.Prelude.{ℕ, ◌≡◌, ◌≤◌, refl, false, List, [], ◌∷◌, ◌++◌, some, length, arith}
use kd_desk_tc.Codec.{BytesCodec, head, ok, err, invalid_data, decode, head_value, encode}
use kd_desk_tc.Codec.Decode.{resume, decode-append}
use kd_desk_tc.Codec.RoundTrip.{decode-encode, IsValid, decode-IsValid}
use kd_desk_tc.Codec.Stream.{deliver, wire}
use kd_desk_tc.Codec.Stream.Delivery.{deliver-wire}

abbrev small : BytesCodec
small = record { state = head; raw = false; max_packet_length = 4 }

-- A frame of three bytes has the header 12.
encode_three : encode small (1 ∷ 2 ∷ 3 ∷ []) [] ≡ (ok tt, 12 ∷ 1 ∷ 2 ∷ 3 ∷ [])
unfolding encode
encode_three = refl

decode_three :
    decode small (12 ∷ 1 ∷ 2 ∷ 3 ∷ 0 ∷ [])
    ≡ record { result = ok (some (1 ∷ 2 ∷ 3 ∷ [])); codec = small; src = 0 ∷ [] }
unfolding decode head_value
decode_three = refl

-- A frame of five bytes is too long for this codec.
decode_five :
    decode small (20 ∷ 1 ∷ [])
    ≡ record { result = err invalid_data; codec = small; src = 20 ∷ 1 ∷ [] }
unfolding decode head_value
decode_five = refl

deliver-wire_example :
    deliver small [] ((4 ∷ []) ∷ (7 ∷ 8 ∷ []) ∷ (1 ∷ 2 ∷ []) ∷ [])
    ≡ some ((7 ∷ []) ∷ (1 ∷ 2 ∷ []) ∷ [])
deliver-wire_example =
    deliver-wire small ((7 ∷ []) ∷ (1 ∷ 2 ∷ []) ∷ []) ((4 ∷ []) ∷ (7 ∷ 8 ∷ []) ∷ (1 ∷ 2 ∷ []) ∷ [])
      refl refl ((omega arith, omega arith), ((omega arith, omega arith), tt))
      (unfold wire encode in refl)

decode-append_example :
    decode small ((12 ∷ 1 ∷ []) ++ (2 ∷ 3 ∷ [])) ≡ resume (decode small (12 ∷ 1 ∷ [])) (2 ∷ 3 ∷ [])
decode-append_example = decode-append small (12 ∷ 1 ∷ []) (2 ∷ 3 ∷ []) refl

decode-encode_example :
    decode small ((encode small (1 ∷ 2 ∷ 3 ∷ []) []).1 ++ (9 ∷ []))
    ≡ record { result = ok (some (1 ∷ 2 ∷ 3 ∷ [])); codec = small; src = 9 ∷ [] }
decode-encode_example =
    decode-encode small (1 ∷ 2 ∷ 3 ∷ []) (9 ∷ []) refl refl (omega arith) (omega arith)

decode-IsValid_example :
    IsValid (decode small (16 ∷ 1 ∷ 2 ∷ [])).codec
    × ((frame : List ℕ)
        → (decode small (16 ∷ 1 ∷ 2 ∷ [])).result ≡ ok (some frame)
        → length frame ≤ 4)
decode-IsValid_example = decode-IsValid small (16 ∷ 1 ∷ 2 ∷ []) refl tt

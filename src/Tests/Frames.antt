-- ===== src/Tests/Frames.antt =====
-- Frames on the pipe.
use ledgermind_local.Prelude.{ℕ, ◌≡◌, ◌<◌, refl, [], ◌∷◌, List, ◌++◌, arith}
use ledgermind_local.Framing.{Stream, ok, read_frame, write_frame, to_bytes, from_bytes}
use ledgermind_local.Framing.RoundTrip.{read-write}

abbrev payload : List ℕ
payload = 1 ∷ 2 ∷ 3 ∷ []

abbrev frame : List ℕ
frame = 0 ∷ 0 ∷ 0 ∷ 3 ∷ payload

written : write_frame payload ≡ ok frame
unfolding write_frame to_bytes
written = refl

read-write_example :
    (ds : List ℕ) × (read_frame (record { bytes = frame ++ 9 ∷ []; chunks = 1 ∷ 2 ∷ [] })
      ≡ ok (payload, record { bytes = 9 ∷ []; chunks = ds }))
read-write_example = read-write payload frame (9 ∷ []) (1 ∷ 2 ∷ []) written

large : 8388608 < from_bytes 0 (1 ∷ 0 ∷ 0 ∷ 0 ∷ [])
unfolding from_bytes
large = omega arith

abbrev stream : Stream
stream = record { bytes = 5 ∷ 6 ∷ 7 ∷ []; chunks = 1 ∷ [] }

-- ===== src/Framing.antt =====
-- core_gateway/framing.py: frames of the Core's pipe, four bytes of length and then the payload.
-- A stream is the bytes still to come; how many a `read` returns at once is up to the operating
-- system, so a list of those numbers is a part of the stream.
pub mod Reading
pub mod RoundTrip
use ledgermind_local.Prelude.{
  ℕ, zero, suc, ◌+◌, ◌-◌, ◌*◌, ◌/◌, ◌%◌, ◌^◌, ◌<◌, min, max, Bool, true, false, List, [], ◌∷◌, ◌++◌,
  length, take, drop, ltb, ◌==◌, if◌then◌else◌,
}

abbrev pub max_frame_bytes : ℕ
max_frame_bytes = 8 * 1024 * 1024

abbrev pub frame_header_bytes : ℕ
frame_header_bytes = 4

pub data FrameError : Type 0 where
  frame_too_large frame_truncated : FrameError

pub data Result {ℓ} (A : Type ℓ) : Type ℓ where
  err : FrameError → Result A
  ok : A → Result A

infixl 5 ◌>>=◌
abbrev pub ◌>>=◌ {ℓ κ} : {A : Type ℓ} {B : Type κ} (m : Result A) (next : A → Result B) → Result B
err e >>= next = err e
ok a >>= next = next a

pub record Stream : Type 0 where
  pub bytes : List ℕ
  pub chunks : List ℕ

-- The most that the next read returns, and the stream's later reads.
abbrev next_chunk : ℕ → List ℕ → ℕ
next_chunk size [] = size
next_chunk size (c ∷ cs) = min size (max c 1)

abbrev later_chunks : List ℕ → List ℕ
later_chunks [] = []
later_chunks (c ∷ cs) = cs

-- `reader.read(size)`: at least one byte, unless the stream has ended.
unfoldable pub read : ℕ → Stream → List ℕ × Stream
read size s =
    let n = next_chunk size s.chunks in
    (take n s.bytes, record { bytes = drop n s.bytes; chunks = later_chunks s.chunks })

-- The loop of `_read_exact`; every round takes a byte, so that `remaining` rounds are enough. An
-- empty chunk is the end of the stream.
unfoldable pub read_loop : (fuel remaining : ℕ) → List ℕ → Stream → Result (List ℕ × Stream)
unfolding read
read_loop zero remaining got s = if remaining == 0 then ok (got, s) else err frame_truncated
read_loop (suc fuel) remaining got s =
    let (chunk, s') = read remaining s in
    let rest = read_loop fuel (remaining - length chunk) (got ++ chunk) s' in
    if remaining == 0 then ok (got, s) else if length chunk == 0 then err frame_truncated else rest

unfoldable pub read_exact : ℕ → Stream → Result (List ℕ × Stream)
unfolding read_loop
read_exact size s = read_loop size size [] s

-- int.from_bytes(..., "big")
unfoldable pub from_bytes : ℕ → List ℕ → ℕ
from_bytes acc [] = acc
from_bytes acc (b ∷ bs) = from_bytes (acc * 256 + b) bs

-- length.to_bytes(4, "big")
unfoldable pub to_bytes : ℕ → List ℕ
to_bytes n = (n / 16777216 % 256) ∷ (n / 65536 % 256) ∷ (n / 256 % 256) ∷ (n % 256) ∷ []

unfoldable pub read_body : List ℕ → Stream → Result (List ℕ × Stream)
unfolding from_bytes
read_body header s =
    if ltb max_frame_bytes (from_bytes 0 header)
    then err frame_too_large
    else read_exact (from_bytes 0 header) s

unfoldable pub read_frame : Stream → Result (List ℕ × Stream)
unfolding read_exact read_body
read_frame s = do (header, s') ← read_exact frame_header_bytes s; read_body header s'

-- What `write_frame` hands to the writer.
unfoldable pub write_frame : List ℕ → Result (List ℕ)
unfolding to_bytes
write_frame payload =
    if ltb max_frame_bytes (length payload)
    then err frame_too_large
    else ok (to_bytes (length payload) ++ payload)

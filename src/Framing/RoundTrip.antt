-- ===== src/Framing/RoundTrip.antt =====
-- core_gateway/framing.py: `read_frame` on what `write_frame` writes, whole, cut short or too large.
use mathlib.Core.List.{append_assoc}
use ledgermind_local.Prelude.{
  ℕ, zero, suc, ◌+◌, ◌≤◌, ◌<◌, ◌≡◌, refl, sym, ap, ◌∙◌, List, [], ◌∷◌, ◌++◌, length, take, drop,
  inl, inr, arith, Bool-cases, if_false, ltb, ltb→lt, length-append,
}
use ledgermind_local.Framing.{
  Stream, ok, err, frame_truncated, frame_too_large, read_exact, read_body, read_frame, write_frame,
  to_bytes, from_bytes, max_frame_bytes, ◌>>=◌,
}
use ledgermind_local.Framing.Reading.{length-drop, read_exact-Reads, read_exact-truncated}

take-append : (xs ys : List ℕ) → take (length xs) (xs ++ ys) ≡ xs
take-append [] ys = refl
take-append (x ∷ xs) ys = ap (λ l. x ∷ l) (take-append xs ys)

drop-append : (xs ys : List ℕ) → drop (length xs) (xs ++ ys) ≡ ys
drop-append [] ys = refl
drop-append (x ∷ xs) ys = drop-append xs ys

-- A length that fits in four bytes comes back.
pub from_bytes-to_bytes : (n : ℕ) → n < 4294967296 → from_bytes 0 (to_bytes n) ≡ n
unfolding from_bytes to_bytes
from_bytes-to_bytes n h = omega arith

read_payload :
    (payload rest cs : List ℕ)
    → (ds : List ℕ) × (read_exact (length payload) (record { bytes = payload ++ rest; chunks = cs })
        ≡ ok (payload, record { bytes = rest; chunks = ds }))
read_payload payload rest cs =
    let (ds, e) =
      read_exact-Reads (length payload) (record { bytes = payload ++ rest; chunks = cs })
        (omega (arith, length-append payload rest)) in
    (
      ds,
      e ∙ λ i.
          ok (
            take-append payload rest i,
            record { bytes = drop-append payload rest i; chunks = ds },
          ),
    )

write_frame-ok :
    (payload frame : List ℕ)
    → write_frame payload ≡ ok frame
    → (length payload ≤ max_frame_bytes) × (frame ≡ to_bytes (length payload) ++ payload)
unfolding write_frame
write_frame-ok payload frame h = ground (arith, h)

read_body_lem :
    (payload rest cs : List ℕ)
    → length payload ≤ max_frame_bytes
    → (ds : List ℕ) × (read_body
          (to_bytes (length payload))
          (record { bytes = payload ++ rest; chunks = cs })
        ≡ ok (payload, record { bytes = rest; chunks = ds }))
unfolding read_body
read_body_lem payload rest cs h =
    let n = from_bytes-to_bytes (length payload) (omega arith) in
    let (ds, e) = read_payload payload rest cs in
    (ds, rw n (if_false (ltb max_frame_bytes (length payload)) _ _ (ground arith) ∙ e))

read_frame_lem : (s : Stream) → read_frame s ≡ (read_exact 4 s >>= λ y. read_body y.0 y.1)
unfolding read_frame
read_frame_lem s = refl

read_header :
    (header more cs : List ℕ)
    → length header ≡ 4
    → (ds : List ℕ) × (read_exact 4 (record { bytes = header ++ more; chunks = cs })
        ≡ ok (header, record { bytes = more; chunks = ds }))
read_header header more cs four =
    let (ds, e) = read_payload header more cs in
    (ds, ap (λ n. read_exact n (record { bytes = header ++ more; chunks = cs })) (sym four) ∙ e)

length-to_bytes : (n : ℕ) → length (to_bytes n) ≡ 4
unfolding to_bytes
length-to_bytes n = refl

-- A frame that was written comes back whole, whatever follows it in the stream and however the reads
-- divide it, and the stream stands at what follows.
pub read-write :
    (payload frame rest cs : List ℕ)
    → write_frame payload ≡ ok frame
    → (ds : List ℕ) × (read_frame (record { bytes = frame ++ rest; chunks = cs })
        ≡ ok (payload, record { bytes = rest; chunks = ds }))
read-write payload frame rest cs h =
    let (fits, made) = write_frame-ok payload frame h in
    let header = to_bytes (length payload) in
    let (ds, e) = read_header header (payload ++ rest) cs (length-to_bytes (length payload)) in
    let (es, f) = read_body_lem payload rest ds fits in
    let split : frame ++ rest ≡ header ++ (payload ++ rest) =
      ap (λ l. l ++ rest) made ∙ append_assoc header payload rest in
    (
      es,
      ap (λ l. read_frame (record { bytes = l; chunks = cs })) split
          ∙ read_frame_lem (record { bytes = header ++ (payload ++ rest); chunks = cs })
          ∙ ap (λ m. m >>= λ y. read_body y.0 y.1) e
          ∙ f,
    )

-- A frame whose header of four bytes says more than the limit is refused, whatever follows it.
pub read_frame-too_large :
    (header rest cs : List ℕ)
    → length header ≡ 4
    → max_frame_bytes < from_bytes 0 header
    → read_frame (record { bytes = header ++ rest; chunks = cs }) ≡ err frame_too_large
read_frame-too_large header rest cs four large =
    let (ds, e) = read_header header rest cs four in
    read_frame_lem (record { bytes = header ++ rest; chunks = cs })
    ∙ ap (λ m. m >>= λ y. read_body y.0 y.1) e
    ∙ too_large header (record { bytes = rest; chunks = ds }) large
  where
    too_large :
        (header : List ℕ) (s : Stream)
        → max_frame_bytes < from_bytes 0 header
        → read_body header s ≡ err frame_too_large
    too_large header s large = unfold read_body in ground (arith, large)

take-append_le : (n : ℕ) (xs ys : List ℕ) → n ≤ length xs → take n (xs ++ ys) ≡ take n xs
take-append_le zero xs ys h = refl
take-append_le (suc n) [] ys h = absurd (omega arith)
take-append_le (suc n) (x ∷ xs) ys h = ap (λ l. x ∷ l) (take-append_le n xs ys (omega arith))

body_truncated :
    (n : ℕ) (s : Stream)
    → n ≤ max_frame_bytes
    → length s.bytes < n
    → read_body (to_bytes n) s ≡ err frame_truncated
unfolding read_body
body_truncated n s fits short =
    rw (from_bytes-to_bytes n (omega arith))
      (if_false (ltb max_frame_bytes n) _ _ (ground arith) ∙ read_exact-truncated n s short)

-- A stream that ends within a frame that was written is an error, never a shorter payload.
pub read_frame-truncated :
    (payload frame part rest cs : List ℕ)
    → write_frame payload ≡ ok frame
    → frame ≡ part ++ rest
    → 0 < length rest
    → read_frame (record { bytes = part; chunks = cs }) ≡ err frame_truncated
read_frame-truncated payload frame part rest cs h e more =
    let (fits, made) = write_frame-ok payload frame h in
    let n = length payload in
    let s : Stream = record { bytes = part; chunks = cs } in
    let sizes : length part + length rest ≡ 4 + n = omega (
      arith,
      length-append part rest,
      length-append (to_bytes n) payload,
      length-to_bytes n,
      ap length e,
      ap length made,
    ) in
    read_frame_lem s ∙ elim (Bool-cases (ltb (length part) 4)) [
      | inl short ↦
          ap (λ m. m >>= λ y. read_body y.0 y.1)
            (read_exact-truncated 4 s (ltb→lt (length part) 4 short))
      | inr enough ↦
          let four : 4 ≤ length part = ground (arith, enough) in
          let (ds, r) = read_exact-Reads 4 s four in
          let header : take 4 part ≡ to_bytes n =
            sym (take-append_le 4 part rest four)
            ∙ ap (take 4) (sym e ∙ made)
            ∙ ap (λ j. take j (to_bytes n ++ payload)) (sym (length-to_bytes n))
            ∙ take-append (to_bytes n) payload in
          ap (λ m. m >>= λ y. read_body y.0 y.1) r
          ∙ ap (λ l. read_body l (record { bytes = drop 4 part; chunks = ds })) header
          ∙ body_truncated n (record { bytes = drop 4 part; chunks = ds }) fits
              (omega (arith, length-drop 4 part, sizes, four))
    ]

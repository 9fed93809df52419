-- ===== src/Framing/Reading.antt =====
-- core_gateway/framing.py, `_read_exact`: the loop over the stream's reads.
use mathlib.Core.List.{append-nil, append_assoc}
use ledgermind_local.Prelude.{
  ℕ, zero, suc, ◌+◌, ◌-◌, ◌≤◌, ◌<◌, min, ◌≡◌, refl, sym, ap, ◌∙◌, List, [], ◌∷◌, ◌++◌, length, take,
  drop, inl, inr, arith, Bool-cases, ◌==◌,
}
use ledgermind_local.Framing.{
  Stream, Result, ok, err, frame_truncated, next_chunk, later_chunks, read_loop, read_exact,
}

module _ {A : Type 0} where
  pub length-take_le : (n : ℕ) (xs : List A) → length (take n xs) ≡ min n (length xs)
  length-take_le zero xs = omega arith
  length-take_le (suc n) [] = omega arith
  length-take_le (suc n) (x ∷ xs) = omega (arith, length-take_le n xs)

  pub length-drop : (n : ℕ) (xs : List A) → length (drop n xs) ≡ length xs - n
  length-drop zero xs = omega arith
  length-drop (suc n) [] = omega arith
  length-drop (suc n) (x ∷ xs) = omega (arith, length-drop n xs)

  take-take-drop :
      (k m n : ℕ) (xs : List A) → k + m ≡ n → take k xs ++ take m (drop k xs) ≡ take n xs
  take-take-drop zero m n xs e = ap (λ j. take j xs) (omega (arith, e))
  take-take-drop (suc k) m zero xs e = absurd (omega (arith, e))
  take-take-drop (suc k) zero (suc n) [] e = refl
  take-take-drop (suc k) (suc m) (suc n) [] e = refl
  take-take-drop (suc k) m (suc n) (x ∷ xs) e =
      ap (λ l. x ∷ l) (take-take-drop k m n xs (omega (arith, e)))

  drop-drop : (k m n : ℕ) (xs : List A) → k + m ≡ n → drop m (drop k xs) ≡ drop n xs
  drop-drop zero m n xs e = ap (λ j. drop j xs) (omega (arith, e))
  drop-drop (suc k) m zero xs e = absurd (omega (arith, e))
  drop-drop (suc k) zero (suc n) [] e = refl
  drop-drop (suc k) (suc m) (suc n) [] e = refl
  drop-drop (suc k) m (suc n) (x ∷ xs) e = drop-drop k m n xs (omega (arith, e))

-- A read asks for something and gets at least one byte and no more than it asked for.
next_chunk_bounds : (n : ℕ) (cs : List ℕ) → 0 < n → (0 < next_chunk n cs) × (next_chunk n cs ≤ n)
next_chunk_bounds n [] h = (h, omega arith)
next_chunk_bounds n (c ∷ cs) h = omega arith

-- The first `n` bytes, and a stream at the byte after them.
abbrev pub Reads : ℕ → List ℕ → Stream → Result (List ℕ × Stream) → Type 0
Reads n got s r =
    (cs : List ℕ) × (r ≡ ok (got ++ take n s.bytes, record { bytes = drop n s.bytes; chunks = cs }))

read_loop_zero : (fuel : ℕ) (got : List ℕ) (s : Stream) → read_loop fuel 0 got s ≡ ok (got, s)
unfolding read_loop
read_loop_zero zero got s = refl
read_loop_zero (suc fuel) got s = refl

-- One round that gets bytes.
read_loop_step :
    (fuel n : ℕ) (got : List ℕ) (s : Stream)
    → 0 < n
    → 0 < length (take (next_chunk n s.chunks) s.bytes)
    → read_loop (suc fuel) n got s
      ≡ read_loop fuel
          (n - length (take (next_chunk n s.chunks) s.bytes))
          (got ++ take (next_chunk n s.chunks) s.bytes)
          (record { bytes = drop (next_chunk n s.chunks) s.bytes; chunks = later_chunks s.chunks })
unfolding read_loop
read_loop_step fuel n got s pos some_bytes = ground (arith, pos, some_bytes)

-- The stream ended.
read_loop_end :
    (fuel n : ℕ) (got : List ℕ) (s : Stream)
    → 0 < n
    → length (take (next_chunk n s.chunks) s.bytes) ≡ 0
    → read_loop fuel n got s ≡ err frame_truncated
unfolding read_loop
read_loop_end zero n got s pos none_left = ground (arith, pos)
read_loop_end (suc fuel) n got s pos none_left = ground (arith, pos, none_left)

read_loop-Reads :
    (fuel n : ℕ) (got : List ℕ) (s : Stream)
    → n ≤ fuel
    → n ≤ length s.bytes
    → Reads n got s (read_loop fuel n got s)
read_loop-Reads fuel zero got s h k =
    (s.chunks, read_loop_zero fuel got s ∙ ap (λ l. ok (l, s)) (sym (append-nil got)))
read_loop-Reads zero (suc n) got s h k = absurd (omega arith)
read_loop-Reads (suc fuel) (suc n) got s h k =
    let size = next_chunk (suc n) s.chunks in
    let bounds = next_chunk_bounds (suc n) s.chunks (omega arith) in
    let count : length (take size s.bytes) ≡ size =
      omega (arith, length-take_le size s.bytes, bounds) in
    let s' : Stream = record { bytes = drop size s.bytes; chunks = later_chunks s.chunks } in
    let (cs, rest) =
      read_loop-Reads fuel (suc n - size) (got ++ take size s.bytes) s' (omega (arith, bounds))
        (omega (arith, length-drop size s.bytes, bounds)) in
    let whole : (got ++ take size s.bytes) ++ take (suc n - size) (drop size s.bytes)
        ≡ got ++ take (suc n) s.bytes =
      append_assoc got (take size s.bytes) (take (suc n - size) (drop size s.bytes))
      ∙ ap (λ l. got ++ l)
          (take-take-drop size (suc n - size) (suc n) s.bytes (omega (arith, bounds))) in
    let left : drop (suc n - size) (drop size s.bytes) ≡ drop (suc n) s.bytes =
      drop-drop size (suc n - size) (suc n) s.bytes (omega (arith, bounds)) in
    (
      cs,
      read_loop_step fuel (suc n) got s (omega arith) (omega (arith, count, bounds))
          ∙ ap (λ m. read_loop fuel (suc n - m) (got ++ take size s.bytes) s') count
          ∙ rest
          ∙ λ i. ok (whole i, record { bytes = left i; chunks = cs }),
    )

read_loop-truncated :
    (fuel n : ℕ) (got : List ℕ) (s : Stream)
    → n ≤ fuel
    → length s.bytes < n
    → read_loop fuel n got s ≡ err frame_truncated
read_loop-truncated fuel zero got s h k = absurd (omega arith)
read_loop-truncated zero (suc n) got s h k = absurd (omega arith)
read_loop-truncated (suc fuel) (suc n) got s h k =
    let size = next_chunk (suc n) s.chunks in
    let bounds = next_chunk_bounds (suc n) s.chunks (omega arith) in
    let count : length (take size s.bytes) ≡ min size (length s.bytes) =
      length-take_le size s.bytes in
    elim (Bool-cases (length (take size s.bytes) == 0)) [
      | inl z ↦ read_loop_end (suc fuel) (suc n) got s (omega arith) (ground (arith, z))
      | inr more ↦
          read_loop_step fuel (suc n) got s (omega arith) (ground (arith, more))
          ∙ read_loop-truncated fuel (suc n - length (take size s.bytes)) (got ++ take size s.bytes)
              (record { bytes = drop size s.bytes; chunks = later_chunks s.chunks })
              (ground (arith, more)) (omega (arith, length-drop size s.bytes, count))
    ]

-- Where the stream has that many bytes, `_read_exact` returns the next ones and leaves the others,
-- however the reads divide the stream.
pub read_exact-Reads : (n : ℕ) (s : Stream) → n ≤ length s.bytes → Reads n [] s (read_exact n s)
unfolding read_exact
read_exact-Reads n s h = read_loop-Reads n n [] s (omega arith) h

-- And it raises FrameTruncatedError where the stream ends too soon.
pub read_exact-truncated :
    (n : ℕ) (s : Stream) → length s.bytes < n → read_exact n s ≡ err frame_truncated
unfolding read_exact
read_exact-truncated n s h = read_loop-truncated n n [] s (omega arith) h

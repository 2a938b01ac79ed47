-- ===== src/Web/Buffer/Collect.antt =====
-- The request body that the block of the POST handlers has collected.
use cedar_switch_3i3o_power.Common.{
  ℕ, zero, suc, ◌+◌, ◌-◌, ◌≤◌, ◌<◌, ◌≡◌, refl, ◌∙◌, sym, ap, ◌⊎◌, inl, inr, List, [], ◌∷◌, ◌++◌,
  ltb, arith, length, take, drop, length-append, length-take, Bool-cases,
}
use mathlib.Core.List.{append_assoc, append-nil, flatten}
use native.Mathlib.Decide.{dec_lt}
use cedar_switch_3i3o_power.Common.CString.{Bytes}
use cedar_switch_3i3o_power.Web.Http.{DataStatus, data_aborted, data_more, data_final}
use cedar_switch_3i3o_power.Web.Buffer.{
  PostBuffer, write_at, Received, aborted, too_large, stored, reset, store_chunk, receive,
  receive_all, body,
}

-- The cursor stands inside the array.
abbrev pub IsBounded : PostBuffer → Type 0
IsBounded b = b.cursor ≤ length b.buff

length-drop : (n : ℕ) (xs : Bytes) → length (drop n xs) + n ≡ (length xs + (n - length xs))
length-drop zero xs = omega arith
length-drop (suc n) [] = omega arith
length-drop (suc n) (x ∷ xs) = omega (arith, length-drop n xs)

take_prefix : (xs ys : Bytes) (n : ℕ) → n ≡ length xs → take n (xs ++ ys) ≡ xs
take_prefix [] ys n e = rw (e)
take_prefix (x ∷ xs) ys zero e = absurd (omega arith)
take_prefix (x ∷ xs) ys (suc n) e = ap (◌∷◌ x) (take_prefix xs ys n (omega arith))

length-write_at :
    (buff chunk : Bytes) (at : ℕ)
    → at + length chunk ≤ length buff
    → length (write_at buff at chunk) ≡ length buff
length-write_at buff chunk at h = omega (
  arith,
  length-append (take at buff) (chunk ++ drop (at + length chunk) buff),
  length-append chunk (drop (at + length chunk) buff),
  length-take at buff,
  length-drop (at + length chunk) buff,
)

take-write_at :
    (buff chunk : Bytes) (at : ℕ)
    → at + length chunk ≤ length buff
    → take (at + length chunk) (write_at buff at chunk) ≡ take at buff ++ chunk
take-write_at buff chunk at h =
    ap (take (at + length chunk))
      (sym (append_assoc (take at buff) chunk (drop (at + length chunk) buff)))
    ∙ take_prefix (take at buff ++ chunk) (drop (at + length chunk) buff) (at + length chunk)
        (omega (arith, length-append (take at buff) chunk, length-take at buff))

abbrev with_chunk : Bytes → PostBuffer → PostBuffer
with_chunk chunk b = record {
  buff = write_at b.buff b.cursor chunk;
  cursor = b.cursor + length chunk;
}

-- A chunk that fits is appended to the body; one that does not empties the buffer.
store_chunk_fits :
    (chunk : Bytes) (b : PostBuffer)
    → b.cursor + length chunk ≤ length b.buff
    → (b' : PostBuffer) × (store_chunk chunk b ≡ stored b')
      × (body b' ≡ body b ++ chunk)
      × (length b'.buff ≡ length b.buff)
      × (b'.cursor ≡ b.cursor + length chunk)
store_chunk_fits chunk b h = (
  with_chunk chunk b,
  ground arith,
  take-write_at b.buff chunk b.cursor h,
  length-write_at b.buff chunk b.cursor h,
  refl,
)

store_chunk_over :
    (chunk : Bytes) (b : PostBuffer)
    → length b.buff < b.cursor + length chunk
    → store_chunk chunk b ≡ too_large (reset b)
store_chunk_over chunk b h = ground arith

-- Each of the six outcomes of the block keeps the cursor inside the array and the array's size.
abbrev pub left : Received → PostBuffer
left (aborted b) = b
left (too_large b) = b
left (stored b) = b

store_chunk-IsBounded :
    (chunk : Bytes) (b : PostBuffer)
    → IsBounded (left (store_chunk chunk b))
      × (length (left (store_chunk chunk b)).buff ≡ length b.buff)
store_chunk-IsBounded chunk b = elim (Bool-cases (ltb (length b.buff) (length chunk + b.cursor))) [
  | inl over ↦ rw (over) (omega arith, refl)
  | inr fits ↦
      let room : b.cursor + length chunk ≤ length b.buff = ground arith in
      let same = length-write_at b.buff chunk b.cursor room in rw (fits) (rw (same) room, same)
]

-- However a request's chunk is received, the cursor is inside the array afterwards, so that no
-- later chunk is written past its end; the array keeps its size.
receive-IsBounded :
    (status : DataStatus) (chunk : Bytes) (b : PostBuffer)
    → IsBounded (left (receive status chunk b))
      × (length (left (receive status chunk b)).buff ≡ length b.buff)
unfolding receive
receive-IsBounded data_aborted chunk b = (omega arith, refl)
receive-IsBounded data_more chunk b = store_chunk-IsBounded chunk b
receive-IsBounded data_final chunk b = store_chunk-IsBounded chunk b

-- Chunks that fit together are collected in order: the body is what it was, then all of them.
receive_all_fits :
    (chunks : List Bytes) (b : PostBuffer)
    → b.cursor + length (flatten chunks) ≤ length b.buff
    → (b' : PostBuffer) × (receive_all chunks b ≡ stored b') × (body b' ≡ body b ++ flatten chunks)
unfolding receive_all receive flatten
receive_all_fits [] b h = (b, refl, sym (append-nil (body b)))
receive_all_fits (chunk ∷ chunks) b h =
    let total = length-append chunk (flatten chunks) in
    let (b1, stored1, body1, size1, cursor1) = store_chunk_fits chunk b (omega (arith, total)) in
    let (b2, stored2, body2) = receive_all_fits chunks b1 (omega (arith, total)) in
    (
      b2,
      rw (stored1, receive_all) stored2,
      body2 ∙ ap (λ x. x ++ flatten chunks) body1 ∙ append_assoc (body b) chunk (flatten chunks),
    )

-- Chunks that do not fit together are refused, and the buffer is empty for the next request.
receive_all_over :
    (chunks : List Bytes) (b : PostBuffer)
    → IsBounded b
    → length b.buff < b.cursor + length (flatten chunks)
    → (b' : PostBuffer) × (receive_all chunks b ≡ too_large b') × (b'.cursor ≡ 0)
unfolding receive_all receive flatten
receive_all_over [] b bounded h = absurd (omega arith)
receive_all_over (chunk ∷ chunks) b bounded h =
    elim (dec_lt (length b.buff) (b.cursor + length chunk)) [
      | yes over ↦ (reset b, rw (store_chunk_over chunk b over, receive_all) refl, refl)
      | no fits ↦
          let total = length-append chunk (flatten chunks) in
          let (b1, stored1, body1, size1, cursor1) = store_chunk_fits chunk b (omega arith) in
          let (b2, over2, zero2) =
            receive_all_over chunks b1 (omega arith) (omega (arith, total)) in
          (b2, rw (stored1, receive_all) over2, zero2)
    ]

-- The same for the chunk of a request that is not aborted, as the handlers use it.
pub receive_final :
    (chunk : Bytes) (b : PostBuffer)
    → b.cursor + length chunk ≤ length b.buff
    → (b' : PostBuffer) × (receive data_final chunk b ≡ stored b')
      × (body b' ≡ body b ++ chunk)
      × (length b'.buff ≡ length b.buff)
      × (b'.cursor ≡ b.cursor + length chunk)
unfolding receive
receive_final chunk b h = store_chunk_fits chunk b h

pub Received-cases :
    (x : Received)
    → (((b : PostBuffer) × (x ≡ aborted b)) ⊎ ((b : PostBuffer) × (x ≡ too_large b)))
      ⊎ ((b : PostBuffer) × (x ≡ stored b))
Received-cases (aborted b) = inl (inl (b, refl))
Received-cases (too_large b) = inl (inr (b, refl))
Received-cases (stored b) = inr (b, refl)

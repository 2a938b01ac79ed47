-- ===== src/Web/Query/Lookup.antt =====
-- `query_get` of src/web/http_common.c looks a key up among the parameters between the `&`s.
use cedar_switch_3i3o_power.Common.{
  ℕ, zero, suc, ◌+◌, ◌-◌, ◌%◌, ◌^◌, ◌≤◌, ◌<◌, ◌≡◌, refl, sym, ◌∙◌, ap, subst, ◌≢◌, inl, inr, false,
  Option, none, some, List, [], ◌∷◌, ◌++◌, leb, if◌then◌else◌, arith, length, take,
  take_of_length-le, length-take, All, Bool-cases, Option-cases,
}
use cedar_switch_3i3o_power.Common.CString.{
  Bytes, bytes_eq, bytes_eq_iff, strchr, strchr_complete, strchr-none,
}
use cedar_switch_3i3o_power.Web.Path.Segments.{
  split_on, split_on-some, split_on-none, length-strchr,
}
use cedar_switch_3i3o_power.Web.Query.{amp_or_end, value_length, query_loop, query_get}
use cedar_switch_3i3o_power.Web.Query.Params.{lookup, NoAmp, eq_before_amp, lookup_no_eq, key_test}

take-take : (n m : ℕ) (s : Bytes) → n ≤ m → take n (take m s) ≡ take n s
take-take zero m s h = refl
take-take (suc n) zero s h = absurd (omega arith)
take-take (suc n) (suc m) [] h = refl
take-take (suc n) (suc m) (x ∷ s) h = ap (◌∷◌ x) (take-take n m s (omega arith))

abbrev pub cut : ℕ → Option Bytes → Option Bytes
cut n none = none
cut n (some v) = some (take n v)

-- The length that the code computes does not wrap, and cuts the value to the buffer.
take-value_length :
    (amp eq out_sz : ℕ) (value : Bytes)
    → eq < amp
    → amp < 2 ^ 32
    → 0 < out_sz
    → take (value_length amp eq out_sz) value ≡ take (out_sz - 1) (take (amp - (eq + 1)) value)
unfolding value_length
take-value_length amp eq out_sz value h k room =
    let n = amp - (eq + 1) in
    let plain : (amp + 2 ^ 32 - (eq + 1)) % 2 ^ 32 ≡ n = omega arith in
    rw (plain) (elim (Bool-cases (leb out_sz n)) [
      | inl e ↦ rw (e) (sym (take-take (out_sz - 1) n value (ground arith)))
      | inr e ↦ rw (e) (
          sym (take_of_length-le (out_sz - 1) (take n value) (ground (arith, length-take n value))))
    ])

query_loop_nil : (fuel : ℕ) (key : Bytes) (out_sz : ℕ) → query_loop fuel [] key out_sz ≡ none
unfolding query_loop
query_loop_nil zero key out_sz = refl
query_loop_nil (suc fuel) key out_sz = refl

lookup_nil : (key : Bytes) → lookup key [] ≡ none
unfolding lookup
lookup_nil key = refl

-- A round of the loop at a parameter with an `=` after it.
query_loop_round :
    (fuel c : ℕ) (cs key before value : Bytes) (out_sz : ℕ)
    → strchr (c ∷ cs) b'=' ≡ some (before, value)
    → query_loop (suc fuel) (c ∷ cs) key out_sz ≡ (
        if bytes_eq before key
        then some (
            take
              (value_length (amp_or_end (c ∷ cs) (strchr (c ∷ cs) b'&')).0 (length before) out_sz)
              value)
        else query_loop fuel (amp_or_end (c ∷ cs) (strchr (c ∷ cs) b'&')).1 key out_sz)
unfolding query_loop
query_loop_round fuel c cs key before value out_sz e =
    rw (e, query_loop) (rw (key_test (c ∷ cs) key before value e) refl)

query_loop_stop :
    (fuel c : ℕ) (cs key : Bytes) (out_sz : ℕ)
    → strchr (c ∷ cs) b'=' ≡ none
    → query_loop (suc fuel) (c ∷ cs) key out_sz ≡ none
unfolding query_loop
query_loop_stop fuel c cs key out_sz e = rw (e, query_loop) refl

lookup_round :
    (p key before value : Bytes) (ps : List Bytes)
    → strchr p b'=' ≡ some (before, value)
    → lookup key (p ∷ ps) ≡ (if bytes_eq before key then some value else lookup key ps)
unfolding lookup
lookup_round p key before value ps e = rw (e, lookup) refl

lookup_skip :
    (p key : Bytes) (ps : List Bytes) → strchr p b'=' ≡ none → lookup key (p ∷ ps) ≡ lookup key ps
unfolding lookup
lookup_skip p key ps e = rw (e, lookup) refl

bytes_eq_plain : (before key : Bytes) → NoAmp key → ¬ NoAmp before → bytes_eq before key ≡ false
bytes_eq_plain before key plain bad = elim (Bool-cases (bytes_eq before key)) [
  | inl e ↦ absurd (bad (subst NoAmp (sym ((bytes_eq_iff before key).0 e)) plain))
  | inr e ↦ e
]

query_loop-lookup :
    (fuel : ℕ) (q key : Bytes) (out_sz : ℕ)
    → length q < fuel
    → length q < 2 ^ 32
    → NoAmp key
    → 0 < out_sz
    → query_loop fuel q key out_sz ≡ cut (out_sz - 1) (lookup key (split_on b'&' q))
query_loop-lookup zero q key out_sz h k plain room = absurd (omega arith)
query_loop-lookup (suc fuel) [] key out_sz h k plain room =
    query_loop_nil (suc fuel) key out_sz
    ∙ ap (cut (out_sz - 1)) (sym (lookup_no_eq 1 key [] (omega arith) (strchr-none [] b'=' tt)))
query_loop-lookup (suc fuel) (c ∷ cs) key out_sz h k plain room =
    elim (Option-cases (strchr (c ∷ cs) b'=')) [
      | inl n ↦
          query_loop_stop fuel c cs key out_sz n
          ∙ ap (cut (out_sz - 1)) (sym (lookup_no_eq (suc fuel) key (c ∷ cs) h n))
      | inr ((before, value), e) ↦
          let len = length-strchr (c ∷ cs) b'=' before value e in
          elim (Option-cases (strchr (c ∷ cs) b'&')) [
            | inl m ↦
                rw
                  (
                    query_loop_round fuel c cs key before value out_sz e,
                    split_on-none b'&' (c ∷ cs) m,
                    lookup_round (c ∷ cs) key before value [] e,
                    m,
                  )
                  (ground (
                    arith,
                    take-value_length (length (c ∷ cs)) (length before) out_sz value (omega arith) k
                        room,
                    take_of_length-le (length (c ∷ cs) - (length before + 1)) value (omega arith),
                    query_loop_nil fuel key out_sz,
                    lookup_nil key,
                  ))
            | inr ((param, rest), f) ↦
                let len' = length-strchr (c ∷ cs) b'&' param rest f in
                let later =
                  query_loop-lookup fuel rest key out_sz (omega arith) (omega arith) plain room in
                rw
                  (
                    query_loop_round fuel c cs key before value out_sz e,
                    split_on-some b'&' (c ∷ cs) param rest f,
                    f,
                  )
                  (elim (eq_before_amp (c ∷ cs) before value param rest e f) [
                    | inl (lt, found) ↦
                        rw (lookup_round param key before _ (split_on b'&' rest) found) (
                          ground (
                            arith,
                            later,
                            take-value_length (length param) (length before) out_sz value lt
                                (omega arith) room,
                          ))
                    | inr (lt, skipped, bad) ↦
                        rw
                          (
                            lookup_skip param key (split_on b'&' rest) skipped,
                            bytes_eq_plain before key plain bad,
                          )
                          later
                  ])
          ]
    ]

-- For a key without `&`, in a URL shorter than 2 ^ 32 bytes, the call finds the value of the first
-- parameter of that name, cut to the buffer, and nothing where there is none.
pub query_get-lookup :
    (path q key : Bytes) (out_sz : ℕ)
    → All (λ x. x ≢ b'?') path
    → length q < 2 ^ 32
    → NoAmp key
    → 0 < out_sz
    → query_get (path ++ b'?' ∷ q) key out_sz ≡ cut (out_sz - 1) (lookup key (split_on b'&' q))
unfolding query_get
query_get-lookup path q key out_sz h k plain room =
    rw (strchr_complete path b'?' q h, query_get)
      (query_loop-lookup (suc (length q)) q key out_sz (omega arith) k plain room)

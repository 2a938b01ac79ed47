-- ===== src/Web/Query/Params.antt =====
-- The parameters in the query part of a URL, and where `query_get` of src/web/http_common.c looks for
-- their ends.
use cedar_switch_3i3o_power.Common.{
  ℕ, zero, suc, ◌+◌, ◌-◌, ◌<◌, ◌≡◌, refl, ap, ◌≢◌, ◌⊎◌, inl, inr, false, ◌&&◌, Option, none, some,
  List, [], ◌∷◌, ◌==◌, if◌then◌else◌, arith, length, take, All, Bool-cases, Option-cases,
}
use cedar_switch_3i3o_power.Common.CString.{Bytes, bytes_eq, bytes_eq_iff, strchr}
use cedar_switch_3i3o_power.Web.Path.Segments.{
  split_on, split_on-some, split_on-none, length-strchr,
}

-- The value of the first parameter `key=value`; a parameter without `=` has no name.
unfoldable pub lookup : Bytes → List Bytes → Option Bytes
lookup key [] = none
lookup key (p ∷ ps) = elim (strchr p b'=') [
  | none ↦ lookup key ps
  | some (name, value) ↦ if bytes_eq name key then some value else lookup key ps
]

abbrev pub NoAmp : Bytes → Type 0
NoAmp = All (λ x. x ≢ b'&')

take-strchr :
    (s : Bytes) (c : ℕ) (before after : Bytes)
    → strchr s c ≡ some (before, after)
    → take (length before) s ≡ before
unfolding strchr
take-strchr [] c before after h = cc
take-strchr (x ∷ xs) c before after h = elim (Option-cases (strchr xs c)) [
  | inl n ↦ ground arith
  | inr ((b, a), e) ↦ ground (arith, take-strchr xs c b a e)
]

-- Where the first `=` stands before the first `&`, the parameter has that name, and the value up
-- to the `&`; otherwise the parameter has no `=`, and what stands before the `=` has an `&`.
abbrev Split : Bytes → Bytes → Bytes → Type 0
Split before value param =
    ((length before < length param)
      × (strchr param b'=' ≡ some (before, take (length param - (length before + 1)) value)))
    ⊎ ((length param < length before) × (strchr param b'=' ≡ none) × (¬ NoAmp before))

Split-cons :
    (x : ℕ) (before value param : Bytes)
    → (x == b'=') ≡ false
    → Split before value param
    → Split (x ∷ before) value (x ∷ param)
unfolding strchr
Split-cons x before value param ne (inl (lt, e)) = inl (omega arith, ground arith)
Split-cons x before value param ne (inr (lt, e, bad)) =
    inr (omega arith, ground arith, λ a. bad a.1)

pub eq_before_amp :
    (q before value param rest : Bytes)
    → strchr q b'=' ≡ some (before, value)
    → strchr q b'&' ≡ some (param, rest)
    → Split before value param
unfolding strchr
eq_before_amp [] before value param rest h k = cc
eq_before_amp (x ∷ xs) before value param rest h k = elim (Bool-cases (x == b'=')) [
  | inl e ↦ elim (Option-cases (strchr xs b'&')) [
    | inl n ↦ absurd (ground arith)
    | inr ((p, r), f) ↦
        let here : before ≡ [] = ground arith in
        let all : value ≡ xs = ground arith in
        let param' : param ≡ x ∷ p = ground arith in
        rw (here, all, param') (inl (omega arith, ground (arith, take-strchr xs b'&' p r f)))
  ]
  | inr e ↦ elim (Option-cases (strchr xs b'=')) [
    | inl n ↦ absurd (ground arith)
    | inr ((b, v), g) ↦
        let before' : before ≡ x ∷ b = ground arith in
        let value' : value ≡ v = ground arith in
        rw (before', value')
          (elim (Bool-cases (x == b'&')) [
            | inl amp ↦
                let param' : param ≡ [] = ground arith in
                rw (param') (inr (omega arith, refl, λ a. a.0 (ground arith)))
            | inr other ↦ elim (Option-cases (strchr xs b'&')) [
              | inl n ↦ absurd (ground arith)
              | inr ((p, r), f) ↦
                  let param' : param ≡ x ∷ p = ground arith in
                  rw (param') (Split-cons x b v p e (eq_before_amp xs b v p r g f))
            ]
          ])
  ]
]

no_eq_parts :
    (q param rest : Bytes)
    → strchr q b'=' ≡ none
    → strchr q b'&' ≡ some (param, rest)
    → (strchr param b'=' ≡ none) × (strchr rest b'=' ≡ none)
unfolding strchr
no_eq_parts [] param rest h k = cc
no_eq_parts (x ∷ xs) param rest h k = elim (Option-cases (strchr xs b'=')) [
  | inr ((b, a), e) ↦ absurd (ground arith)
  | inl none_eq ↦ elim (Option-cases (strchr xs b'&')) [
    | inl n ↦ ground arith
    | inr ((p, r), e) ↦ ground (arith, no_eq_parts xs p r none_eq e)
  ]
]

pub lookup_no_eq :
    (fuel : ℕ) (key q : Bytes)
    → length q < fuel
    → strchr q b'=' ≡ none
    → lookup key (split_on b'&' q) ≡ none
unfolding lookup
lookup_no_eq zero key q h e = absurd (omega arith)
lookup_no_eq (suc fuel) key q h e = elim (Option-cases (strchr q b'&')) [
  | inl n ↦ rw (split_on-none b'&' q n, e, lookup)
  | inr ((param, rest), f) ↦
      let (here, later) = no_eq_parts q param rest e f in
      let len = length-strchr q b'&' param rest f in
      rw (split_on-some b'&' q param rest f, here, lookup)
        (lookup_no_eq fuel key rest (omega arith) later)
]

-- The code's test of the key, in one comparison.
pub key_test :
    (q key before value : Bytes)
    → strchr q b'=' ≡ some (before, value)
    → (length before == length key && bytes_eq (take (length key) q) key) ≡ bytes_eq before key
key_test q key before value h = elim (Bool-cases (length before == length key)) [
  | inl e ↦
      let same : length key ≡ length before = ground arith in
      rw (e, same, take-strchr q b'=' before value h) refl
  | inr e ↦ elim (Bool-cases (bytes_eq before key)) [
    | inl k ↦ absurd (ground (arith, ap length ((bytes_eq_iff before key).0 k)))
    | inr k ↦ rw (e, k)
  ]
]

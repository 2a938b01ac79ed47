-- ===== src/Mqtt/Incoming/Commands.antt =====
-- The command topics that the device subscribes to (src/mqtt/ha_mqtt_helpers.c) are read back as the
-- relays they were written for.
use cedar_switch_3i3o_power.Common.{
  ℕ, zero, suc, ◌≤◌, ◌≡◌, refl, ◌≢◌, Bool, true, false, some, [], ◌∷◌, ◌++◌, arith, All, length,
  length-append,
}
use cedar_switch_3i3o_power.Common.CString.{Bytes, codes}
use cedar_switch_3i3o_power.Common.Format.Decimal.{IsDigit}
use cedar_switch_3i3o_power.Mqtt.Incoming.{
  scan_set, scan_literal, is_digit, is_letter, not_slash, scan_topic,
}

-- A run of members, before a byte that is none, is read whole if it fits the width.
scan_set_run :
    (is_member : ℕ → Bool) (width : ℕ) (run : Bytes) (c : ℕ) (rest : Bytes)
    → All (λ x. is_member x ≡ true) run
    → is_member c ≡ false
    → length run ≤ width
    → scan_set width is_member (run ++ c ∷ rest) ≡ (run, c ∷ rest)
unfolding scan_set
scan_set_run is_member zero [] c rest all stop fits = refl
scan_set_run is_member (suc width) [] c rest all stop fits = rw (stop) refl
scan_set_run is_member zero (x ∷ run) c rest all stop fits = absurd (omega arith)
scan_set_run is_member (suc width) (x ∷ run) c rest (here, all) stop fits =
    rw (here, scan_set_run is_member width run c rest all stop (omega arith)) refl

digit_members : (ds : Bytes) → All IsDigit ds → All (λ c. is_digit c ≡ true) ds
digit_members [] h = tt
digit_members (c ∷ ds) (h, hs) = (ground arith, digit_members ds hs)

-- A name that no slash stands in.
abbrev pub NoSlash : Bytes → Type 0
NoSlash = All (λ c. c ≢ b'/')

slash_free : (s : Bytes) → NoSlash s → All (λ c. not_slash c ≡ true) s
slash_free [] h = tt
slash_free (c ∷ s) (h, hs) = (ground arith, slash_free s hs)

letters-cons :
    (w : ℕ) (devtype : Bytes) (c : ℕ) (rest : Bytes)
    → All (λ x. is_letter x ≡ true) devtype
    → length devtype ≤ w
    → IsDigit c
    → scan_set w is_letter (devtype ++ c ∷ rest) ≡ (devtype, c ∷ rest)
letters-cons w devtype c rest all fits digit =
    scan_set_run is_letter w devtype c rest all (ground arith) fits

-- A topic of three parts, each of the form that its conversion reads.
pub scan_topic_complete :
    (prefix devtype index : Bytes)
    → prefix ≢ []
    → NoSlash prefix
    → devtype ≢ []
    → All (λ x. is_letter x ≡ true) devtype
    → length devtype ≤ 31
    → index ≢ []
    → All IsDigit index
    → length index ≤ 7
    → scan_topic (prefix ++ b'/' ∷ (devtype ++ (index ++ codes "/set"))) ≡ some (devtype, index)
unfolding scan_topic
scan_topic_complete prefix devtype [] p ps d ds dl i is il = absurd (i refl)
scan_topic_complete [] devtype (c ∷ cs) p ps d ds dl i is il = absurd (p refl)
scan_topic_complete (x ∷ xs) [] (c ∷ cs) p ps d ds dl i is il = absurd (d refl)
scan_topic_complete (x ∷ xs) (y ∷ ys) (c ∷ cs) p ps d ds dl i is il =
    let text = (x ∷ xs) ++ b'/' ∷ ((y ∷ ys) ++ ((c ∷ cs) ++ codes "/set")) in
    let after = (y ∷ ys) ++ ((c ∷ cs) ++ codes "/set") in
    let first : scan_set (length text) not_slash text ≡ (x ∷ xs, b'/' ∷ after) =
      scan_set_run not_slash (length text) (x ∷ xs) b'/' after (slash_free (x ∷ xs) ps) refl
        (omega (arith, length-append (x ∷ xs) (b'/' ∷ after))) in
    let second : scan_set 31 is_letter after ≡ (y ∷ ys, (c ∷ cs) ++ codes "/set") =
      letters-cons 31 (y ∷ ys) c (cs ++ codes "/set") ds dl is.0 in
    let third : scan_set 7 is_digit ((c ∷ cs) ++ codes "/set") ≡ (c ∷ cs, codes "/set") =
      scan_set_run is_digit 7 (c ∷ cs) b'/' (codes "set") (digit_members (c ∷ cs) is) refl il in
    let slash : scan_literal (b'/' ∷ []) (b'/' ∷ after) ≡ some after =
      unfold scan_literal in refl in
    let last : scan_literal (codes "/set") (codes "/set") ≡ some [] = unfold scan_literal in refl in
    rw (first, slash, second, third, last) refl

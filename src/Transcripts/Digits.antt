-- ===== src/Transcripts/Digits.antt =====
-- Numbers spoken in parts: consolidateTranscripts of lib/utils/transcription-utils.js.
use jambonz_feature_server.Prelude.{
  ℕ, ◌≡◌, refl, sym, ap, ◌∙◌, Bool, true, false, not, ◌&&◌, ◌||◌, List, [], ◌∷◌, ◌++◌, ◌==◌,
  append_assoc, append-nil, if◌then◌else◌, Units, is_digit, is_space, all, and-true, arith,
  Bool-cases, inl, inr,
}
use mathlib.Core.List.{reverse, reverse-append, reverse-reverse}
use jambonz_feature_server.Tts.Scan.{trim, trim_start}
use jambonz_feature_server.Transcripts.{
  Transcript, strip_mark, remove_spaces, is_empty, digit_or_space, is_number, new_transcript,
  ends_in_digit, starts_with_digit, reduce, consolidate_transcripts,
}

-- The digits of a text, and whether it has one.
unfoldable pub digits : Units → Units
digits [] = []
digits (c ∷ text) = let rest = digits text in if is_digit c then c ∷ rest else rest

abbrev pub some_digit : Units → Bool
some_digit [] = false
some_digit (c ∷ text) = is_digit c || some_digit text

abbrev pub all_numbers : List Transcript → Bool
all_numbers [] = true
all_numbers (t ∷ ts) = (is_number t.transcript && some_digit t.transcript) && all_numbers ts

abbrev pub is_alone : List Transcript → Bool
is_alone [] = true
is_alone (_ ∷ _) = false

abbrev pub all_digits : List Transcript → Units
all_digits [] = []
all_digits (t ∷ ts) = digits t.transcript ++ all_digits ts

digit_is_no_space : (c : ℕ) → is_digit c ≡ true → is_space c ≡ false
unfolding is_digit is_space
digit_is_no_space c h = ground arith

digit_is_no_mark : (c : ℕ) → is_digit c ≡ true → (c == b',' || c == b'.') ≡ false
unfolding is_digit
digit_is_no_mark c h = ground arith

mark_is_no_space : (c : ℕ) → (c == b',' || c == b'.') ≡ true → is_space c ≡ false
unfolding is_space
mark_is_no_space c h = ground arith

mark_is_no_digit : (c : ℕ) → (c == b',' || c == b'.') ≡ true → is_digit c ≡ false
unfolding is_digit
mark_is_no_digit c h = ground arith

strip_mark-cons :
    (c : ℕ) (text : Units)
    → (c == b',' || c == b'.') ≡ false
    → strip_mark (c ∷ text) ≡ c ∷ strip_mark text
unfolding strip_mark
strip_mark-cons c [] h = rw h
strip_mark-cons c (d ∷ text) h = refl

digit_step :
    (c : ℕ) (text : Units)
    → digit_or_space c ≡ true
    → strip_mark (remove_spaces text) ≡ digits text
    → strip_mark (remove_spaces (c ∷ text)) ≡ digits (c ∷ text)
unfolding remove_spaces digits
digit_step c text h ih = elim (Bool-cases (is_digit c)) [
  | inl d ↦
      rw (digit_is_no_space c d, d)
        (strip_mark-cons c (remove_spaces text) (digit_is_no_mark c d) ∙ ap (λ r. c ∷ r) ih)
  | inr n ↦ let s : is_space c ≡ true = ground arith in rw (s, n) ih
]

mark_alone :
    (c : ℕ)
    → (c == b',' || c == b'.') ≡ true
    → strip_mark (remove_spaces (c ∷ [])) ≡ digits (c ∷ [])
unfolding strip_mark remove_spaces digits
mark_alone c m = rw (mark_is_no_space c m, mark_is_no_digit c m, strip_mark) (rw m)

none_left : strip_mark (remove_spaces []) ≡ digits []
unfolding strip_mark remove_spaces digits
none_left = refl

-- Stripped of its spaces and of a comma or period at the end, a number is its digits.
strip_number :
    (text : Units)
    → all digit_or_space (strip_mark text) ≡ true
    → strip_mark (remove_spaces text) ≡ digits text
unfolding strip_mark
strip_number [] h = none_left
strip_number (c ∷ []) h = elim (Bool-cases (c == b',' || c == b'.')) [
  | inl m ↦ mark_alone c m
  | inr n ↦ digit_step c [] (alone n) none_left
]
  where
    alone : (c == b',' || c == b'.') ≡ false → digit_or_space c ≡ true
    alone n = (and-true (digit_or_space c) true (rw n at h)).0
strip_number (c ∷ d ∷ text) h =
    let (first, rest) =
      and-true (digit_or_space c) (all digit_or_space (strip_mark (d ∷ text))) h in
    digit_step c (d ∷ text) first (strip_number (d ∷ text) rest)

new_transcript-digits : (text : Units) → is_number text ≡ true → new_transcript text ≡ digits text
unfolding new_transcript
new_transcript-digits text h =
    rw h (strip_number text (and-true (not (is_empty (strip_mark text))) _ h).1)

digits_are_digits : (text : Units) → all is_digit (digits text) ≡ true
unfolding digits
digits_are_digits [] = refl
digits_are_digits (c ∷ text) = ground (arith, digits_are_digits text)

is_empty-digits : (text : Units) → some_digit text ≡ true → is_empty (digits text) ≡ false
unfolding digits
is_empty-digits [] h = cc
is_empty-digits (c ∷ text) h = ground (arith, is_empty-digits text)

starts_with_digit_lem :
    (text : Units)
    → all is_digit text ≡ true
    → is_empty text ≡ false
    → starts_with_digit text ≡ true
unfolding starts_with_digit
starts_with_digit_lem [] a n = cc
starts_with_digit_lem (c ∷ text) a n = (and-true (is_digit c) _ a).0

ends_in_digit-cons :
    (c : ℕ) (text : Units) → ends_in_digit text ≡ true → ends_in_digit (c ∷ text) ≡ true
unfolding ends_in_digit
ends_in_digit-cons c [] h = cc
ends_in_digit-cons c (d ∷ text) h = h

ends_in_digit_lem :
    (text : Units) → all is_digit text ≡ true → is_empty text ≡ false → ends_in_digit text ≡ true
unfolding ends_in_digit
ends_in_digit_lem [] a n = cc
ends_in_digit_lem (c ∷ []) a n = (and-true (is_digit c) _ a).0
ends_in_digit_lem (c ∷ d ∷ text) a n =
    ends_in_digit_lem (d ∷ text) (and-true (is_digit c) (all is_digit (d ∷ text)) a).1 refl

ends_in_digit-append :
    (acc text : Units) → ends_in_digit text ≡ true → ends_in_digit (acc ++ text) ≡ true
ends_in_digit-append [] text h = h
ends_in_digit-append (c ∷ acc) text h =
    ends_in_digit-cons c (acc ++ text) (ends_in_digit-append acc text h)

-- A number that follows a digit is put next to it.
reduce_numbers :
    (speechmatics : Bool) (acc : Units) (ts : List Transcript)
    → ends_in_digit acc ≡ true
    → all_numbers ts ≡ true
    → reduce speechmatics acc ts ≡ acc ++ all_digits ts
unfolding reduce
reduce_numbers sm acc [] e h = sym (append-nil acc)
reduce_numbers sm acc (t ∷ ts) e h =
    let (first, rest) =
      and-true (is_number t.transcript && some_digit t.transcript) (all_numbers ts) h in
    let (number, some) = and-true (is_number t.transcript) (some_digit t.transcript) first in
    let ds : Units = digits t.transcript in
    let starts =
      starts_with_digit_lem ds (digits_are_digits t.transcript)
        (is_empty-digits t.transcript some) in
    let ends =
      ends_in_digit_lem ds (digits_are_digits t.transcript) (is_empty-digits t.transcript some) in
    let test : (sm || (ends_in_digit acc && starts_with_digit ds)) ≡ true =
      ground (arith, e, starts) in
    rw (new_transcript-digits t.transcript number, test)
      (reduce_numbers sm (acc ++ ds) ts (ends_in_digit-append acc ds ends) rest
        ∙ append_assoc acc ds (all_digits ts))

trim_start_lem : (text : Units) → all is_digit text ≡ true → trim_start text ≡ text
unfolding trim_start
trim_start_lem [] h = refl
trim_start_lem (c ∷ text) h = rw (digit_is_no_space c (and-true (is_digit c) _ h).0)

all-append-true :
    (xs ys : Units)
    → all is_digit xs ≡ true
    → all is_digit ys ≡ true
    → all is_digit (xs ++ ys) ≡ true
all-append-true [] ys a b = b
all-append-true (x ∷ xs) ys a b =
    let (first, rest) = and-true (is_digit x) (all is_digit xs) a in
    rw (first, all-append-true xs ys rest b)

all-reverse : (xs : Units) → all is_digit xs ≡ true → all is_digit (reverse xs) ≡ true
all-reverse [] h = refl
all-reverse (x ∷ xs) h =
    let (first, rest) = and-true (is_digit x) (all is_digit xs) h in
    rw (reverse-append (x ∷ []) xs)
      (all-append-true (reverse xs) (x ∷ []) (all-reverse xs rest) (rw first))

trim_lem : (text : Units) → all is_digit text ≡ true → trim text ≡ text
unfolding trim
trim_lem text h =
    rw (trim_start_lem text h, trim_start_lem (reverse text) (all-reverse text h))
      (reverse-reverse text)

trim-space : (text : Units) → trim (32 ∷ text) ≡ trim text
unfolding trim trim_start
trim-space text = refl

all-all_digits : (ts : List Transcript) → all is_digit (all_digits ts) ≡ true
all-all_digits [] = refl
all-all_digits (t ∷ ts) =
    all-append-true (digits t.transcript) (all_digits ts) (digits_are_digits t.transcript)
      (all-all_digits ts)

-- From its first number on, what is put together is that number and the digits of the others.
reduce_from_number :
    (speechmatics : Bool) (acc : Units) (t : Transcript) (ts : List Transcript)
    → all_numbers (t ∷ ts) ≡ true
    → reduce speechmatics (acc ++ digits t.transcript) ts ≡ acc ++ all_digits (t ∷ ts)
reduce_from_number sm acc t ts h =
    let (first, rest) =
      and-true (is_number t.transcript && some_digit t.transcript) (all_numbers ts) h in
    let (_, some) = and-true (is_number t.transcript) (some_digit t.transcript) first in
    let ds : Units = digits t.transcript in
    let ends =
      ends_in_digit_lem ds (digits_are_digits t.transcript) (is_empty-digits t.transcript some) in
    reduce_numbers sm (acc ++ ds) ts (ends_in_digit-append acc ds ends) rest
    ∙ append_assoc acc ds (all_digits ts)

first_number :
    (t : Transcript) (ts : List Transcript)
    → all_numbers (t ∷ ts) ≡ true
    → is_number t.transcript ≡ true
first_number t ts h =
    (and-true (is_number t.transcript) (some_digit t.transcript)
      (and-true (is_number t.transcript && some_digit t.transcript) (all_numbers ts) h).0).0

trim-reduce :
    (speechmatics : Bool) (t : Transcript) (ts : List Transcript)
    → all_numbers (t ∷ ts) ≡ true
    → trim (reduce speechmatics [] (t ∷ ts)) ≡ all_digits (t ∷ ts)
unfolding reduce ends_in_digit
trim-reduce true t ts h = rw (new_transcript-digits t.transcript (first_number t ts h)) (
    ap trim (reduce_from_number true [] t ts h)
    ∙ trim_lem (all_digits (t ∷ ts)) (all-all_digits (t ∷ ts)))
trim-reduce false t ts h = rw (new_transcript-digits t.transcript (first_number t ts h)) (
    ap trim (reduce_from_number false (32 ∷ []) t ts h)
    ∙ trim-space (all_digits (t ∷ ts))
    ∙ trim_lem (all_digits (t ∷ ts)) (all-all_digits (t ∷ ts)))

-- Where each of the transcripts is a number, that is digits and spaces with at least one digit and
-- perhaps a comma or a period at the end, two or more of them make the text of their digits in
-- order, with nothing between, and a single one is kept as it is.
pub consolidate_numbers :
    (speechmatics : Bool) (t : Transcript) (ts : List Transcript)
    → all_numbers (t ∷ ts) ≡ true
    → (consolidate_transcripts speechmatics (t ∷ ts)).transcript
      ≡ (if is_alone ts then t.transcript else all_digits (t ∷ ts))
unfolding consolidate_transcripts
consolidate_numbers sm t [] h = refl
consolidate_numbers sm t (u ∷ ts) h = trim-reduce sm t (u ∷ ts) h

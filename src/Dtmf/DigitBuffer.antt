-- ===== src/Dtmf/DigitBuffer.antt =====
-- lib/tasks/dialogflow/digit-buffer.js. `armed` says that the inter-digit timer is running; `out`
-- holds what was reported by the event `fulfilled`, oldest first.
use jambonz_feature_server.Prelude.{
  ℕ, zero, suc, Bool, true, false, Option, none, some, List, [], ◌∷◌, ◌++◌, Units, units, ◌==◌, leb,
  length, drop, is_prefix, same, if◌then◌else◌,
}

pub record Opts : Type 0 where
  pub min : Option ℕ
  pub max : Option ℕ
  pub term : Option Units
  pub idt : Option ℕ
  pub template : Option Units

pub record DigitBuffer : Type 0 where
  pub min_digits : ℕ
  pub max_digits : ℕ
  pub term_digit : Option Units
  pub interdigit_timeout : ℕ
  pub template : Option Units
  pub buffer : Units
  pub armed : Bool
  pub out : List Units

-- `x || d` for a number that may be missing.
abbrev pub or_default : Option ℕ → ℕ → ℕ
or_default none d = d
or_default (some zero) d = d
or_default (some (suc n)) d = suc n

-- `new DigitBuffer(logger, opts)`
unfoldable pub create : Opts → DigitBuffer
create opts = record {
  min_digits = or_default opts.min 1;
  max_digits = or_default opts.max 99;
  term_digit = opts.term;
  interdigit_timeout = or_default opts.idt 8000;
  template = opts.template;
  buffer = [];
  armed = false;
  out = [];
}

abbrev pub placeholder : Units
placeholder = units "${digits}"

-- `text.replace(pattern, by)` for a text pattern, `none` where the pattern does not occur.
unfoldable pub replace_first : Units → Units → Units → Option Units
replace_first pattern by [] = if is_prefix pattern [] then some by else none
replace_first pattern by (c ∷ text) =
    let later = replace_first pattern by text in
    if is_prefix pattern (c ∷ text)
    then some (by ++ drop (length pattern) (c ∷ text))
    else (elim later [ none ↦ none | some r ↦ some (c ∷ r) ])

-- What `_fulfill` reports.
unfoldable pub report : Option Units → Units → Units
unfolding replace_first
report none digits = digits
report (some t) digits = elim (replace_first placeholder digits t) [ none ↦ digits | some r ↦ r ]

-- `flush`
unfoldable pub flush : DigitBuffer → DigitBuffer
flush b = record b { armed = false; buffer = [] }

-- `_fulfill`
unfoldable pub fulfill : DigitBuffer → DigitBuffer
unfolding flush
fulfill b = flush (record b { out = b.out ++ report b.template b.buffer ∷ [] })

abbrev pub is_term : Option Units → Units → Bool
is_term none digit = false
is_term (some t) digit = same digit t

-- `process`
unfoldable pub process : Units → DigitBuffer → DigitBuffer
unfolding fulfill
process digit b =
    let more = record b { buffer = b.buffer ++ digit } in
    if is_term b.term_digit digit
    then fulfill b
    else if length more.buffer == b.max_digits
    then fulfill more
    else if leb b.min_digits (length more.buffer)
    then record more { armed = true }
    else more

-- `_onInterDigitTimeout`, which runs when the timer was armed.
unfoldable pub on_inter_digit_timeout : DigitBuffer → DigitBuffer
unfolding fulfill
on_inter_digit_timeout b = fulfill (record b { armed = false })

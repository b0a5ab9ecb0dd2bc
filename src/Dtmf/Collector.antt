-- ===== src/Dtmf/Collector.antt =====
-- lib/utils/dtmf-collector.js
use jambonz_feature_server.Prelude.{
  ℕ, zero, suc, ◌-◌, Bool, Option, none, some, List, [], ◌∷◌, ◌++◌, Units, ltb, is_suffix,
  if◌then◌else◌,
}

-- `DtmfEntry`
pub record DtmfEntry : Type 0 where
  pub key : Units
  pub time : ℕ

-- `DtmfCollector`; the buffer is kept in the order of the key presses.
pub record DtmfCollector : Type 0 where
  pub patterns : List Units
  pub idt : ℕ
  pub buffer : List DtmfEntry

-- `new DtmfCollector({patterns, interDigitTimeout})`
unfoldable pub create : List Units → Option ℕ → DtmfCollector
create patterns none = record { patterns = patterns; idt = 3000; buffer = [] }
create patterns (some zero) = record { patterns = patterns; idt = 3000; buffer = [] }
create patterns (some (suc n)) = record { patterns = patterns; idt = suc n; buffer = [] }

-- Whether the last entry, which `pop` takes off and `push` puts back, is recent enough.
unfoldable pub is_fresh : ℕ → ℕ → List DtmfEntry → Bool
is_fresh idt now [] = Bool.true
is_fresh idt now (e ∷ []) = ltb (now - e.time) idt
is_fresh idt now (e ∷ f ∷ es) = is_fresh idt now (f ∷ es)

abbrev pub collected : List DtmfEntry → Units
collected [] = []
collected (e ∷ es) = e.key ++ collected es

-- `patterns.find((pattern) => collectedDigits.endsWith(pattern))`
unfoldable pub find_pattern : Units → List Units → Option Units
find_pattern digits [] = none
find_pattern digits (p ∷ ps) =
    let later = find_pattern digits ps in if is_suffix p digits then some p else later

-- The buffer that a key press leaves.
unfoldable pub with_key : Units → ℕ → DtmfCollector → List DtmfEntry
unfolding is_fresh
with_key key now c =
    (if is_fresh c.idt now c.buffer then c.buffer else []) ++ record { key = key; time = now } ∷ []

-- `keyPress`
unfoldable pub key_press : Units → ℕ → DtmfCollector → DtmfCollector × Option Units
key_press key now c = (
  record c { buffer = with_key key now c },
  find_pattern (collected (with_key key now c)) c.patterns,
)

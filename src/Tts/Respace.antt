-- ===== src/Tts/Respace.antt =====
-- What `replace(/\n\n/g, '\n \n')` of lib/utils/tts-streaming-buffer.js achieves.
use jambonz_feature_server.Prelude.{◌≡◌, refl, Bool, false, ◌&&◌, ◌||◌, [], ◌∷◌, Units, ◌==◌, arith}
use jambonz_feature_server.Tts.Scan.{newline, respace, is_whitespace}

-- Whether the text has two newlines, or three, in a row.
abbrev pub has_double : Units → Bool
has_double [] = false
has_double (c ∷ []) = false
has_double (c ∷ d ∷ text) = (c == newline && d == newline) || has_double (d ∷ text)

abbrev pub has_triple : Units → Bool
has_triple [] = false
has_triple (c ∷ []) = false
has_triple (c ∷ d ∷ []) = false
has_triple (c ∷ d ∷ e ∷ text) =
    (c == newline && d == newline && e == newline) || has_triple (d ∷ e ∷ text)

-- For any text, the replacement of two newlines leaves two newlines in a row exactly if the text
-- had three in a row.
pub respace-double : (text : Units) → has_double (respace text) ≡ has_triple text
unfolding respace
respace-double [] = refl
respace-double (c ∷ []) = refl
respace-double (c ∷ d ∷ []) = ground arith
respace-double (c ∷ d ∷ e ∷ []) = ground (arith, respace-double (d ∷ e ∷ []))
respace-double (c ∷ d ∷ e ∷ f ∷ text) =
    ground (arith, respace-double (e ∷ f ∷ text), respace-double (d ∷ e ∷ f ∷ text))

-- The replacement adds spaces only.
pub is_whitespace-respace : (text : Units) → is_whitespace (respace text) ≡ is_whitespace text
unfolding respace is_whitespace
is_whitespace-respace [] = refl
is_whitespace-respace (c ∷ []) = refl
is_whitespace-respace (c ∷ d ∷ text) =
    ground (arith, is_whitespace-respace text, is_whitespace-respace (d ∷ text))

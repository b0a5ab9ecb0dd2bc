-- ===== src/Transcripts.antt =====
-- lib/utils/transcription-utils.js: how the transcripts of several events become one. A transcript is
-- the first alternative of an event. Confidences are whole numbers of some small unit, and the mean
-- that the code divides out is kept as its sum and its count. `language_code`, `channel_tag` and the
-- copy of the events are passed through by the code and left out here.
pub mod Digits
pub mod Punctuation
mod Examples
use jambonz_feature_server.Prelude.{
  ℕ, suc, ◌+◌, Bool, true, false, not, ◌&&◌, ◌||◌, List, [], ◌∷◌, ◌++◌, ◌==◌, Units, units,
  is_digit, is_space, all, same, if◌then◌else◌,
}
use jambonz_feature_server.Tts.Scan.{trim}

pub record Transcript : Type 0 where
  pub transcript : Units
  pub confidence : ℕ
  pub is_final : Bool

pub record Mean : Type 0 where
  pub total : ℕ
  pub count : ℕ

pub record Speech : Type 0 where
  pub transcript : Units
  pub confidence : Mean
  pub is_final : Bool

-- Without its last unit, if that is a comma or a period.
unfoldable pub strip_mark : Units → Units
strip_mark [] = []
strip_mark (c ∷ []) = if c == b',' || c == b'.' then [] else c ∷ []
strip_mark (c ∷ d ∷ text) = c ∷ strip_mark (d ∷ text)

-- `replace(/\s/g, '')`
unfoldable pub remove_spaces : Units → Units
remove_spaces [] = []
remove_spaces (c ∷ text) = let rest = remove_spaces text in if is_space c then rest else c ∷ rest

abbrev pub is_empty : Units → Bool
is_empty [] = true
is_empty (_ ∷ _) = false

abbrev pub digit_or_space : ℕ → Bool
digit_or_space c = is_digit c || is_space c

-- `match(/^[\d\s]+[,.]?$/)`
unfoldable pub is_number : Units → Bool
unfolding strip_mark
is_number text = not (is_empty (strip_mark text)) && all digit_or_space (strip_mark text)

unfoldable pub new_transcript : Units → Units
unfolding is_number remove_spaces strip_mark
new_transcript text = if is_number text then strip_mark (remove_spaces text) else text

-- `slice(-1).match(/\d/)` and `charAt(0).match(/\d/)`
unfoldable pub ends_in_digit : Units → Bool
ends_in_digit [] = false
ends_in_digit (c ∷ []) = is_digit c
ends_in_digit (c ∷ d ∷ text) = ends_in_digit (d ∷ text)

unfoldable pub starts_with_digit : Units → Bool
starts_with_digit [] = false
starts_with_digit (c ∷ text) = is_digit c

abbrev pub joined : Bool → Units → Units → Units
joined speechmatics acc text =
    if speechmatics || (ends_in_digit acc && starts_with_digit text)
    then acc ++ text
    else acc ++ 32 ∷ text

-- The loop over the transcripts.
unfoldable pub reduce : Bool → Units → List Transcript → Units
unfolding new_transcript ends_in_digit starts_with_digit
reduce speechmatics acc [] = acc
reduce speechmatics acc (t ∷ ts) =
    reduce speechmatics (joined speechmatics acc (new_transcript t.transcript)) ts

unfoldable pub mean : List Transcript → Mean
mean [] = record { total = 0; count = 0 }
mean (t ∷ ts) = record { total = t.confidence + (mean ts).total; count = suc (mean ts).count }

-- `consolidateTranscripts`; the first argument is `vendor === 'speechmatics'`.
unfoldable pub consolidate_transcripts : Bool → List Transcript → Speech
unfolding reduce trim mean
consolidate_transcripts speechmatics (t ∷ []) = record {
  transcript = t.transcript;
  confidence = mean (t ∷ []);
  is_final = true;
}
consolidate_transcripts speechmatics ts = record {
  transcript = trim (reduce speechmatics [] ts);
  confidence = mean ts;
  is_final = true;
}

-- A word of Soniox.
pub record Word : Type 0 where
  pub text : Units
  pub confidence : ℕ

abbrev pub is_end : Word → Bool
is_end w = same w.text (units "<end>")

-- `[',', '.', '?', '!'].includes(word.text)`
unfoldable pub is_mark : Word → Bool
is_mark w =
    same w.text (units ",")
    || same w.text (units ".")
    || same w.text (units "?")
    || same w.text (units "!")

-- `![',.!?;'].includes(word.text) && word.text !== '<end>'`
unfoldable pub is_real : Word → Bool
is_real w = not (same w.text (units ",.!?;")) && not (is_end w)

unfoldable pub flat : List (List Word) → List Word
flat [] = []
flat (ws ∷ chunks) = ws ++ flat chunks

abbrev pub append_word : Units → Word → Units
append_word acc w =
    if is_end w then acc else if is_mark w then acc ++ w.text else acc ++ 32 ∷ w.text

unfoldable pub words_text : Units → List Word → Units
unfolding is_mark
words_text acc [] = acc
words_text acc (w ∷ ws) = words_text (append_word acc w) ws

unfoldable pub words_mean : List Word → Mean
unfolding is_real
words_mean [] = record { total = 0; count = 0 }
words_mean (w ∷ ws) =
    let rest = words_mean ws in
    if is_real w then record { total = w.confidence + rest.total; count = suc rest.count } else rest

-- `compileSonioxTranscripts`
unfoldable pub compile_soniox_transcripts : List (List Word) → Speech
unfolding flat words_text words_mean trim
compile_soniox_transcripts chunks = record {
  transcript = trim (words_text [] (flat chunks));
  confidence = words_mean (flat chunks);
  is_final = true;
}

-- ===== src/Transcripts/Examples.antt =====
-- Transcripts that lib/utils/transcription-utils.js puts together.
use jambonz_feature_server.Prelude.{
  ◌≡◌, refl, true, false, [], ◌∷◌, Units, units, is_digit, is_space,
}
use jambonz_feature_server.Transcripts.{
  Transcript, Word, consolidate_transcripts, compile_soniox_transcripts, is_number,
}
use jambonz_feature_server.Transcripts.Digits.{digits, consolidate_numbers}

abbrev heard : Units → Transcript
heard text = record { transcript = text; confidence = 90; is_final = true }

abbrev word : Units → Word
word text = record { text = text; confidence = 80 }

consolidate_numbers_example :
    (consolidate_transcripts false (heard (units "5 5 5.") ∷ heard (units "12") ∷ [])).transcript
    ≡ units "55512"
unfolding digits is_number is_digit is_space
consolidate_numbers_example =
    consolidate_numbers false (heard (units "5 5 5.")) (heard (units "12") ∷ []) refl

words_are_spaced :
    (consolidate_transcripts false (heard (units "room") ∷ heard (units "1 2") ∷ [])).transcript
    ≡ units "room 12"
unfolding consolidate_transcripts is_digit
words_are_spaced = refl

soniox_text :
    (compile_soniox_transcripts (
      (word (units "hello") ∷ word (units ",") ∷ [])
      ∷ (word (units "you") ∷ word (units "<end>") ∷ [])
      ∷ [])).transcript
    ≡ units "hello, you"
unfolding compile_soniox_transcripts
soniox_text = refl

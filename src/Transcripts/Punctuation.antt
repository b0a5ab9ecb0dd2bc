-- ===== src/Transcripts/Punctuation.antt =====
-- The confidence of lib/utils/transcription-utils.js for the words of Soniox.
use jambonz_feature_server.Prelude.{
  suc, ◌+◌, ◌≡◌, ap, ◌∙◌, true, not, ◌&&◌, ◌||◌, List, [], ◌∷◌, ◌++◌, append_assoc, append-nil, sym,
  Units, units, same, arith,
}
use jambonz_feature_server.Transcripts.{
  Word, is_mark, is_real, words_mean, flat, compile_soniox_transcripts,
}

mark_is_no_list :
    (t : Units)
    → (same t (units ",") || same t (units ".") || same t (units "?") || same t (units "!")) ≡ true
    → (not (same t (units ",.!?;")) && not (same t (units "<end>"))) ≡ true
mark_is_no_list [] h = cc
mark_is_no_list (c ∷ []) h = ground arith
mark_is_no_list (c ∷ d ∷ t) h = ground arith

is_mark-is_real : (w : Word) → is_mark w ≡ true → is_real w ≡ true
unfolding is_mark is_real
is_mark-is_real w h = mark_is_no_list w.text h

flat-append : (cs : List (List Word)) (ws : List Word) → flat (cs ++ ws ∷ []) ≡ flat cs ++ ws
unfolding flat
flat-append [] ws = append-nil ws
flat-append (c ∷ cs) ws = ap (λ r. c ++ r) (flat-append cs ws) ∙ sym (append_assoc c (flat cs) ws)

words_mean-append :
    (ws : List Word) (w : Word)
    → is_real w ≡ true
    → words_mean (ws ++ w ∷ [])
      ≡ record { total = (words_mean ws).total + w.confidence; count = suc (words_mean ws).count }
unfolding words_mean
words_mean-append [] w h = ground arith
words_mean-append (v ∷ ws) w h = ground (arith, words_mean-append ws w h)

-- Whatever chunks of words came before, a chunk that is one comma, period, question mark or
-- exclamation mark adds its confidence to the sum and one to the count that make the confidence of
-- the transcript.
pub mark_counts :
    (chunks : List (List Word)) (w : Word)
    → is_mark w ≡ true
    → (compile_soniox_transcripts (chunks ++ (w ∷ []) ∷ [])).confidence ≡ record {
      total = (compile_soniox_transcripts chunks).confidence.total + w.confidence;
      count = suc (compile_soniox_transcripts chunks).confidence.count;
    }
unfolding compile_soniox_transcripts
mark_counts chunks w h =
    rw (flat-append chunks (w ∷ [])) (words_mean-append (flat chunks) w (is_mark-is_real w h))

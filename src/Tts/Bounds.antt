-- ===== src/Tts/Bounds.antt =====
-- Where the scanners of lib/utils/tts-streaming-buffer.js find a boundary.
use jambonz_feature_server.Prelude.{
  ℕ, zero, suc, ◌+◌, ◌-◌, ◌≤◌, ◌<◌, ◌≡◌, inl, inr, Bool, true, false, not, ◌&&◌, ◌||◌, Option, none,
  some, [], ◌∷◌, Units, ◌==◌, ltb, length, arith, if◌then◌else◌, is_space, Bool-cases,
}
use Prim.Native.Nat.{min}
use jambonz_feature_server.Tts.Scan.{
  match_at, is_boundary, sentence_from, find_sentence_boundary, word_from, find_word_boundary,
}
use jambonz_feature_server.Tts.Buffer.{max_chunk_size}
use jambonz_feature_server.Tts.Feed.{chunk_end}

match_at-le : (text : Units) → match_at text ≤ length text
unfolding match_at
match_at-le [] = omega arith
match_at-le (c ∷ []) = ground arith
match_at-le (c ∷ d ∷ text) = ground arith

match_at-le_two : (text : Units) → match_at text ≤ 2
unfolding match_at
match_at-le_two [] = omega arith
match_at-le_two (c ∷ text) = ground arith

-- The end of the last boundary lies in the text, and at most one unit past the limit.
abbrev Within : ℕ → ℕ → Option ℕ → Type 0
Within limit size none = Unit
Within limit size (some e) = (e ≤ limit + 1) × (e ≤ size)

accepted-Within :
    (text : Units) (limit pos n : ℕ) (last : Option ℕ)
    → pos + n ≤ length text
    → n ≤ 2
    → (n == 0 || ltb pos limit) ≡ true
    → Within limit (length text) last
    → Within limit
        (length text)
        (if is_boundary text pos n && not (n == 0) then some (pos + n) else last)
accepted-Within text limit pos n last h two going w = ground arith

started-Within :
    (limit size pos : ℕ) (starts : Bool) (last : Option ℕ)
    → pos < size
    → (starts && not (ltb pos limit)) ≡ false
    → Within limit size last
    → Within limit size (if starts then some pos else last)
started-Within limit size pos starts last h going w = ground arith

sentence_from-Within :
    (text : Units) (limit pos skip : ℕ) (last : Option ℕ) (rest : Units)
    → pos + length rest ≡ length text
    → Within limit (length text) last
    → Within limit (length text) (sentence_from text limit pos skip last rest)
unfolding sentence_from
sentence_from-Within text limit pos skip last [] h w = w
sentence_from-Within text limit pos (suc skip) last (c ∷ rest) h w =
    sentence_from-Within text limit (pos + 1) skip last rest (omega arith) w
sentence_from-Within text limit pos zero last (c ∷ rest) h w =
    elim (Bool-cases (match_at (c ∷ rest) == 0 || ltb pos limit)) [
      | inl going ↦ rw going (
          sentence_from-Within text limit (pos + 1) (match_at (c ∷ rest) - 1) _ rest (omega arith) (
            accepted-Within text limit pos (match_at (c ∷ rest)) last
              (omega (arith, match_at-le (c ∷ rest))) (match_at-le_two (c ∷ rest)) going w))
      | inr over ↦ rw over w
    ]

-- A sentence boundary is a positive position of the text, at most one unit past the limit.
find_sentence_boundary-Within :
    (text : Units) (limit : ℕ) → Within limit (length text) (find_sentence_boundary text limit)
unfolding find_sentence_boundary
find_sentence_boundary-Within text limit =
    sentence_from-Within text limit 0 0 none text (omega arith) tt

word_from-Within :
    (limit size pos : ℕ) (inside : Bool) (last : Option ℕ) (rest : Units)
    → pos + length rest ≡ size
    → Within limit size last
    → Within limit size (word_from limit pos inside last rest)
unfolding word_from
word_from-Within limit size pos inside last [] h w = w
word_from-Within limit size pos inside last (c ∷ rest) h w =
    elim (Bool-cases ((is_space c && not inside) && not (ltb pos limit))) [
      | inl over ↦ rw over w
      | inr going ↦ rw going (
          word_from-Within limit size (pos + 1) (is_space c) _ rest (omega arith)
            (started-Within limit size pos (is_space c && not inside) last (omega arith) going w))
    ]

find_word_boundary-Within :
    (text : Units) (limit : ℕ) → Within limit (length text) (find_word_boundary text limit)
unfolding find_word_boundary
find_word_boundary-Within text limit =
    word_from-Within limit (length text) 0 false none text (omega arith) tt

-- Where a chunk of a text is found, its end is more than 0, at most the length of the text, and at
-- most one more than `MAX_CHUNK_SIZE`.
pub chunk_end-le :
    (handling : Bool) (combined : Units) (e : ℕ)
    → chunk_end handling combined ≡ some e
    → (0 < e) × (e ≤ length combined) × (e ≤ max_chunk_size + 1)
unfolding chunk_end
chunk_end-le handling combined e h = ground (
  arith,
  find_sentence_boundary-Within combined (min max_chunk_size (length combined)),
  find_word_boundary-Within combined (min max_chunk_size (length combined)),
)

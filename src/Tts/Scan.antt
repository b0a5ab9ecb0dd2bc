-- ===== src/Tts/Scan.antt =====
-- The text scanners of lib/utils/tts-streaming-buffer.js. A text is its list of code units.
use mathlib.Core.List.{reverse}
use jambonz_feature_server.Prelude.{
  ℕ, zero, suc, ◌+◌, ◌-◌, Bool, true, false, not, ◌&&◌, ◌||◌, Option, none, some, [], ◌∷◌, Units,
  is_space, is_digit, ◌==◌, ltb, all, length, take, get_elem?, if◌then◌else◌,
}

abbrev pub newline : ℕ
newline = 10

-- `/^\s*$/.test(str)`
unfoldable pub is_whitespace : Units → Bool
unfolding is_space
is_whitespace text = all is_space text

unfoldable pub trim_start : Units → Units
trim_start [] = []
trim_start (c ∷ text) = let rest = trim_start text in if is_space c then rest else c ∷ text

unfoldable pub trim : Units → Units
unfolding trim_start is_space
trim text = reverse (trim_start (reverse (trim_start text)))

-- `text.replace(/\n\n/g, '\n \n')`: matches do not overlap.
unfoldable pub respace : Units → Units
respace [] = []
respace (c ∷ []) = c ∷ []
respace (c ∷ d ∷ text) =
    let pair = c ∷ 32 ∷ d ∷ respace text in
    let single = c ∷ respace (d ∷ text) in if c == newline && d == newline then pair else single

-- `[.!?` with the Arabic question mark and full stop `]`
unfoldable pub is_stop : ℕ → Bool
is_stop c = c == b'.' || c == b'!' || c == b'?' || c == 0x61f || c == 0x6d4

-- The ideographic full stop, and the full-width exclamation and question marks.
unfoldable pub is_wide_stop : ℕ → Bool
is_wide_stop c = c == 0x3002 || c == 0xff01 || c == 0xff1f

-- `(?=\s|$)`
unfoldable pub space_or_end : Units → Bool
space_or_end [] = true
space_or_end (c ∷ _) = is_space c

unfoldable pub starts_newline : Units → Bool
starts_newline [] = false
starts_newline (c ∷ _) = c == newline

-- The length of the match of `sentenceEndRegex` that begins at the head of the text; 0 for none.
unfoldable pub match_at : Units → ℕ
unfolding is_stop is_wide_stop space_or_end starts_newline is_space
match_at [] = 0
match_at (c ∷ text) =
    if (is_stop c && space_or_end text) || is_wide_stop c
    then 1
    else if c == newline && starts_newline text
    then 2
    else 0

unfoldable pub digit_at : Option ℕ → Bool
digit_at none = false
digit_at (some c) = is_digit c

-- The two nested tests on a match at `index` of length `n`.
unfoldable pub is_boundary : Units → ℕ → ℕ → Bool
unfolding trim digit_at is_digit
is_boundary text index n =
    ltb 0 (length (trim (take index text)))
    && (n == 2 || index == 0 || not (digit_at (get_elem? text (index - 1))))

-- The `exec` loop of `findSentenceBoundary`: `rest` is the text from `pos` on, of which the regex
-- skips the first `skip` units because the last match took them.
unfoldable pub sentence_from : Units → ℕ → ℕ → ℕ → Option ℕ → Units → Option ℕ
sentence_from text limit pos skip last [] = last
sentence_from text limit pos (suc skip) last (c ∷ rest) =
    sentence_from text limit (pos + 1) skip last rest
sentence_from text limit pos zero last (c ∷ rest) =
    let n = match_at (c ∷ rest) in
    let next =
      sentence_from text limit (pos + 1) (n - 1)
        (if is_boundary text pos n && not (n == 0) then some (pos + n) else last) rest in
    if n == 0 || ltb pos limit then next else last

-- `none` is the source's -1.
unfoldable pub find_sentence_boundary : Units → ℕ → Option ℕ
unfolding sentence_from match_at is_boundary
find_sentence_boundary text limit = sentence_from text limit 0 0 none text

-- The `exec` loop over `/\s+/g`; `inside` says that the unit before `pos` is part of a run.
unfoldable pub word_from : ℕ → ℕ → Bool → Option ℕ → Units → Option ℕ
word_from limit pos inside last [] = last
word_from limit pos inside last (c ∷ rest) =
    let starts = is_space c && not inside in
    let next = word_from limit (pos + 1) (is_space c) (if starts then some pos else last) rest in
    if starts && not (ltb pos limit) then last else next

unfoldable pub find_word_boundary : Units → ℕ → Option ℕ
unfolding word_from is_space
find_word_boundary text limit = word_from limit 0 false none text

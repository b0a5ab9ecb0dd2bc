-- ===== src/Tts/Queue.antt =====
-- How `_feedQueue` of lib/utils/tts-streaming-buffer.js takes text off the queue.
use jambonz_feature_server.Prelude.{
  ℕ, zero, suc, ◌-◌, ◌≤◌, ◌≡◌, refl, sym, ap, ◌∙◌, inl, inr, List, [], ◌∷◌, ◌++◌, append_assoc,
  Units, leb, leb→le, leb_false→lt, length, take, drop, length-append, take-append-drop, Bool-cases,
  arith,
}
use jambonz_feature_server.Tts.Buffer.{Item, spoken, flush_marker, max_chunk_size}
use jambonz_feature_server.Tts.Feed.{texts, shift_flush, combine, consume}

pub texts-append : (p q : List Item) → texts (p ++ q) ≡ texts p ++ texts q
texts-append [] q = refl
texts-append (spoken t ∷ p) q = rw (texts-append p q) (sym (append_assoc t (texts p) (texts q)))
texts-append (flush_marker ∷ p) q = texts-append p q

pub texts-shift_flush : (q : List Item) → texts (shift_flush q) ≡ texts q
texts-shift_flush [] = refl
texts-shift_flush (spoken t ∷ q) = refl
texts-shift_flush (flush_marker ∷ q) = refl

-- Cutting the queue at a marker keeps the text in order.
pub texts-take-drop :
    (n : ℕ) (q : List Item) → texts q ≡ texts (take n q) ++ texts (shift_flush (drop n q))
texts-take-drop n q =
    ap texts (sym (take-append-drop n q))
    ∙ texts-append (take n q) (drop n q)
    ∙ ap (◌++◌ (texts (take n q))) (sym (texts-shift_flush (drop n q)))

-- The text before the first flush marker.
abbrev lead : List Item → Units
lead [] = []
lead (flush_marker ∷ q) = []
lead (spoken t ∷ q) = t ++ lead q

combine-prefix :
    (acc : Units) (q : List Item) → (rest : Units) × (combine acc q ++ rest ≡ acc ++ lead q)
unfolding combine
combine-prefix acc [] = ([], refl)
combine-prefix acc (flush_marker ∷ q) = ([], refl)
combine-prefix acc (spoken t ∷ q) = elim (Bool-cases (leb max_chunk_size (length (acc ++ t)))) [
  | inl full ↦ (lead q, rw full (append_assoc acc t (lead q)))
  | inr more ↦
      let (rest, e) = combine-prefix (acc ++ t) q in
      (rest, rw more (e ∙ append_assoc acc t (lead q)))
]

take_append_le : (e : ℕ) (s t : Units) → e ≤ length s → take e (s ++ t) ≡ take e s
take_append_le zero s t h = refl
take_append_le (suc e) [] t h = elim h [ ]
take_append_le (suc e) (c ∷ s) t h = rw (take_append_le e s t (omega arith))

take_append_ge : (e : ℕ) (s t : Units) → length s ≤ e → take e (s ++ t) ≡ s ++ take (e - length s) t
take_append_ge e [] t h = let z : e - 0 ≡ e = omega arith in rw z
take_append_ge zero (c ∷ s) t h = elim h [ ]
take_append_ge (suc e) (c ∷ s) t h =
    let z : suc e - suc (length s) ≡ e - length s = omega arith in
    rw (z, take_append_ge e s t (omega arith))

-- The items that stay hold the text after the chunk.
texts-consume :
    (e : ℕ) (q : List Item) → e ≤ length (lead q) → take e (lead q) ++ texts (consume e q) ≡ texts q
unfolding consume
texts-consume zero [] h = refl
texts-consume (suc e) [] h = refl
texts-consume zero (flush_marker ∷ q) h = refl
texts-consume (suc e) (flush_marker ∷ q) h = refl
texts-consume e (spoken t ∷ q) h = elim (Bool-cases (leb (length t) e)) [
  | inl whole ↦
      let le = leb→le (length t) e whole in
      rw (whole, take_append_ge e t (lead q) le)
        (append_assoc t (take (e - length t) (lead q)) (texts (consume (e - length t) q))
          ∙ ap (◌++◌ t) (texts-consume (e - length t) q (omega (arith, length-append t (lead q)))))
  | inr part ↦
      let lt = leb_false→lt (length t) e part in
      rw (part, take_append_le e t (lead q) (omega arith))
        (sym (append_assoc (take e t) (drop e t) (texts q))
          ∙ ap (λ s. s ++ texts q) (take-append-drop e t))
]

-- A chunk cut from the combined text, and the text of the items that stay, are the text before.
pub take-combine-texts-consume :
    (e : ℕ) (q : List Item)
    → e ≤ length (combine [] q)
    → texts q ≡ take e (combine [] q) ++ texts (consume e q)
take-combine-texts-consume e q h =
    let (rest, same) = combine-prefix [] q in
    let fits : e ≤ length (lead q) =
      omega (arith, ap length same, length-append (combine [] q) rest) in
    let cut : take e (lead q) ≡ take e (combine [] q) =
      ap (take e) (sym same) ∙ take_append_le e (combine [] q) rest h in
    sym (rw cut at (texts-consume e q fits))

-- ===== src/Nmea/Stream/Progress.antt =====
-- What `parse` takes from a text, and what it leaves.
use precision_location_lite.Base.{
  ℕ, zero, suc, ◌≤◌, ◌<◌, List, ◌∷◌, ◌++◌, append_assoc, none, some, ◌≡◌, ◌⊎◌, refl, sym, ap, ◌∙◌,
  arith, Option-cases, >>=-eq-some, some_inj, inl, inr, Bytes, length, length-append,
}
use precision_location_lite.Base.Libc.{Floats}
use precision_location_lite.Nmea.Dataset.{Dataset}
use precision_location_lite.Nmea.Scan.Sentences.{end_of_line, find_iff, find-length}
use precision_location_lite.Nmea.Scan.{find}
use precision_location_lite.Nmea.Stream.Chunks.{
  resumed, find-empty, loop-zero, loop-stop, loop-next,
}
use precision_location_lite.Nmea.Stream.{
  SentenceName, Junk, later, Parsed, parse_first, parse_loop, parse, get_sentences, with_variants,
}

-- What was taken from a text: something, and then an end of line.
pub record IsTaken (from next : Bytes) : Type 0 where
  pub lines : Bytes
  pub splits : from ≡ lines ++ (end_of_line ++ next)
  pub not_empty : 0 < length lines

IsTaken-sentence : (from s next : Bytes) → find from ≡ some (s, next) → IsTaken from next
IsTaken-sentence from s next e =
    let h = (find_iff from s next).0 e in
    record {
      lines = h.noise ++ (b'$' ∷ s);
      splits = h.splits ∙ sym (append_assoc h.noise (b'$' ∷ s) (end_of_line ++ next));
      not_empty = omega (arith, length-append h.noise (b'$' ∷ s));
    }

IsTaken-trans : {from mid next : Bytes} → IsTaken from mid → IsTaken mid next → IsTaken from next
IsTaken-trans {from} {mid} {next} h k = record {
  lines = h.lines ++ (end_of_line ++ k.lines);
  splits =
      h.splits
      ∙ ap (λ (t : Bytes). h.lines ++ (end_of_line ++ t)) k.splits
      ∙ sym (append_assoc h.lines (end_of_line ++ k.lines) (end_of_line ++ next));
  not_empty = omega (arith, length-append h.lines (end_of_line ++ k.lines), h.not_empty);
}

module _ (fl : Floats) where
  -- No sentence is left; and the text is as it was, with the dataset, or lines were taken from it.
  pub record IsStep (st p : Parsed fl.D) : Type 0 where
    pub no_sentence : find p.next ≡ none
    pub taken : (p ≡ st) ⊎ IsTaken st.next p.next

  loop-IsStep :
      (junk : Junk) (names : List SentenceName) (fuel : ℕ) (st p : Parsed fl.D)
      → length st.next ≤ fuel
      → parse_loop fl fuel junk names st ≡ some p
      → IsStep st p
  loop-IsStep junk names zero st p h e =
      let same : st ≡ p = some_inj (sym (loop-zero fl names junk st) ∙ e) in
      rw (← same) (record { no_sentence = find-empty fl names st.next h; taken = inl refl })
  loop-IsStep junk names (suc fuel) st p h e = elim (Option-cases (find st.next)) [
    | inl stop ↦
        let same : st ≡ p = some_inj (sym (loop-stop fl names junk (suc fuel) st stop) ∙ e) in
        rw (← same) (record { no_sentence = stop; taken = inl refl })
    | inr ((s, next), found) ↦
        let shorter = find-length st.next s next found in
        let (r, first, after) =
          >>=-eq-some (parse_first fl (junk zero) names s st.to) _
            (sym (loop-next fl names junk fuel st s next found) ∙ e) in
        let this = IsTaken-sentence st.next s next found in
        let ih =
          loop-IsStep (later junk) names fuel (resumed fl names st next r) p (omega arith) after in
        record {
          no_sentence = ih.no_sentence;
          taken = elim ih.taken [
            | inl same ↦ inr (rw same this)
            | inr more ↦ inr (IsTaken-trans this more)
          ];
        }
  ]

  -- `parse` ends by itself, with no complete sentence left in the unread text. Either it took
  -- nothing, left the dataset alone and saw no sentence, or what it took ends with an end of line
  -- behind at least one more byte.
  pub parse-IsStep :
      (junk : Junk) (from : Bytes) (to : Dataset fl.D) (s : ℕ) (p : Parsed fl.D)
      → parse fl junk from to s ≡ some p
      → IsStep (record { seen = 0; to = to; next = from }) p
  unfolding parse
  parse-IsStep junk from to s p e =
      loop-IsStep junk (get_sentences (with_variants s)) (length from)
        (record { seen = 0; to = to; next = from }) p (omega arith) e

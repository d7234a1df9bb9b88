-- ===== src/Nmea/Stream/Chunks.antt =====
-- A text that arrives in two pieces is read like the whole text.
use Prim.Native.Nat.{bit_or}
use mathlib.Core.Path.{fun_ext}
use precision_location_lite.Base.{
  ℕ, zero, suc, ◌≤◌, List, [], ◌∷◌, ◌++◌, Option, none, some, ◌≡◌, refl, sym, ap, ◌∙◌, arith, ◌>>=◌,
  Option-cases, >>=-eq-some, some_inj, inl, inr, Bytes, length, length-append,
}
use precision_location_lite.Base.Bits.{bit_or_assoc, bit_or-zero}
use precision_location_lite.Base.Int.{ℤ}
use precision_location_lite.Base.Libc.{Floats}
use precision_location_lite.Nmea.Dataset.{Dataset}
use precision_location_lite.Nmea.Scan.Sentences.{find-append, find-length}
use precision_location_lite.Nmea.Scan.{find}
use precision_location_lite.Nmea.Stream.{
  SentenceName, Junk, later, Parsed, parse_first, parse_loop, parse, get_sentences, with_variants,
}

-- The number of sentences that `parse` finds in a text, with a bound on its rounds.
unfoldable pub count : ℕ → Bytes → ℕ
count zero s = 0
count (suc fuel) s = elim (find s) [ none ↦ 0 | some (_, next) ↦ suc (count fuel next) ]

abbrev pub sentences : Bytes → ℕ
sentences s = count (length s) s

-- What one run finds for its first k sentences, and another run behind them.
abbrev pub before : ℤ → Junk → Junk
before x junk zero = x
before x junk (suc n) = junk n

abbrev pub splice : ℕ → Junk → Junk → Junk
splice zero junk junk' = junk'
splice (suc k) junk junk' = before (junk zero) (splice k (later junk) junk')

count-zero : (s : Bytes) → count zero s ≡ 0
unfolding count
count-zero s = refl

count-stop : (fuel : ℕ) (s : Bytes) → find s ≡ none → count fuel s ≡ 0
unfolding count
count-stop zero s e = refl
count-stop (suc fuel) s e = rw (e, count) refl

count-next :
    (fuel : ℕ) (s t next : Bytes)
    → find s ≡ some (t, next)
    → count (suc fuel) s ≡ suc (count fuel next)
unfolding count
count-next fuel s t next e = rw (e, count) refl

module _ (fl : Floats) (names : List SentenceName) where
  abbrev pub State : Type 0
  State = Parsed fl.D

  abbrev pub resumed : State → Bytes → ℕ × Dataset fl.D → State
  resumed st next r = record { seen = bit_or st.seen r.0; to = r.1; next = next }

  -- One round, with any loop behind it.
  abbrev round : ℤ → (State → Option State) → State → Option State
  round x more st = elim (find st.next) [
    | none ↦ some st
    | some (s, next) ↦ parse_first fl x names s st.to >>= λ r. more (resumed st next r)
  ]

  loop-round :
      (junk : Junk) (fuel : ℕ) (st : State)
      → parse_loop fl (suc fuel) junk names st
        ≡ round (junk zero) (parse_loop fl fuel (later junk) names) st
  unfolding parse_loop
  loop-round junk fuel st = refl

  pub loop-zero : (junk : Junk) (st : State) → parse_loop fl zero junk names st ≡ some st
  unfolding parse_loop
  loop-zero junk st = refl

  pub find-empty : (s : Bytes) → length s ≤ 0 → find s ≡ none
  unfolding find
  find-empty [] h = refl
  find-empty (c ∷ s) h = absurd (omega arith)

  -- Where no sentence is left the loop stops at once.
  pub loop-stop :
      (junk : Junk) (fuel : ℕ) (st : State)
      → find st.next ≡ none
      → parse_loop fl fuel junk names st ≡ some st
  loop-stop junk zero st e = loop-zero junk st
  loop-stop junk (suc fuel) st e = loop-round junk fuel st ∙ rw (e, round)

  -- Where one is left it is parsed, and the loop goes on behind it.
  pub loop-next :
      (junk : Junk) (fuel : ℕ) (st : State) (s next : Bytes)
      → find st.next ≡ some (s, next)
      → parse_loop fl (suc fuel) junk names st ≡ (
          parse_first fl (junk zero) names s st.to >>= λ r.
          parse_loop fl fuel (later junk) names (resumed st next r))
  loop-next junk fuel st s next e = loop-round junk fuel st ∙ rw (e, round)

  -- With fuel for each byte the number of rounds does not matter.
  loop_enough :
      (junk : Junk) (fuel more : ℕ) (st : State)
      → length st.next ≤ fuel
      → length st.next ≤ more
      → parse_loop fl fuel junk names st ≡ parse_loop fl more junk names st
  loop_enough junk zero more st h k =
      let stop = find-empty st.next h in
      loop-stop junk zero st stop ∙ sym (loop-stop junk more st stop)
  loop_enough junk (suc fuel) zero st h k =
      let stop = find-empty st.next k in
      loop-stop junk (suc fuel) st stop ∙ sym (loop-stop junk zero st stop)
  loop_enough junk (suc fuel) (suc more) st h k = elim (Option-cases (find st.next)) [
    | inl stop ↦ loop-stop junk (suc fuel) st stop ∙ sym (loop-stop junk (suc more) st stop)
    | inr ((s, next), found) ↦
        let shorter = find-length st.next s next found in
        loop-next junk fuel st s next found
        ∙ ap
            (λ (g : ℕ × Dataset fl.D → Option State).
              parse_first fl (junk zero) names s st.to >>= g)
            (fun_ext λ r.
              loop_enough (later junk) fuel more (resumed st next r) (omega arith) (omega arith))
        ∙ sym (loop-next junk more st s next found)
  ]

  abbrev extended : State → Bytes → State
  extended st b = record st { next = st.next ++ b }

  -- What the loop has done with a text it does again when more text follows; the rest is parsed
  -- with what follows.
  loop-append :
      (junk junk' : Junk) (fuel more rest : ℕ) (st p : State) (b : Bytes)
      → length st.next ≤ fuel
      → length (st.next ++ b) ≤ more
      → length (p.next ++ b) ≤ rest
      → parse_loop fl fuel junk names st ≡ some p
      → parse_loop fl more (splice (count fuel st.next) junk junk') names (extended st b)
        ≡ parse_loop fl rest junk' names (extended p b)
  loop-append junk junk' zero more rest st p b h k l e =
      let same : st ≡ p = some_inj (sym (loop-zero junk st) ∙ e) in
      rw (count-zero st.next, ← same)
        (loop_enough junk' more rest (extended st b) k (rw (← same) at l))
  loop-append junk junk' (suc fuel) more rest st p b h k l e = elim (Option-cases (find st.next)) [
    | inl stop ↦
        let same : st ≡ p = some_inj (sym (loop-stop junk (suc fuel) st stop) ∙ e) in
        rw (count-stop (suc fuel) st.next stop, ← same)
          (loop_enough junk' more rest (extended st b) k (rw (← same) at l))
    | inr ((s, next), found) ↦
        let shorter = find-length st.next s next found in
        let (r, first, after) =
          >>=-eq-some (parse_first fl (junk zero) names s st.to) _
            (sym (loop-next junk fuel st s next found) ∙ e) in
        let both = before (junk zero) (splice (count fuel next) (later junk) junk') in
        rw (count-next fuel st.next s next found) (
          loop_enough both more (suc more) (extended st b) k (omega arith)
          ∙ loop-next both more (extended st b) s (next ++ b) (find-append st.next b s next found)
          ∙ rw first (
              loop-append (later junk) junk' fuel more rest (resumed st next r) p b (omega arith)
                (omega (arith, length-append next b, length-append st.next b)) l after))
  ]

  abbrev seen_before : ℕ → State → State
  seen_before x st = record st { seen = bit_or x st.seen }

  -- The sentences seen before are kept, and change nothing else.
  loop-seen :
      (junk : Junk) (fuel x : ℕ) (st : State)
      → parse_loop fl fuel junk names (seen_before x st)
        ≡ (do p ← parse_loop fl fuel junk names st; some (seen_before x p))
  loop-seen junk zero x st = loop-zero junk (seen_before x st) ∙ rw (loop-zero junk st) refl
  loop-seen junk (suc fuel) x st = elim (Option-cases (find st.next)) [
    | inl stop ↦
        loop-stop junk (suc fuel) (seen_before x st) stop
        ∙ rw (loop-stop junk (suc fuel) st stop) refl
    | inr ((s, next), found) ↦
        loop-next junk fuel (seen_before x st) s next found
        ∙ rw (loop-next junk fuel st s next found)
            (elim (Option-cases (parse_first fl (junk zero) names s st.to)) [
              | inl fails ↦ rw fails refl
              | inr (r, first) ↦
                  rw (first, bit_or_assoc) (loop-seen (later junk) fuel x (resumed st next r))
            ])
  ]

module _ (fl : Floats) where
  -- If the first piece of a text is parsed without a failed assertion, parsing the whole text gives
  -- what parsing the rest of the first piece in front of the second gives: the same dataset, unread
  -- text and failed assertions, and together the same sentences. The two pieces may find other
  -- undetermined numbers on the stack; the whole text then finds those of the first piece for the
  -- sentences of that piece, and those of the second behind them.
  pub parse-append :
      (junk junk' : Junk) (a b : Bytes) (to : Dataset fl.D) (s : ℕ) (p : Parsed fl.D)
      → parse fl junk a to s ≡ some p
      → parse fl (splice (sentences a) junk junk') (a ++ b) to s ≡ (do
        q ← parse fl junk' (p.next ++ b) p.to s
        some (record q { seen = bit_or p.seen q.seen }))
  unfolding parse
  parse-append junk junk' a b to s p e =
      let names = get_sentences (with_variants s) in
      loop-append fl names junk junk' (length a) (length (a ++ b)) (length (p.next ++ b))
        (record { seen = 0; to = to; next = a }) p b (omega arith) (omega arith) (omega arith) e
      ∙ ap
          (λ (x : ℕ).
            parse_loop fl (length (p.next ++ b)) junk' names
              (record { seen = x; to = p.to; next = p.next ++ b }))
          (sym (bit_or-zero p.seen))
      ∙ loop-seen fl names junk' (length (p.next ++ b)) p.seen
          (record { seen = 0; to = p.to; next = p.next ++ b })

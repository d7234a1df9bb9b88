-- ===== src/Nmea/Scan/Sentences.antt =====
-- What `find` finds: the first sentence of a text, described without a loop.
use precision_location_lite.Base.{
  ℕ, ◌+◌, ◌≤◌, [], ◌∷◌, ◌++◌, append_assoc, none, some, ◌≡◌, ◌≢◌, ◌↔◌, refl, ap, ◌∙◌, arith, ◌==◌,
  ◌&&◌, Bool-cases, inl, inr, ◌⊎◌, drop, Option-cases, Bytes, All, length, length-append,
}
use precision_location_lite.Nmea.Scan.{char_at, find_begin, find_end, find}

-- The end of the line.
abbrev pub end_of_line : Bytes
end_of_line = b'\r' ∷ b'\n' ∷ []

-- No NUL and no '$'.
abbrev pub IsNoise : Bytes → Type 0
IsNoise = All (λ c. (c ≢ 0) × (c ≢ b'$'))

-- No NUL and no end of line.
abbrev pub IsBody : Bytes → Type 0
IsBody [] = Unit
IsBody (c ∷ s) = (c ≢ 0) × (c ≡ b'\r' → char_at s ≢ b'\n') × IsBody s

-- The text is noise, a '$', the body, an end of line, and what follows.
pub record HasSentence (s body next : Bytes) : Type 0 where
  pub noise : Bytes
  pub splits : s ≡ noise ++ (b'$' ∷ (body ++ (b'\r' ∷ b'\n' ∷ next)))
  pub is_noise : IsNoise noise
  pub is_body : IsBody body

find_begin_sound :
    (s rest : Bytes)
    → find_begin s ≡ some rest
    → (noise : Bytes) × (s ≡ noise ++ (b'$' ∷ rest)) × IsNoise noise
unfolding find_begin
find_begin_sound [] rest e = cc
find_begin_sound (c ∷ s) rest e = elim (Bool-cases (c == b'$')) [
  | inl found ↦ ([], ground arith, tt)
  | inr other ↦
      let later : find_begin s ≡ some rest = ground arith in
      let (noise, splits, is_noise) = find_begin_sound s rest later in
      (c ∷ noise, ap (◌∷◌ c) splits, ((ground arith, ground arith), is_noise))
]

find_begin_complete :
    (noise rest : Bytes) → IsNoise noise → find_begin (noise ++ (b'$' ∷ rest)) ≡ some rest
unfolding find_begin
find_begin_complete [] rest h = refl
find_begin_complete (c ∷ noise) rest h = ground (arith, find_begin_complete noise rest h.1)

find_end_step :
    (c : ℕ) (s body next : Bytes)
    → c ≢ 0
    → (c ≡ b'\r' → char_at s ≢ b'\n')
    → find_end s ≡ some (body, next)
    → find_end (c ∷ s) ≡ some (c ∷ body, next)
unfolding find_end
find_end_step c s body next nz ne e = elim (Bool-cases (c == b'\r')) [
  | inl cr ↦ let le = ne (ground arith) in rw e (ground arith)
  | inr other ↦ rw e (ground arith)
]

-- One step of the second loop: it stops at this byte, or the byte is part of the body.
find_end_inv :
    (c : ℕ) (s body next : Bytes)
    → find_end (c ∷ s) ≡ some (body, next)
    → ((c ≡ b'\r') × (char_at s ≡ b'\n') × (body ≡ []) × (next ≡ drop 1 s))
      ⊎ ((c ≢ 0)
          × (c ≡ b'\r' → char_at s ≢ b'\n')
          × ((b : Bytes) × (find_end s ≡ some (b, next)) × (body ≡ c ∷ b)))
unfolding find_end
find_end_inv c s body next e = elim (Bool-cases (c == b'\r' && char_at s == b'\n')) [
  | inl found ↦ inl (ground arith)
  | inr other ↦ elim (Option-cases (find_end s)) [
    | inl r ↦ absurd (ground arith)
    | inr ((b, n), r) ↦ inr (ground arith, ground arith, (b, ground arith, ground arith))
  ]
]

starts_with_newline : (s : Bytes) → char_at s ≡ b'\n' → s ≡ b'\n' ∷ drop 1 s
starts_with_newline [] e = absurd (omega arith)
starts_with_newline (c ∷ s) e = ap (λ (x : ℕ). x ∷ s) e

-- In front of an end of line the next byte of a body is what it is in the body.
ne_newline : (s rest : Bytes) → char_at s ≢ b'\n' → char_at (s ++ (b'\r' ∷ rest)) ≢ b'\n'
ne_newline [] rest h = omega arith
ne_newline (c ∷ s) rest h = h

ne_newline_inv : (s rest : Bytes) → char_at (s ++ (b'\r' ∷ rest)) ≢ b'\n' → char_at s ≢ b'\n'
ne_newline_inv [] rest h = omega arith
ne_newline_inv (c ∷ s) rest h = h

find_end-nil : find_end [] ≡ none
unfolding find_end
find_end-nil = refl

find_end_sound :
    (s body next : Bytes)
    → find_end s ≡ some (body, next)
    → (s ≡ body ++ (b'\r' ∷ b'\n' ∷ next)) × IsBody body
find_end_sound [] body next e = cc find_end-nil
find_end_sound (c ∷ s) body next e = elim (find_end_inv c s body next e) [
  | inl (cr, lf, nil, rest) ↦ rw (nil, rest, cr) (ap (◌∷◌ b'\r') (starts_with_newline s lf), tt)
  | inr (nz, ne, (b, found, cons)) ↦
      let (splits, is_body) = find_end_sound s b next found in
      rw cons (ap (◌∷◌ c) splits, (nz, (λ cr. ne_newline_inv b _ (rw splits at (ne cr))), is_body))
]

find_end_complete :
    (body next : Bytes)
    → IsBody body
    → find_end (body ++ (b'\r' ∷ b'\n' ∷ next)) ≡ some (body, next)
find_end_complete [] next h = unfold find_end in refl
find_end_complete (c ∷ body) next (nz, ne, h) =
    find_end_step c _ body next nz (λ cr. ne_newline body _ (ne cr)) (find_end_complete body next h)

-- `find` returns the first sentence of a text, and nothing else: exactly when the text is noise
-- without NUL and '$', a '$', a body without NUL and end of line, an end of line and a rest, the
-- result is that body and that rest.
pub find_iff : (s body next : Bytes) → (find s ≡ some (body, next)) ↔ HasSentence s body next
unfolding find
find_iff s body next = (sound, complete)
  where
    sound : find s ≡ some (body, next) → HasSentence s body next
    sound e = elim (Option-cases (find_begin s)) [
      | inl r ↦ cc
      | inr (begin, r) ↦
          let (noise, splits, is_noise) = find_begin_sound s begin r in
          let found : find_end begin ≡ some (body, next) = cc in
          let (tail, is_body) = find_end_sound begin body next found in
          record {
            noise = noise;
            splits = splits ∙ ap (λ (t : Bytes). noise ++ (b'$' ∷ t)) tail;
            is_noise = is_noise;
            is_body = is_body;
          }
    ]

    complete : HasSentence s body next → find s ≡ some (body, next)
    complete h =
        rw (h.splits, find_begin_complete h.noise _ h.is_noise)
          (find_end_complete body next h.is_body)

-- A text that holds a sentence holds the same one first when more text follows.
pub find-append :
    (s more body next : Bytes)
    → find s ≡ some (body, next)
    → find (s ++ more) ≡ some (body, next ++ more)
find-append s more body next e =
    let h = (find_iff s body next).0 e in
    (find_iff (s ++ more) body (next ++ more)).1 (record {
      noise = h.noise;
      splits = rw h.splits (simp append_assoc);
      is_noise = h.is_noise;
      is_body = h.is_body;
    })

-- What `find` leaves is shorter by the '$', the body and the end of line at least.
pub find-length :
    (s body next : Bytes) → find s ≡ some (body, next) → length next + length body + 3 ≤ length s
find-length s body next e =
    let h = (find_iff s body next).0 e in
    rw (h.splits, length-append) (omega (arith, length-append body (b'\r' ∷ b'\n' ∷ next)))

-- ===== src/DavHeaders/IfHeader/Total.antt =====
-- The parser of the header `If` ends.
use dav_server_rs.Common.{
  ℕ, zero, suc, ◌+◌, ◌≤◌, ◌<◌, ◌≡◌, ◌≢◌, refl, Bool, true, false, not, ◌⊎◌, inl, inr, Result-cases,
  Option, none, List, [], ◌∷◌, Result, ok, err, arith, Bytes, length, codes, ◌==◌, nat_eq, list_eq,
  starts_with, ltb, if◌then◌else◌, ◌&&◌, ◌||◌, ◌>>=◌, length-drop_le, List-cases, ap,
}
use dav_server_rs.DavHeaders.Server.{ServerUrl}
use dav_server_rs.DavHeaders.Values.{one, HeaderError}
use dav_server_rs.DavHeaders.ETag.{from_str, quote}
use dav_server_rs.DavHeaders.IfHeader.{
  Parser, IfState, bad, IfToken, end_of_input, go, Next, trim_left, scan_quoted, scan_until,
  scan_word, scan_word_from, tokenize, get_token, step_in, step_list, decode_loop, start, stop,
  decode_if, new_parser, before, is_whitespace, is_special, get_pointy, get_tag, get_word,
  from_utf8,
}

length-trim_left : (s : Bytes) → length (trim_left s) ≤ length s
unfolding trim_left
length-trim_left [] = omega arith
length-trim_left (c ∷ s) = ground (arith, length-trim_left s)

-- What is left of the input, where there is a result, is shorter than `n`.
abbrev Shorter : {A : Type 0} → ℕ → Result (A × Bytes) HeaderError → Type 0
Shorter n (ok t) = length t.1 < n
Shorter n (err e) = Unit

Shorter-mono :
    {A : Type 0} (m n : ℕ) (r : Result (A × Bytes) HeaderError) → m ≤ n → Shorter m r → Shorter n r
Shorter-mono m n (ok t) le h = omega arith
Shorter-mono m n (err e) le h = tt

Shorter-before :
    (n x : ℕ) (r : Result (Bytes × Bytes) HeaderError) → Shorter n r → Shorter n (before x r)
Shorter-before n x (ok t) h = h
Shorter-before n x (err e) h = tt

lt_of_Shorter :
    {A : Type 0} (n : ℕ) (r : Result (A × Bytes) HeaderError) {t : A × Bytes}
    → Shorter n r
    → r ≡ ok t
    → length t.1 < n
lt_of_Shorter n r h e = rw e at h

Shorter-bind :
    {A B : Type 0} (n : ℕ) (r : Result A HeaderError) (f : A → Result (B × Bytes) HeaderError)
    → ((a : A) → r ≡ ok a → Shorter n (f a))
    → Shorter n (r >>= f)
Shorter-bind n (ok a) f h = h a refl
Shorter-bind n (err e) f h = tt

Shorter-if :
    {A : Type 0} (n : ℕ) (b : Bool) (r s : Result (A × Bytes) HeaderError)
    → Shorter n r
    → Shorter n s
    → Shorter n (if b then r else s)
Shorter-if n true r s h k = h
Shorter-if n false r s h k = k

scan_quoted-Shorter : (c : ℕ) (q : Bool) (buf : Bytes) → Shorter (length buf) (scan_quoted c q buf)
unfolding scan_quoted
scan_quoted-Shorter c q [] = tt
scan_quoted-Shorter c q (x ∷ buf) =
    Shorter-if _ (q || not (x == c)) _ _
      (Shorter-if _ (is_whitespace x) _ _ tt (
        Shorter-mono (length buf) _ _ (omega arith) (
          Shorter-before (length buf) x _
            (scan_quoted-Shorter c (if x == quote then not q else q) buf))))
      (omega arith)

-- The word that starts with the first byte takes that byte.
scan_word_rest-Shorter : (buf : Bytes) → Shorter (suc (length buf)) (scan_word_from false buf)
unfolding scan_word_from
scan_word_rest-Shorter [] = omega arith
scan_word_rest-Shorter (x ∷ buf) =
    Shorter-if _ (is_whitespace x || is_special x || ltb x 32) _ _ (omega arith) (
      Shorter-mono (suc (length buf)) _ _ (omega arith)
        (Shorter-before (suc (length buf)) x _ (scan_word_rest-Shorter buf)))

scan_word-Shorter : (x : ℕ) (buf : Bytes) → Shorter (length (x ∷ buf)) (scan_word (x ∷ buf))
unfolding scan_word scan_word_from
scan_word-Shorter x buf =
    Shorter-if _ (is_whitespace x || is_special x || ltb x 32) _ _ tt
      (Shorter-before (suc (length buf)) x _ (scan_word_rest-Shorter buf))

scan_until-shorter :
    (c : ℕ) (s : Bytes) (close : ℕ) {t : Bytes × Bytes}
    → scan_until (c ∷ s) close ≡ ok t
    → length t.1 < length (c ∷ s)
unfolding scan_until
scan_until-shorter c s close h =
    omega (arith, lt_of_Shorter _ _ (scan_quoted-Shorter close false s) h)

module _ (utf8 : Bytes → Bool) where
  get_pointy-Shorter : (c : ℕ) (s : Bytes) → Shorter (length (c ∷ s)) (get_pointy utf8 (c ∷ s))
  unfolding get_pointy
  get_pointy-Shorter c s =
      Shorter-bind _ (scan_until (c ∷ s) b'>') _
        λ t h. Shorter-bind _ (from_utf8 utf8 t.0) _ λ _ _. scan_until-shorter c s b'>' h

  get_tag-Shorter : (c : ℕ) (s : Bytes) → Shorter (length (c ∷ s)) (get_tag utf8 (c ∷ s))
  unfolding get_tag
  get_tag-Shorter c s = Shorter-bind _ (scan_until (c ∷ s) b']') _ λ t h.
      Shorter-bind _ (from_utf8 utf8 t.0) _
        λ text _. Shorter-bind _ (from_str text) _ λ _ _. scan_until-shorter c s b']' h

  get_word-Shorter : (c : ℕ) (s : Bytes) → Shorter (length (c ∷ s)) (get_word utf8 (c ∷ s))
  unfolding get_word
  get_word-Shorter c s = Shorter-bind _ (scan_word (c ∷ s)) _ λ t h.
      let shorter = lt_of_Shorter _ _ (scan_word-Shorter c s) h in
      Shorter-if _ (t.0 == codes "Not") _ _ shorter
        (Shorter-bind _ (from_utf8 utf8 t.0) _ λ _ _. shorter)

  tokenize-Shorter : (c : ℕ) (s : Bytes) → Shorter (length (c ∷ s)) (tokenize utf8 (c ∷ s))
  unfolding tokenize
  tokenize-Shorter c s = Shorter-if _ (c == b'(') _ _ (omega arith) (
      Shorter-if _ (c == b')') _ _ (omega arith) (
        Shorter-if _ (c == b'N' && starts_with (c ∷ s) (codes "Not")) _ _
          (omega (arith, length-drop_le 2 s))
          (Shorter-if _ (c == b'<') _ _ (get_pointy-Shorter c s)
            (Shorter-if _ (c == b'[') _ _ (get_tag-Shorter c s) (get_word-Shorter c s)))))

  -- A token takes at least one byte of the input, unless the input has ended.
  get_token_shorter :
      (input : Bytes) {tok : IfToken} {rest : Bytes}
      → get_token utf8 input ≡ ok (tok, rest)
      → (tok ≡ end_of_input) ⊎ (length rest < length input)
  unfolding get_token
  get_token_shorter input {tok} {rest} h = elim (List-cases (trim_left input)) [
    | inl e ↦ inl (ended (rw e at h))
    | inr (c, s, e) ↦ inr (shorter c s e (rw e at h))
  ]
    where
      ended : tokenize utf8 [] ≡ ok (tok, rest) → tok ≡ end_of_input
      ended h = unfold tokenize in ground arith

      shorter :
          (c : ℕ) (s : Bytes)
          → trim_left input ≡ c ∷ s
          → tokenize utf8 (c ∷ s) ≡ ok (tok, rest)
          → length rest < length input
      shorter c s e h = omega (
        arith,
        lt_of_Shorter _ _ (tokenize-Shorter c s) h,
        length-trim_left input,
        ap (length {A = ℕ}) e,
      )

  module _ (parse_url : Bytes → Option ServerUrl) where
    abbrev rounds : IfState → Bytes → ℕ
    rounds bad input = 1
    rounds _ input = length input + 2

    rounds_le :
        (st : IfState) (input : Bytes)
        → (1 ≤ rounds st input) × (rounds st input ≤ length input + 2)
    rounds_le bad input = omega arith
    rounds_le _ input = omega arith

    -- What the end of the input leads to, where it does not end the loop.
    step_end :
        (st : IfState) (p : Parser) {p' : Parser}
        → step_in parse_url st p end_of_input ≡ ok (go p')
        → p'.state ≡ bad
    unfolding step_in step_list
    step_end start p h = ground arith
    step_end bad p h = absurd (ground arith)
    step_end _ p h = ground arith

    step_bad :
        (st : IfState) (p : Parser) (tok : IfToken) {next : Next}
        → st ≡ bad
        → step_in parse_url st p tok ≢ ok next
    unfolding step_in
    step_bad bad p tok e h = cc
    step_bad _ p tok e h = cc

    rounds_of_ne : (st : IfState) (input : Bytes) → st ≢ bad → rounds st input ≡ length input + 2
    rounds_of_ne bad input h = absurd (h refl)
    rounds_of_ne _ input h = refl

    rounds_fall :
        (p p' : Parser) (input rest : Bytes) (tok : IfToken) (fuel : ℕ)
        → rounds p.state input ≤ suc fuel
        → get_token utf8 input ≡ ok (tok, rest)
        → step_in parse_url p.state p tok ≡ ok (go p')
        → rounds p'.state rest ≤ fuel
    rounds_fall p p' input rest tok fuel h e s =
        let full : rounds p.state input ≡ length input + 2 =
          rounds_of_ne p.state input (λ b. step_bad p.state p tok b s) in
        elim (get_token_shorter input e) [
          | inl ended ↦
              let failed = step_end p.state p (rw ended at s) in rw failed (omega (arith, full))
          | inr less ↦ omega (arith, full, rounds_le p'.state rest)
        ]

    decode_loop_total :
        (fuel : ℕ) (p : Parser) (input : Bytes)
        → rounds p.state input ≤ fuel
        → decode_loop parse_url utf8 fuel p input ≢ none
    unfolding decode_loop
    decode_loop_total zero p input h = absurd (omega (arith, rounds_le p.state input))
    decode_loop_total (suc fuel) p input h = elim (Result-cases (get_token utf8 input)) [
      | inr (fault, e) ↦ rw (e, decode_loop) (λ c. cc)
      | inl ((tok, rest), e) ↦ elim (Result-cases (step_in parse_url p.state p tok)) [
        | inr (fault, s) ↦ rw (e, s, decode_loop) (λ c. cc)
        | inl (stop lists, s) ↦ rw (e, s, decode_loop) (λ c. cc)
        | inl (go p', s) ↦
            rw (e, s, decode_loop)
              (decode_loop_total fuel p' rest (rounds_fall p p' input rest tok fuel h e s))
      ]
    ]

    -- The parser ends on every header: the fuel that it is given is enough.
    pub decode_if-ne-none : (values : List Bytes) → decode_if parse_url utf8 values ≢ none
    unfolding decode_if
    decode_if-ne-none values = elim (Result-cases (one values)) [
      | inr (fault, e) ↦ rw (e, decode_if) (λ c. cc)
      | inl (input, e) ↦
          rw (e, decode_if)
            (decode_loop_total (length input + 3) (new_parser parse_url utf8) input (omega arith))
    ]

-- ===== src/Validator/Utf8.antt =====
-- Which byte sequences isValidUTF8 accepts.
use cdn.Common.{
  ℕ, zero, suc, ◌≤◌, ◌≡◌, refl, inl, inr, true, some, ◌∷◌, ◌++◌, arith, Bool-cases, length, All, [],
  ◌↔◌, Option, none, Option-cases, ◌+◌, ◌/◌, ◌%◌, ◌<◌, ◌∙◌, List, ltb, if◌then◌else◌, length-append,
}
use cdn.Storage.{Bytes}
use cdn.Validator.{
  sequence_size, is_continuation, continued, utf8_rounds, is_valid_utf8, sequence_rest,
}

-- A text in the form of UTF-8: lead bytes, each followed by its continuation bytes.
pub data Sequences : Bytes → Type 0 where
  done : Sequences []
  sequence :
      (b n : ℕ) (cs s : Bytes)
      → sequence_size b ≡ some (suc n)
      → length cs ≡ n
      → All (λ c. is_continuation c ≡ true) cs
      → Sequences s
      → Sequences (b ∷ cs ++ s)

continued_split :
    (n : ℕ) (s rest : Bytes)
    → continued n s ≡ some rest
    → (cs : Bytes) × (s ≡ cs ++ rest) × (length cs ≡ n) × All (λ c. is_continuation c ≡ true) cs
unfolding continued
continued_split zero s rest h = ([], cc h, refl, tt)
continued_split (suc n) [] rest h = absurd (cc h)
continued_split (suc n) (b ∷ s) rest h = elim (Bool-cases (is_continuation b)) [
  | inr m ↦ absurd (cc (rw m at h))
  | inl y ↦
      let (cs, e, l, all_cs) = continued_split n s rest (rw y at h) in
      (b ∷ cs, cc e, omega (arith, l), (y, all_cs))
]

continued_append :
    (cs s : Bytes)
    → All (λ c. is_continuation c ≡ true) cs
    → continued (length cs) (cs ++ s) ≡ some s
unfolding continued
continued_append [] s h = refl
continued_append (c ∷ cs) s (h, hs) = rw h (continued_append cs s hs)

rest_split :
    (size : Option ℕ) (s rest : Bytes)
    → sequence_rest size s ≡ some rest
    → (n : ℕ) × (size ≡ some (suc n)) × (continued n s ≡ some rest)
unfolding sequence_rest
rest_split none s rest h = absurd (cc h)
rest_split (some zero) s rest h = absurd (cc h)
rest_split (some (suc n)) s rest h = (n, refl, h)

rounds_sound : (f : ℕ) (s : Bytes) → utf8_rounds f s ≡ true → Sequences s
unfolding utf8_rounds
rounds_sound f [] h = done
rounds_sound zero (b ∷ s) h = absurd (cc h)
rounds_sound (suc f) (b ∷ s) h = elim (Option-cases (sequence_rest (sequence_size b) s)) [
  | inl e ↦ absurd (cc (rw (e, utf8_rounds) at h))
  | inr (rest, e) ↦
      let (n, size, cont) = rest_split (sequence_size b) s rest e in
      let (cs, same, l, all_cs) = continued_split n s rest cont in
      let more = rounds_sound f rest (rw (e, utf8_rounds) at h) in
      rw same (sequence b n cs rest size l all_cs more)
]

rest_follows :
    (size : Option ℕ) (n : ℕ) (cs t : Bytes)
    → size ≡ some (suc n)
    → length cs ≡ n
    → All (λ c. is_continuation c ≡ true) cs
    → sequence_rest size (cs ++ t) ≡ some t
unfolding sequence_rest
rest_follows size n cs t e fits all_cs =
    let follows : continued n (cs ++ t) ≡ some t = rw fits at (continued_append cs t all_cs) in
    rw e follows

rounds_step :
    (f b : ℕ) (s t : Bytes)
    → sequence_rest (sequence_size b) s ≡ some t
    → utf8_rounds (suc f) (b ∷ s) ≡ utf8_rounds f t
unfolding utf8_rounds
rounds_step f b s t e = rw (e, utf8_rounds)

rounds_complete : (f : ℕ) (s : Bytes) → Sequences s → length s ≤ f → utf8_rounds f s ≡ true
rounds_complete f s done l = unfold utf8_rounds in refl
rounds_complete zero s (sequence b n cs t size fits all_cs q) l = absurd (omega (arith, l))
rounds_complete (suc f) s (sequence b n cs t size fits all_cs q) l =
    rounds_step f b (cs ++ t) t (rest_follows (sequence_size b) n cs t size fits all_cs)
    ∙ rounds_complete f t q (omega (arith, l, length-append cs t))

-- isValidUTF8 accepts a text exactly where it consists of lead bytes that are each followed by as
-- many continuation bytes as they announce.
pub is_valid_utf8_iff : (s : Bytes) → (is_valid_utf8 s ≡ true) ↔ Sequences s
unfolding is_valid_utf8
is_valid_utf8_iff s = (rounds_sound (length s) s, λ q. rounds_complete (length s) s q (omega arith))

-- The UTF-8 form of a code point.
abbrev low : ℕ → ℕ
low c = 0x80 + c % 64

unfoldable pub encode_rune : ℕ → Bytes
encode_rune c =
    if ltb c 0x80
    then c ∷ []
    else if ltb c 0x800
    then (0xC0 + c / 64) ∷ low c ∷ []
    else if ltb c 0x10000
    then (0xE0 + c / 4096) ∷ low (c / 64) ∷ low c ∷ []
    else (0xF0 + c / 262144) ∷ low (c / 4096) ∷ low (c / 64) ∷ low c ∷ []

unfoldable pub encode : List ℕ → Bytes
encode [] = []
encode (c ∷ cs) = encode_rune c ++ encode cs

low-continues : (c : ℕ) → is_continuation (low c) ≡ true
low-continues c = ground arith

size_1 : (b : ℕ) → b < 0x80 → sequence_size b ≡ some 1
unfolding sequence_size
size_1 b h = ground arith

size_2 : (n : ℕ) → n < 32 → sequence_size (0xC0 + n) ≡ some 2
unfolding sequence_size
size_2 n h = ground arith

size_3 : (n : ℕ) → n < 16 → sequence_size (0xE0 + n) ≡ some 3
unfolding sequence_size
size_3 n h = ground arith

size_4 : (n : ℕ) → n < 8 → sequence_size (0xF0 + n) ≡ some 4
unfolding sequence_size
size_4 n h = ground arith

rune-Sequences : (c : ℕ) (s : Bytes) → c < 0x110000 → Sequences s → Sequences (encode_rune c ++ s)
unfolding encode_rune
rune-Sequences c s h q = elim (Bool-cases (ltb c 0x80)) [
  | inl y ↦ rw y (sequence c 0 [] s (size_1 c (ground arith)) refl tt q)
  | inr n1 ↦ elim (Bool-cases (ltb c 0x800)) [
    | inl y ↦
        rw (n1, y)
          (sequence _ 1 (low c ∷ []) s (size_2 (c / 64) (ground arith)) refl (low-continues c, tt)
            q)
    | inr n2 ↦ elim (Bool-cases (ltb c 0x10000)) [
      | inl y ↦
          rw (n1, n2, y)
            (sequence _ 2 (low (c / 64) ∷ low c ∷ []) s (size_3 (c / 4096) (ground arith)) refl
              (low-continues (c / 64), (low-continues c, tt)) q)
      | inr n3 ↦
          rw (n1, n2, n3)
            (sequence _ 3 (low (c / 4096) ∷ low (c / 64) ∷ low c ∷ []) s
              (size_4 (c / 262144) (omega (arith, h))) refl
              (low-continues (c / 4096), (low-continues (c / 64), (low-continues c, tt))) q)
    ]
  ]
]

encode-Sequences : (cs : List ℕ) → All (λ c. c < 0x110000) cs → Sequences (encode cs)
unfolding encode
encode-Sequences [] h = done
encode-Sequences (c ∷ cs) (h, hs) = rune-Sequences c _ h (encode-Sequences cs hs)

-- isValidUTF8 accepts the UTF-8 form of every text of code points.
pub encode-valid : (cs : List ℕ) → All (λ c. c < 0x110000) cs → is_valid_utf8 (encode cs) ≡ true
encode-valid cs h = (is_valid_utf8_iff (encode cs)).1 (encode-Sequences cs h)

-- isValidUTF8 also accepts the two bytes C0 and any continuation byte, in front of any text it
-- accepts, though C0 stands nowhere in UTF-8: it announces an overlong form.
pub is_valid_utf8_overlong :
    (b : ℕ) (s : Bytes)
    → is_continuation b ≡ true
    → is_valid_utf8 s ≡ true
    → is_valid_utf8 (0xC0 ∷ b ∷ s) ≡ true
is_valid_utf8_overlong b s h valid = (is_valid_utf8_iff (0xC0 ∷ b ∷ s)).1 (
    sequence 0xC0 1 (b ∷ []) s (size_2 0 (omega arith)) refl (h, tt)
      ((is_valid_utf8_iff s).0 valid))

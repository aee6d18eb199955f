-- ===== src/Access/Keys.antt =====
-- The keys under which requests are counted.
use cdn.Common.{
  ℕ, zero, suc, ◌≤◌, ◌≡◌, refl, sym, ap, ◌∙◌, true, false, List, ◌∷◌, ◌++◌, arith, ltb, ◌==◌,
  if◌then◌else◌, length, All, [], take, inl, inr, Bool, Bool-cases,
}
use cdn.Text.{Text, byte_len}
use cdn.Access.{is_key_char, clean, sanitize_key}

clean_drop :
    (a b : Text) (c : ℕ)
    → is_key_char c ≡ false
    → (c == b' ') ≡ false
    → clean (a ++ c ∷ b) ≡ clean (a ++ b)
unfolding clean
clean_drop [] b c h n = ground arith
clean_drop (d ∷ a) b c h n = ground (arith, clean_drop a b c h n)

-- Two keys that differ in the places of their colons only, such as two IPv6 addresses, share one
-- counter.
pub sanitize_key_collides :
    (a b c d : Text) → a ++ b ≡ c ++ d → sanitize_key (a ++ b':' ∷ b) ≡ sanitize_key (c ++ b':' ∷ d)
unfolding sanitize_key
sanitize_key_collides a b c d h =
    ap (λ (s : Text). if ltb 512 (byte_len s) then take 512 s else s)
      (clean_drop a b b':' refl refl ∙ ap clean h ∙ sym (clean_drop c d b':' refl refl))

All-if :
    (P : ℕ → Type 0) (test : Bool) (c : ℕ) (s : Text)
    → (test ≡ true → P c)
    → All P s
    → All P (if test then c ∷ s else s)
All-if P true c s h hs = (h refl, hs)
All-if P false c s h hs = hs

clean_chars : (s : Text) → All (λ c. is_key_char c ≡ true) (clean s)
unfolding clean
clean_chars [] = tt
clean_chars (c ∷ s) =
    All-if (λ d. is_key_char d ≡ true) (is_key_char (if c == b' ' then b'-' else c)) _ _ (λ h. h)
      (clean_chars s)

take_chars : (P : ℕ → Type 0) (n : ℕ) (s : Text) → All P s → All P (take n s)
take_chars P zero s h = tt
take_chars P (suc n) [] h = tt
take_chars P (suc n) (c ∷ s) (h, hs) = (h, take_chars P n s hs)

byte_len_ascii : (s : Text) → All (λ c. is_key_char c ≡ true) s → byte_len s ≡ length s
unfolding byte_len
byte_len_ascii [] h = refl
byte_len_ascii (c ∷ s) (h, hs) = ground (arith, byte_len_ascii s hs, h)

length-take-le : {A : Type 0} (n : ℕ) (s : List A) → length (take n s) ≤ n
length-take-le zero s = omega arith
length-take-le (suc n) [] = omega arith
length-take-le (suc n) (c ∷ s) = omega (arith, length-take-le n s)

-- Every key that reaches Redis has at most 512 bytes, and only letters, digits, dashes, underscores
-- and dots.
pub sanitize_key_safe :
    (key : Text)
    → (byte_len (sanitize_key key) ≤ 512) × All (λ c. is_key_char c ≡ true) (sanitize_key key)
unfolding sanitize_key
sanitize_key_safe key = elim (Bool-cases (ltb 512 (byte_len (clean key)))) [
  | inr short ↦ rw short (ground (arith, short), clean_chars key)
  | inl long ↦
      let chars = take_chars (λ c. is_key_char c ≡ true) 512 (clean key) (clean_chars key) in
      rw long
        (rw (byte_len_ascii (take 512 (clean key)) chars) (length-take-le 512 (clean key)), chars)
]

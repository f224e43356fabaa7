-- ===== src/Listener/Channel.antt =====
-- integrations/telegram/telegram_adapter.py: the key that the two spellings of a channel's id share
-- (`canonical_channel_key_from_value`).
use basket_recovery_ea.Base.{
  ℕ, zero, suc, ◌+◌, ◌*◌, ◌-◌, ◌≡◌, ◌<◌, refl, Bool, true, false, Option, none, some, [], ◌∷◌,
  if◌then◌else◌, ltb, leb, ◌==◌, arith, ◌&&◌, ◌++◌, Bool-cases, inl, inr, ◌∙◌, sym, ap, all,
  all-append, ◌/◌, ◌%◌,
}
use basket_recovery_ea.Base.Int.{ℤ, pos, negsuc, show_nat, show_int, digits_fuel}
use basket_recovery_ea.Base.Text.{Text, strip, is_digit, is_solid, is_space, strip-solid}

abbrev pub telegram_channel_peer_offset : ℕ
telegram_channel_peer_offset = 1000000000000

-- The key of a negative id, by its size.
unfoldable pub key_of_size : ℕ → Text
key_of_size size =
    if leb telegram_channel_peer_offset size
    then (let channel_id = size - telegram_channel_peer_offset in
        if ltb 0 channel_id then show_nat channel_id else show_nat size)
    else show_nat size

-- The key of the number that a value reads as.
unfoldable pub key_of_number : ℤ → Option Text
unfolding key_of_size
key_of_number (pos n) = if n == 0 then none else some (show_nat n)
key_of_number (negsuc n) = some (key_of_size (suc n))

-- `int(text)` behind the sign, for ASCII: digits, with single underscores between them. The flag
-- says whether the last code point was a digit.
unfoldable pub read_digits : Bool → ℕ → Text → Option ℕ
read_digits after_digit acc [] = if after_digit then some acc else none
read_digits after_digit acc (c ∷ t) =
    let behind_underscore = read_digits false acc t in
    let behind_digit = read_digits true (acc * 10 + (c - b'0')) t in
    if is_digit c
    then behind_digit
    else (if after_digit && (c == b'_') then behind_underscore else none)

abbrev pub negated : ℕ → ℤ
negated zero = pos 0
negated (suc n) = negsuc n

abbrev map_int : (ℕ → ℤ) → Option ℕ → Option ℤ
map_int f none = none
map_int f (some n) = some (f n)

-- `int(text)`
unfoldable pub read_int : Text → Option ℤ
unfolding read_digits
read_int [] = none
read_int (c ∷ t) =
    if c == b'-'
    then map_int negated (read_digits false 0 t)
    else (if c == b'+'
        then map_int pos (read_digits false 0 t)
        else map_int pos (read_digits false 0 (c ∷ t)))

-- The value of a channel: an int, as events have it, or a text, as the database keeps it.
pub data ChannelValue : Type 0 where
  id_value : ℤ → ChannelValue
  text_value : Text → ChannelValue

-- `str(value)`
abbrev as_text : ChannelValue → Text
as_text (id_value z) = show_int z
as_text (text_value text) = text

abbrev key_of_read : Option ℤ → Option Text
key_of_read none = none
key_of_read (some z) = key_of_number z

-- `canonical_channel_key_from_value`; the empty text is no `int`.
unfoldable pub canonical_channel_key_from_value : Option ChannelValue → Option Text
unfolding read_int key_of_number strip
canonical_channel_key_from_value none = none
canonical_channel_key_from_value (some value) = key_of_read (read_int (strip (as_text value)))

unfoldable pub canonical_channel_key : ℤ → Option Text
unfolding canonical_channel_key_from_value
canonical_channel_key z = canonical_channel_key_from_value (some (id_value z))

unfoldable pub canonical_channel_key_from_text : Text → Option Text
unfolding canonical_channel_key_from_value
canonical_channel_key_from_text text = canonical_channel_key_from_value (some (text_value text))

read_digits-append :
    (b : Bool) (acc v c : ℕ) (xs : Text)
    → is_digit c ≡ true
    → read_digits b acc xs ≡ some v
    → read_digits b acc (xs ++ c ∷ []) ≡ some (v * 10 + (c - b'0'))
unfolding read_digits
read_digits-append b acc v c [] d h = ground arith
read_digits-append b acc v c (x ∷ xs) d h = ground (
  arith,
  read_digits-append true (acc * 10 + (x - b'0')) v c xs d,
  read_digits-append false acc v c xs d,
)

read_digits-digits_fuel : (f n : ℕ) → n < f → read_digits false 0 (digits_fuel f n) ≡ some n
unfolding digits_fuel
read_digits-digits_fuel zero n h = absurd (omega (arith, h))
read_digits-digits_fuel (suc f) n h = elim (Bool-cases (ltb n 10)) [
  | inl small ↦ rw small (unfold read_digits in ground arith)
  | inr big ↦
      let ih = read_digits-digits_fuel f (n / 10) (ground arith) in
      rw big (
        read_digits-append false 0 (n / 10) (b'0' + n % 10) (digits_fuel f (n / 10)) (ground arith)
          ih
        ∙ ap (λ m. some m) (omega arith))
]

read_int-unsigned : (t : Text) (n : ℕ) → read_digits false 0 t ≡ some n → read_int t ≡ some (pos n)
unfolding read_int read_digits
read_int-unsigned [] n h = absurd (ground arith)
read_int-unsigned (c ∷ t) n h = ground arith

-- An integer is read back from its decimal text.
read_int-show_int : (z : ℤ) → read_int (show_int z) ≡ some z
unfolding show_int show_nat
read_int-show_int (pos n) =
    read_int-unsigned (digits_fuel (suc n) n) n (read_digits-digits_fuel (suc n) n (omega arith))
read_int-show_int (negsuc n) =
    let d = read_digits-digits_fuel (suc (suc n)) (suc n) (omega arith) in
    unfold read_int in rw d refl

digits_fuel-solid : (f n : ℕ) → all is_solid (digits_fuel f n) ≡ true
unfolding digits_fuel
digits_fuel-solid zero n = refl
digits_fuel-solid (suc f) n = elim (Bool-cases (ltb n 10)) [
  | inl small ↦ rw small (unfold is_space in ground arith)
  | inr big ↦ rw big (
      all-append is_solid (digits_fuel f (n / 10)) ((b'0' + n % 10) ∷ [])
        (digits_fuel-solid f (n / 10)) (unfold is_space in ground arith))
]

show_int-solid : (z : ℤ) → all is_solid (show_int z) ≡ true
unfolding show_int show_nat
show_int-solid (pos n) = digits_fuel-solid (suc n) n
show_int-solid (negsuc n) =
    unfold is_space in ground (arith, digits_fuel-solid (suc (suc n)) (suc n))

-- An id reads as itself.
canonical_channel_key-number : (z : ℤ) → canonical_channel_key z ≡ key_of_number z
unfolding canonical_channel_key
canonical_channel_key-number z =
    rw (strip-solid (show_int z) (show_int-solid z), read_int-show_int z) refl

key_of_size-peer : (n : ℕ) → key_of_size (suc (telegram_channel_peer_offset + n)) ≡ show_nat (suc n)
unfolding key_of_size
key_of_size-peer n =
    let e : suc (telegram_channel_peer_offset + n) - telegram_channel_peer_offset ≡ suc n =
      omega arith in
    ground (arith, e, ap show_nat e)

-- The decimal text of a positive channel id leads to the same key as the negative peer id that
-- Telegram gives the channel in its events.
pub canonical_channel_key_peer_agrees :
    (n : ℕ)
    → canonical_channel_key_from_text (show_int (pos (suc n)))
      ≡ canonical_channel_key (negsuc (telegram_channel_peer_offset + n))
unfolding canonical_channel_key_from_text key_of_number canonical_channel_key
canonical_channel_key_peer_agrees n =
    canonical_channel_key-number (pos (suc n))
    ∙ ground (arith, key_of_size-peer n)
    ∙ sym (canonical_channel_key-number (negsuc (telegram_channel_peer_offset + n)))

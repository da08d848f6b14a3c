-- ===== src/Storage/Paths/Numbers.antt =====
-- The numbers in the names of src/storage.c: what `%05d` writes, read back.
use native.Mathlib.Nat.{pow-suc}
use montion_sense.Prelude.{
  ℕ, zero, suc, ◌+◌, ◌-◌, ◌*◌, ◌/◌, ◌%◌, ◌^◌, ◌<◌, ◌≤◌, ◌≡◌, sym, ◌∙◌, ap, arith, Bool, true, ◌&&◌,
  List, [], ◌∷◌, ◌==◌, leb, if_elim, if◌then◌else◌, length, take_all,
}
use montion_sense.Storage.Paths.{digits, snprintf}

unfoldable pub is_digit : ℕ → Bool
is_digit c = leb b'0' c && leb c b'9'

-- The number that a text starts with, added to the digits before it, and what follows it.
unfoldable pub read_number : ℕ → List ℕ → ℕ × List ℕ
read_number acc [] = (acc, [])
read_number acc (c ∷ cs) =
    let more = read_number (acc * 10 + (c - b'0')) cs in if is_digit c then more else (acc, c ∷ cs)

read_number-digit :
    (acc d : ℕ) (cs : List ℕ)
    → d < 10
    → read_number acc ((b'0' + d) ∷ cs) ≡ read_number (acc * 10 + d) cs
unfolding read_number is_digit
read_number-digit acc d cs h =
    let e : b'0' + d - b'0' ≡ d = omega arith in
    let t : (leb b'0' (b'0' + d) && leb (b'0' + d) b'9') ≡ true = ground arith in
    rw t (ap (λ (x : ℕ). read_number (acc * 10 + x) cs) e)

pub read_number-digits :
    (fuel width n : ℕ) (text : List ℕ)
    → n < 10 ^ fuel
    → read_number 0 (digits fuel width n text) ≡ read_number n text
unfolding digits
read_number-digits zero width n text h =
    let e : n ≡ 0 = omega arith in ap (λ (x : ℕ). read_number x text) (sym e)
read_number-digits (suc fuel) width n text h =
    if_elim (λ (s : List ℕ). read_number 0 s ≡ read_number n text) (width == 0 && n == 0) _ _
      (λ t. let e : n ≡ 0 = ground arith in ap (λ (x : ℕ). read_number x text) (sym e))
      (λ _.
        read_number-digits fuel (width - 1) (n / 10) _
          (let p : 10 ^ suc fuel ≡ 10 ^ fuel * 10 = pow-suc 10 fuel in omega arith)
        ∙ read_number-digit (n / 10) (n % 10) text (omega arith)
        ∙ ap (λ (x : ℕ). read_number x text) (omega arith))

-- Between `width` and `fuel` digits.
pub length-digits :
    (fuel width n : ℕ) (text : List ℕ)
    → width ≤ fuel
    → (length text + width ≤ length (digits fuel width n text))
      × (length (digits fuel width n text) ≤ length text + fuel)
unfolding digits
length-digits zero width n text h = (omega arith, omega arith)
length-digits (suc fuel) width n text h =
    if_elim (λ (s : List ℕ). (length text + width ≤ length s) × (length s ≤ length text + suc fuel))
      (width == 0 && n == 0) _ _ (λ t. (ground arith, omega arith))
      (λ _.
        let r = length-digits fuel (width - 1) (n / 10) ((b'0' + n % 10) ∷ text) (omega arith) in
        (omega arith, omega arith))

-- A number below 10 ^ k has at most k digits, when k are asked for at most.
pub length-digits_below :
    (k fuel width n : ℕ) (text : List ℕ)
    → k ≤ fuel
    → width ≤ k
    → n < 10 ^ k
    → length (digits fuel width n text) ≤ length text + k
unfolding digits
length-digits_below k zero width n text h w i = omega arith
length-digits_below zero (suc fuel) width n text h w i =
    if_elim (λ (s : List ℕ). length s ≤ length text + 0) (width == 0 && n == 0) _ _
      (λ _. omega arith) (λ f. absurd (ground arith))
length-digits_below (suc k) (suc fuel) width n text h w i =
    let p = pow-suc 10 k in
    if_elim (λ (s : List ℕ). length s ≤ length text + suc k) (width == 0 && n == 0) _ _
      (λ _. omega arith)
      (λ _.
        let r =
          length-digits_below k fuel (width - 1) (n / 10) ((b'0' + n % 10) ∷ text) (omega arith)
            (omega arith) (omega (arith, p)) in
        omega (arith, r))

pub snprintf_fits : (size : ℕ) (text : List ℕ) → length text < size → snprintf size text ≡ text
unfolding snprintf
snprintf_fits size text h = take_all (size - 1) text (omega arith)

-- ===== src/WebSock/Reader.antt =====
-- A reader of the pictures that `web_sock_push` of src/media.c sends.
use montion_sense.Prelude.{
  ℕ, suc, ◌+◌, ◌*◌, ◌/◌, ◌%◌, ◌^◌, ◌≤◌, ◌<◌, ◌≡◌, refl, sym, subst, ap, ◌∙◌, arith, Option, none,
  some, List, [], ◌∷◌, ◌++◌, leb, if_elim, if◌then◌else◌, length, take, drop,
}
use montion_sense.WebSock.{htonl, message}

-- A reader of the protocol: a length of four bytes, the highest first, and that many bytes.
abbrev pub add_frame : List ℕ → Option (List (List ℕ)) → Option (List (List ℕ))
add_frame f none = none
add_frame f (some fs) = some (f ∷ fs)

unfoldable pub read_frames : ℕ → List ℕ → Option (List (List ℕ))
read_frames n [] = some []
read_frames (suc n) (a ∷ b ∷ c ∷ d ∷ rest) =
    let len = a * 2 ^ 24 + b * 2 ^ 16 + c * 2 ^ 8 + d in
    let more = read_frames n (drop len rest) in
    if leb len (length rest) then add_frame (take len rest) more else none
read_frames _ _ = none

htonl-value :
    (n : ℕ)
    → n < 2 ^ 32
    → (n / 2 ^ 24 % 256) * 2 ^ 24
        + (n / 2 ^ 16 % 256) * 2 ^ 16
        + (n / 2 ^ 8 % 256) * 2 ^ 8
        + n % 256
      ≡ n
htonl-value n h = omega arith

-- The messages of some pictures, one after the other.
abbrev pub stream_of : List (List ℕ) → List ℕ
stream_of [] = []
stream_of (p ∷ ps) = message p ++ stream_of ps

take-append_all : (p q : List ℕ) → take (length p) (p ++ q) ≡ p
take-append_all [] q = refl
take-append_all (x ∷ p) q = ap (◌∷◌ x) (take-append_all p q)

drop-append_all : (p q : List ℕ) → drop (length p) (p ++ q) ≡ q
drop-append_all [] q = refl
drop-append_all (x ∷ p) q = drop-append_all p q

length-append_le : (p q : List ℕ) → length p ≤ length (p ++ q)
length-append_le [] q = omega arith
length-append_le (x ∷ p) q = let h = length-append_le p q in omega arith

-- A reader takes the length and the picture off the stream.
read_frames-message :
    (n : ℕ) (p rest : List ℕ)
    → length p < 2 ^ 32
    → read_frames (suc n) (message p ++ rest) ≡ add_frame p (read_frames n rest)
unfolding read_frames message htonl
read_frames-message n p rest h =
    let small : length p % 2 ^ 32 ≡ length p = omega arith in
    let value = htonl-value (length p % 2 ^ 32) (omega arith) ∙ small in
    let fits = length-append_le p rest in
    subst
      (λ k.
        (if leb k (length (p ++ rest))
          then add_frame (take k (p ++ rest)) (read_frames n (drop k (p ++ rest)))
          else none)
        ≡ add_frame p (read_frames n rest))
      (sym value)
      (if_elim (λ o. o ≡ add_frame p (read_frames n rest)) (leb (length p) (length (p ++ rest))) _ _
        (λ _. rw (take-append_all p rest, drop-append_all p rest) refl)
        (λ b. absurd (ground arith)))

-- Pictures whose lengths fit the four bytes.
abbrev pub Small : List (List ℕ) → Type 0
Small [] = Unit {0}
Small (p ∷ ps) = (length p < 2 ^ 32) × Small ps

pub read_frames-stream_of :
    (fs : List (List ℕ)) → Small fs → read_frames (length fs) (stream_of fs) ≡ some fs
unfolding read_frames
read_frames-stream_of [] s = refl
read_frames-stream_of (p ∷ fs) (h, s) =
    read_frames-message (length fs) p (stream_of fs) h
    ∙ ap (add_frame p) (read_frames-stream_of fs s)

-- ===== src/WebSock/Framing.antt =====
-- `web_sock_push` of src/media.c: what a client reads from its connection.
use montion_sense.Prelude.{
  ℕ, suc, ◌+◌, ◌%◌, ◌^◌, ◌<◌, ◌≡◌, refl, sym, subst, ap, ap₂, ◌∙◌, arith, Bool, true, false, Option,
  none, some, List, [], ◌∷◌, ◌++◌, append_assoc, append-nil, if_elim, if◌then◌else◌, length, take,
  take_all,
}
use montion_sense.WebSock.{
  mjpeg_turns, mjpeg_thread, WebSock, Send, sent, would_block, failed, htonl, message, send_message,
  to_client, web_sock_push, push_all,
}
use montion_sense.WebSock.Reader.{read_frames, read_frames-stream_of, stream_of, Small}

-- What the web process gets: the pictures since it connected, without those that it was too slow for.
unfoldable pub after_send : Send → List ℕ → List (List ℕ) → Option (List (List ℕ))
after_send (sent n) p fs = some (fs ++ p ∷ [])
after_send would_block p fs = some fs
after_send failed p fs = none

unfoldable pub deliver : Bool → Send → List ℕ → Option (List (List ℕ)) → Option (List (List ℕ))
deliver accepts send p (some fs) = after_send send p fs
deliver accepts send p none = if accepts then after_send send p [] else none

unfoldable pub deliver_all :
    List (Bool × Send × List ℕ) → Option (List (List ℕ)) → Option (List (List ℕ))
deliver_all [] c = c
deliver_all ((accepts, send, p) ∷ ps) c = deliver_all ps (deliver accepts send p c)

-- The kernel takes a whole message or none of it, and its length fits.
abbrev pub IsWhole : Send → List ℕ → Type 0
IsWhole (sent n) p = n ≡ 4 + length p
IsWhole would_block p = Unit {0}
IsWhole failed p = Unit {0}

abbrev pub AllWhole : List (Bool × Send × List ℕ) → Type 0
AllWhole [] = Unit {0}
AllWhole ((accepts, send, p) ∷ ps) = IsWhole send p × (length p < 2 ^ 32) × AllWhole ps

-- A connection that has been sent these pictures.
data Carries : Option (List ℕ) → Option (List (List ℕ)) → Type 0 where
  closed : Carries none none
  open_ : (fs : List (List ℕ)) → Small fs → Carries (some (stream_of fs)) (some fs)

stream_of-append_one :
    (fs : List (List ℕ)) (p : List ℕ) → stream_of (fs ++ p ∷ []) ≡ stream_of fs ++ message p
stream_of-append_one [] p = append-nil (message p)
stream_of-append_one (f ∷ fs) p =
    ap (◌++◌ (message f)) (stream_of-append_one fs p) ∙ sym (append_assoc (message f) _ _)

Small-append_one :
    (fs : List (List ℕ)) (p : List ℕ) → Small fs → length p < 2 ^ 32 → Small (fs ++ p ∷ [])
Small-append_one [] p s h = (h, tt)
Small-append_one (f ∷ fs) p (k, s) h = (k, Small-append_one fs p s h)

length-message : (p : List ℕ) → length (message p) ≡ 4 + length p
unfolding message htonl
length-message p = omega arith

send_message-Carries :
    (send : Send) (p : List ℕ) (fs : List (List ℕ)) (w : WebSock)
    → Small fs
    → IsWhole send p
    → length p < 2 ^ 32
    → Carries (send_message send p (stream_of fs) w).client (after_send send p fs)
unfolding send_message after_send
send_message-Carries (sent n) p fs w s e h =
    let all = take_all n (message p) (rw length-message (omega arith)) in
    subst (λ x. Carries (some x) (some (fs ++ p ∷ [])))
      (stream_of-append_one fs p ∙ sym (ap (◌++◌ (stream_of fs)) all))
      (open_ (fs ++ p ∷ []) (Small-append_one fs p s h))
send_message-Carries would_block p fs w s e h = open_ fs s
send_message-Carries failed p fs w s e h = closed

to_client-Carries :
    (accepts : Bool) (send : Send) (p : List ℕ) (w : WebSock) (o : Option (List ℕ))
    (c : Option (List (List ℕ)))
    → Carries o c
    → w.client ≡ o
    → IsWhole send p
    → length p < 2 ^ 32
    → Carries (to_client accepts send p o w).client (deliver accepts send p c)
unfolding to_client deliver
to_client-Carries accepts send p w _ _ (open_ fs s) q e h = send_message-Carries send p fs w s e h
to_client-Carries true send p w _ _ closed q e h = send_message-Carries send p [] w tt e h
to_client-Carries false send p w _ _ closed q e h = subst (λ o. Carries o none) (sym q) closed

send_message-listening :
    (send : Send) (p stream : List ℕ) (w : WebSock)
    → (send_message send p stream w).listening ≡ w.listening
unfolding send_message
send_message-listening (sent n) p stream w = refl
send_message-listening would_block p stream w = refl
send_message-listening failed p stream w = refl

to_client-listening :
    (accepts : Bool) (send : Send) (p : List ℕ) (o : Option (List ℕ)) (w : WebSock)
    → (to_client accepts send p o w).listening ≡ w.listening
unfolding to_client
to_client-listening accepts send p (some stream) w = send_message-listening send p stream w
to_client-listening true send p none w = send_message-listening send p [] w
to_client-listening false send p none w = refl

push_all-Carries :
    (ps : List (Bool × Send × List ℕ)) (w : WebSock) (c : Option (List (List ℕ)))
    → w.listening ≡ true
    → Carries w.client c
    → AllWhole ps
    → Carries (push_all ps w).client (deliver_all ps c)
unfolding push_all deliver_all web_sock_push
push_all-Carries [] w c l r a = r
push_all-Carries ((accepts, send, p) ∷ ps) w c l r (e, h, a) =
    if_elim
      (λ (v : WebSock). Carries (push_all ps v).client (deliver_all ps (deliver accepts send p c)))
      w.listening _ _
      (λ _.
        push_all-Carries ps (to_client accepts send p w.client w) (deliver accepts send p c)
          (to_client-listening accepts send p w.client w ∙ l)
          (to_client-Carries accepts send p w w.client c r refl e h) a)
      (λ b. absurd cc)

-- What a client reads off its connection.
abbrev pub Reads : Option (List ℕ) → Option (List (List ℕ)) → Type 0
Reads none none = Unit {0}
Reads (some stream) (some fs) = read_frames (length fs) stream ≡ some fs
Reads none (some fs) = ⊥
Reads (some stream) none = ⊥

Carries-Reads : (o : Option (List ℕ)) (c : Option (List (List ℕ))) → Carries o c → Reads o c
Carries-Reads _ _ closed = tt
Carries-Reads _ _ (open_ fs s) = read_frames-stream_of fs s

push_all-Reads :
    (ps : List (Bool × Send × List ℕ)) (w : WebSock)
    → w.listening ≡ true
    → w.client ≡ none
    → AllWhole ps
    → Reads (push_all ps w).client (deliver_all ps none)
push_all-Reads ps w l n a =
    Carries-Reads _ _ (push_all-Carries ps w none l (subst (λ o. Carries o none) (sym n) closed) a)

-- The pictures that the encoder has given.
abbrev pub given : List (Option (Bool × Send × List ℕ)) → List (Bool × Send × List ℕ)
given [] = []
given (none ∷ ts) = given ts
given (some p ∷ ts) = p ∷ given ts

abbrev pub given_if : Bool → List (Option (Bool × Send × List ℕ)) → List (Bool × Send × List ℕ)
given_if false ts = []
given_if true ts = given ts

mjpeg_turns-push_all :
    (ts : List (Option (Bool × Send × List ℕ))) (w : WebSock)
    → mjpeg_turns ts w ≡ push_all (given ts) w
unfolding mjpeg_turns push_all
mjpeg_turns-push_all [] w = refl
mjpeg_turns-push_all (none ∷ ts) w = mjpeg_turns-push_all ts w
mjpeg_turns-push_all (some (accepts, send, p) ∷ ts) w =
    mjpeg_turns-push_all ts (web_sock_push accepts send p w)

mjpeg_thread-push_all :
    (alloc : Bool) (ts : List (Option (Bool × Send × List ℕ))) (w : WebSock)
    → mjpeg_thread alloc ts w ≡ push_all (given_if alloc ts) w
unfolding mjpeg_thread push_all
mjpeg_thread-push_all false ts w = refl
mjpeg_thread-push_all true ts w = mjpeg_turns-push_all ts w

-- Whichever clients come and go and whichever pictures are dropped or not given by the encoder: while the
-- kernel takes each message whole or not at all, and no picture has 2 ^ 32 bytes, the client that is
-- connected at the end of the thread's turns reads exactly the pictures that were sent since it
-- connected, in order and uncut; there are none when the thread gets no memory. The socket listens, and
-- no client is connected at first.
pub mjpeg_thread-Reads :
    (alloc : Bool) (ts : List (Option (Bool × Send × List ℕ))) (w : WebSock)
    → w.listening ≡ true
    → w.client ≡ none
    → AllWhole (given_if alloc ts)
    → Reads (mjpeg_thread alloc ts w).client (deliver_all (given_if alloc ts) none)
mjpeg_thread-Reads alloc ts w l n a =
    subst (λ (v : WebSock). Reads v.client (deliver_all (given_if alloc ts) none))
      (sym (mjpeg_thread-push_all alloc ts w)) (push_all-Reads (given_if alloc ts) w l n a)

take-message :
    (p : List ℕ) (k : ℕ) → take (4 + k) (message p) ≡ htonl (length p % 2 ^ 32) ++ take k p
unfolding message htonl
take-message p k =
    let e : suc (suc (suc (suc k))) ≡ 4 + k = omega arith in
    subst (λ n. take n (message p) ≡ htonl (length p % 2 ^ 32) ++ take k p) e refl

-- A message that the kernel takes only k bytes of the picture of is not completed: after it and a whole
-- second message, a client has the first picture's length, k bytes of it, and then the second message,
-- header and all, where the rest of the first picture belongs.
pub push_all-cut :
    (p q : List ℕ) (k : ℕ)
    → k < length p
    → (push_all
        ((true, sent (4 + k), p) ∷ (true, sent (4 + length q), q) ∷ [])
        (record { listening = true; client = none })).client
      ≡ some ((htonl (length p % 2 ^ 32) ++ take k p) ++ message q)
unfolding push_all web_sock_push to_client send_message
push_all-cut p q k h = ap some (
    ap₂ ◌++◌ (take-message p k)
      (take_all (4 + length q) (message q) (rw length-message (omega arith))))

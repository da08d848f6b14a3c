-- ===== src/Tests/WebSock.antt =====
-- The pictures' socket at concrete inputs.
use montion_sense.Prelude.{
  ℕ, ◌+◌, ◌%◌, ◌^◌, ◌≡◌, refl, arith, true, false, none, some, Option, List, [], ◌∷◌, ◌++◌, Bool,
}
use montion_sense.WebSock.{
  WebSock, Send, sent, would_block, failed, no_socket, web_sock_srv_init, push_all, mjpeg_thread,
  htonl, message,
}
use montion_sense.WebSock.Framing.{
  AllWhole, Reads, deliver, deliver_all, after_send, mjpeg_thread-Reads, push_all-cut,
}

abbrev listening : WebSock
listening = record { listening = true; client = none }

starts :
    (web_sock_srv_init true true true no_socket ≡ listening)
    × (web_sock_srv_init true false true no_socket ≡ no_socket)
unfolding web_sock_srv_init
starts = (refl, refl)

-- No client; a client that connects, is slow once, and gets the next one; it leaves and comes back.
abbrev pictures : List (Bool × Send × List ℕ)
pictures =
    (false, failed, 1 ∷ [])
    ∷ (true, sent 6, 2 ∷ 3 ∷ [])
    ∷ (false, would_block, 4 ∷ [])
    ∷ (false, sent 5, 5 ∷ [])
    ∷ []

delivered : deliver_all pictures none ≡ some ((2 ∷ 3 ∷ []) ∷ (5 ∷ []) ∷ [])
unfolding deliver_all deliver after_send
delivered = refl

pictures-AllWhole : AllWhole pictures
pictures-AllWhole =
    (tt, omega arith, (omega arith, omega arith, (tt, omega arith, (omega arith, omega arith, tt))))

-- The encoder gives nothing in the third turn.
abbrev stream_turns : List (Option (Bool × Send × List ℕ))
stream_turns =
    some (false, failed, 1 ∷ [])
    ∷ some (true, sent 6, 2 ∷ 3 ∷ [])
    ∷ none
    ∷ some (false, would_block, 4 ∷ [])
    ∷ some (false, sent 5, 5 ∷ [])
    ∷ []

mjpeg_thread-Reads_example :
    Reads (mjpeg_thread true stream_turns listening).client (deliver_all pictures none)
mjpeg_thread-Reads_example =
    mjpeg_thread-Reads true stream_turns listening refl refl pictures-AllWhole

push_all-cut_example :
    (push_all
      ((true, sent (4 + 1), 7 ∷ 8 ∷ []) ∷ (true, sent (4 + 1), 9 ∷ []) ∷ [])
      listening).client
    ≡ some ((htonl (2 % 2 ^ 32) ++ 7 ∷ []) ++ message (9 ∷ []))
push_all-cut_example = push_all-cut (7 ∷ 8 ∷ []) (9 ∷ []) 1 (omega arith)

-- ===== src/WebSock.antt =====
-- src/media.c, `web_sock_srv_init` and `web_sock_push`: the MJPEG pictures for the web process.
--
-- A connection is the bytes that it has been sent. What the kernel answers is an argument.
pub mod Reader
pub mod Framing
use montion_sense.Prelude.{
  ℕ, ◌+◌, ◌/◌, ◌%◌, ◌^◌, Bool, true, false, ◌&&◌, Option, none, some, List, [], ◌∷◌, ◌++◌,
  if◌then◌else◌, length, take,
}

-- `s_web_srv_fd` is not negative, and `s_web_sock` with what its client has been sent.
pub record WebSock : Type 0 where
  pub listening : Bool
  pub client : Option (List ℕ)

abbrev pub no_socket : WebSock
no_socket = record { listening = false; client = none }

-- The flags say whether `socket`, `bind` and `listen` succeed.
unfoldable pub web_sock_srv_init : Bool → Bool → Bool → WebSock → WebSock
web_sock_srv_init socket bind listen w =
    if socket && (bind && listen) then record w { listening = true } else w

-- What `sendmsg` returns: a count of bytes, EAGAIN, or another error.
pub data Send : Type 0 where
  sent : ℕ → Send
  would_block failed : Send

-- `htonl`, as the bytes in memory.
unfoldable pub htonl : ℕ → List ℕ
htonl n = n / 2 ^ 24 % 256 ∷ n / 2 ^ 16 % 256 ∷ n / 2 ^ 8 % 256 ∷ n % 256 ∷ []

-- The two parts of the message.
unfoldable pub message : List ℕ → List ℕ
message payload = htonl (length payload % 2 ^ 32) ++ payload

unfoldable pub send_message : Send → List ℕ → List ℕ → WebSock → WebSock
send_message (sent n) payload stream w = record w {
  client = some (stream ++ take n (message payload));
}
send_message would_block payload stream w = record w { client = some stream }
send_message failed payload stream w = record w { client = none }

-- `accepts` says whether a client is waiting.
unfoldable pub to_client : Bool → Send → List ℕ → Option (List ℕ) → WebSock → WebSock
to_client accepts send payload (some stream) w = send_message send payload stream w
to_client accepts send payload none w = if accepts then send_message send payload [] w else w

unfoldable pub web_sock_push : Bool → Send → List ℕ → WebSock → WebSock
web_sock_push accepts send payload w =
    if w.listening then to_client accepts send payload w.client w else w

-- The pictures of `mjpeg_thread`, each with what the kernel answers.
unfoldable pub push_all : List (Bool × Send × List ℕ) → WebSock → WebSock
push_all [] w = w
push_all ((accepts, send, payload) ∷ ps) w = push_all ps (web_sock_push accepts send payload w)

-- The loop of `mjpeg_thread`; `none` is a turn in which VENC_GetStream gives nothing.
unfoldable pub mjpeg_turns : List (Option (Bool × Send × List ℕ)) → WebSock → WebSock
mjpeg_turns [] w = w
mjpeg_turns (none ∷ ts) w = mjpeg_turns ts w
mjpeg_turns (some (accepts, send, payload) ∷ ts) w =
    mjpeg_turns ts (web_sock_push accepts send payload w)

-- The flag says whether `malloc` succeeds.
unfoldable pub mjpeg_thread : Bool → List (Option (Bool × Send × List ℕ)) → WebSock → WebSock
mjpeg_thread false ts w = w
mjpeg_thread true ts w = mjpeg_turns ts w

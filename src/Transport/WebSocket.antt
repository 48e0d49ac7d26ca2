-- ===== src/Transport/WebSocket.antt =====
-- internal/transport/ws.go: wsNetConn, which carries a stream of bytes in binary messages, and which
-- requests the server upgrades. The messages are those of the websocket library: what a reader of
-- one message gives is the parameter `read` of an interface that Messages states.
pub mod Messages
pub mod Stream
pub mod Delivery
use cando.Base.{
  ℕ, Bool, true, false, not, ◌&&◌, ◌||◌, Option, some, none, List, [], ◌∷◌, Result, ok, err, length,
  ◌++◌, ◌==◌, if◌then◌else◌,
}
use cando.Base.Bytes.{Bytes, text, bytes_eq}
use cando.Base.Text.{is_empty, to_lower}

pub data Kind : Type 0 where
  binary other : Kind

-- How a read of a message's reader ends: with no error, at the end of the message, or with an error.
pub data ReadEnd : Type 0 where
  more eof failed : ReadEnd

-- What Read returns next to the bytes: nothing, the error of the reader, or that of NextReader.
pub data ReadError : Type 0 where
  none_ broken closed : ReadError

-- wsNetConn: `reader`, and the messages that NextReader still gives before it fails.
pub record WsNetConn {ℓ} (R : Type ℓ) : Type ℓ where
  pub reader : Option R
  pub messages : List (Kind × R)

module _ {ℓ} {R : Type ℓ} (read_message : R → ℕ → Bytes × ReadEnd × R) where
  -- What Read makes of the reader's answer; `rest` goes on with the next message.
  unfoldable pub answered :
      Bytes × ReadEnd × R
      → List (Kind × R)
      → (Bytes × ReadError) × WsNetConn R
      → (Bytes × ReadError) × WsNetConn R
  answered (bs, more, r) ms rest = ((bs, none_), record { reader = some r; messages = ms })
  answered (bs, failed, r) ms rest = ((bs, broken), record { reader = some r; messages = ms })
  answered ([], eof, r) ms rest = rest
  answered (b ∷ bs, eof, r) ms rest = ((b ∷ bs, none_), record { reader = none; messages = ms })

  -- The loop of Read where `reader` is nil: NextReader skips messages that are not binary.
  unfoldable pub read_next : List (Kind × R) → ℕ → (Bytes × ReadError) × WsNetConn R
  read_next [] n = (([], closed), record { reader = none; messages = [] })
  read_next ((other, r) ∷ ms) n = read_next ms n
  read_next ((binary, r) ∷ ms) n = answered (read_message r n) ms (read_next ms n)

  unfoldable pub read_from : Option R → List (Kind × R) → ℕ → (Bytes × ReadError) × WsNetConn R
  read_from none ms n = read_next ms n
  read_from (some r) ms n = answered (read_message r n) ms (read_next ms n)

  -- wsNetConn.Read of at most `n` bytes.
  unfoldable pub read : WsNetConn R → ℕ → (Bytes × ReadError) × WsNetConn R
  read c n = read_from c.reader c.messages n

  -- Reads of several sizes, up to the first that ends with an error: what they return, and what is
  -- left.
  unfoldable pub reads_after :
      ((Bytes × ReadError) × WsNetConn R)
      → (WsNetConn R → Bytes × WsNetConn R)
      → Bytes × WsNetConn R
  reads_after ((bs, none_), c) rest = let r = rest c in (bs ++ r.0, r.1)
  reads_after ((bs, broken), c) rest = (bs, c)
  reads_after ((bs, closed), c) rest = (bs, c)

  unfoldable pub reads : List ℕ → WsNetConn R → Bytes × WsNetConn R
  reads [] c = ([], c)
  reads (n ∷ ns) c = reads_after (read c n) (reads ns)

-- wsNetConn.Write: one binary message for each call that succeeds, and its length.
unfoldable pub write : Bool → Bytes → List Bytes → Result (Unit {0}) ℕ × List Bytes
write sends p sent = if sends then (ok (length p), sent ++ (p ∷ [])) else (err tt, sent)

-- strings.Contains
unfoldable pub has_prefix : Bytes → Bytes → Bool
has_prefix [] s = true
has_prefix (p ∷ ps) [] = false
has_prefix (p ∷ ps) (c ∷ s) = (p == c) && has_prefix ps s

unfoldable pub has_text : Bytes → Bytes → Bool
has_text [] sub = is_empty sub
has_text (c ∷ s) sub = has_prefix sub (c ∷ s) || has_text s sub

-- isWebSocketUpgrade, by the headers Connection and Upgrade.
unfoldable pub is_web_socket_upgrade : Bytes → Bytes → Bool
is_web_socket_upgrade connection upgrade =
    has_text (to_lower connection) (text "upgrade")
    && bytes_eq (to_lower upgrade) (text "websocket")

-- What the server answers: the page of a web server that has nothing there, or the upgrade.
pub data Answer : Type 0 where
  not_found upgraded : Answer

-- handle, as far as its test: `path` is the listener's, the rest is of the request.
unfoldable pub answer : Bytes → Bytes → Bytes → Bytes → Answer
answer path requested connection upgrade =
    if (not (is_empty path) && not (bytes_eq requested path))
      || not (is_web_socket_upgrade connection upgrade)
    then not_found
    else upgraded

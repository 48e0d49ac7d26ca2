-- ===== src/Transport/WebSocket/Messages.antt =====
-- internal/transport/ws.go: what wsNetConn relies on of the reader of one message, an io.Reader.
use cando.Base.{ℕ, ◌≡◌, ◌≢◌, ◌≤◌, ◌<◌, ◌++◌, length, []}
use cando.Base.Bytes.{Bytes}
use cando.Transport.WebSocket.{ReadEnd, more, eof}

-- `content` are the bytes that are still to come, a last part of which may get lost where the reader
-- fails. A reader gives them in order, at most as many as it is asked for, and some where it is asked
-- for some and does not end; only at the end of the message nothing is left.
pub record MessageReader {ℓ} (R : Type ℓ) : Type ℓ where
  pub read_message : R → ℕ → Bytes × ReadEnd × R
  pub content : R → Bytes
  pub in_order : (r : R) (n : ℕ) → content r ≡ (read_message r n).0 ++ content (read_message r n).2
  pub at_most : (r : R) (n : ℕ) → length (read_message r n).0 ≤ n
  pub progress : (r : R) (n : ℕ) → 0 < n → (read_message r n).1 ≡ more → (read_message r n).0 ≢ []
  pub at_end : (r : R) (n : ℕ) → (read_message r n).1 ≡ eof → content (read_message r n).2 ≡ []
  pub message : Bytes → R
  pub whole : (p : Bytes) → content (message p) ≡ p

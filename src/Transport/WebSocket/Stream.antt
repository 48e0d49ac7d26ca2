-- ===== src/Transport/WebSocket/Stream.antt =====
-- internal/transport/ws.go: wsNetConn is a stream of bytes, in which the messages leave no trace.
use mathlib.Core.List.{append_assoc, append-nil}
use cando.Base.{ℕ, ◌≡◌, refl, sym, ap, ◌∙◌, Option, some, none, List, [], ◌∷◌, ◌++◌}
use cando.Base.Bytes.{Bytes}
use cando.Transport.WebSocket.{
  Kind, binary, other, ReadEnd, more, eof, failed, ReadError, none_, broken, closed, WsNetConn,
  answered, read_next, read_from, read, reads_after, reads,
}
use cando.Transport.WebSocket.Messages.{MessageReader}

module _ {ℓ} {R : Type ℓ} (m : MessageReader R) where
  -- What the messages still carry.
  unfoldable pub pending : List (Kind × R) → Bytes
  pending [] = []
  pending ((binary, r) ∷ ms) = m.content r ++ pending ms
  pending ((other, r) ∷ ms) = pending ms

  unfoldable pub begun : Option R → Bytes
  begun none = []
  begun (some r) = m.content r

  -- The stream that the connection still has: the rest of the message that is being read, and those
  -- that follow.
  unfoldable pub stream : WsNetConn R → Bytes
  stream c = begun c.reader ++ pending c.messages

  -- What an answer returns comes first in the stream.
  answered-stream :
      (a : Bytes × ReadEnd × R) (s : Bytes) (ms : List (Kind × R))
      (rest : (Bytes × ReadError) × WsNetConn R)
      → s ≡ a.0 ++ m.content a.2
      → (a.1 ≡ eof → m.content a.2 ≡ [])
      → pending ms ≡ rest.0.0 ++ stream rest.1
      → s ++ pending ms
        ≡ (answered m.read_message a ms rest).0.0 ++ stream (answered m.read_message a ms rest).1
  unfolding answered stream begun
  answered-stream (bs, more, r) s ms rest e z h =
      ap (λ x. x ++ pending ms) e ∙ append_assoc bs (m.content r) (pending ms)
  answered-stream (bs, failed, r) s ms rest e z h =
      ap (λ x. x ++ pending ms) e ∙ append_assoc bs (m.content r) (pending ms)
  answered-stream ([], eof, r) s ms rest e z h = ap (λ x. x ++ pending ms) (e ∙ z refl) ∙ h
  answered-stream (b ∷ bs, eof, r) s ms rest e z h =
      ap (λ x. x ++ pending ms) (e ∙ ap (λ x. b ∷ bs ++ x) (z refl) ∙ append-nil (b ∷ bs))

  read_next-stream :
      (ms : List (Kind × R)) (n : ℕ)
      → pending ms ≡ (read_next m.read_message ms n).0.0 ++ stream (read_next m.read_message ms n).1
  unfolding read_next pending stream begun
  read_next-stream [] n = refl
  read_next-stream ((other, r) ∷ ms) n = read_next-stream ms n
  read_next-stream ((binary, r) ∷ ms) n =
      answered-stream (m.read_message r n) (m.content r) ms (read_next m.read_message ms n)
        (m.in_order r n) (m.at_end r n) (read_next-stream ms n)

  read_from-stream :
      (o : Option R) (ms : List (Kind × R)) (n : ℕ)
      → begun o ++ pending ms
        ≡ (read_from m.read_message o ms n).0.0 ++ stream (read_from m.read_message o ms n).1
  unfolding read_from begun
  read_from-stream none ms n = read_next-stream ms n
  read_from-stream (some r) ms n =
      answered-stream (m.read_message r n) (m.content r) ms (read_next m.read_message ms n)
        (m.in_order r n) (m.at_end r n) (read_next-stream ms n)

  -- One Read takes the first bytes of the stream, whether it ends with an error or not.
  pub read-stream :
      (c : WsNetConn R) (n : ℕ)
      → stream c ≡ (read m.read_message c n).0.0 ++ stream (read m.read_message c n).1
  unfolding read stream
  read-stream c n = read_from-stream c.reader c.messages n

  reads_after-stream :
      (ns : List ℕ) (s : Bytes) (a : (Bytes × ReadError) × WsNetConn R)
      → s ≡ a.0.0 ++ stream a.1
      → ((c : WsNetConn R)
          → stream c ≡ (reads m.read_message ns c).0 ++ stream (reads m.read_message ns c).1)
      → s
        ≡ (reads_after m.read_message a (reads m.read_message ns)).0
          ++ stream (reads_after m.read_message a (reads m.read_message ns)).1
  unfolding reads_after
  reads_after-stream ns s ((bs, none_), c) e h =
      e
      ∙ ap (λ x. bs ++ x) (h c)
      ∙ sym (append_assoc bs (reads m.read_message ns c).0 (stream (reads m.read_message ns c).1))
  reads_after-stream ns s ((bs, broken), c) e h = e
  reads_after-stream ns s ((bs, closed), c) e h = e

  -- Reads of any sizes, up to the first that ends with an error, return the first part of the stream
  -- in order, and leave the rest of it: where a message ends makes no difference.
  pub reads-stream :
      (ns : List ℕ) (c : WsNetConn R)
      → stream c ≡ (reads m.read_message ns c).0 ++ stream (reads m.read_message ns c).1
  unfolding reads
  reads-stream [] c = refl
  reads-stream (n ∷ ns) c =
      reads_after-stream ns (stream c) (read m.read_message c n) (read-stream c n) (reads-stream ns)

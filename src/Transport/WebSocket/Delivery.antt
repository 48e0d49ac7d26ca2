-- ===== src/Transport/WebSocket/Delivery.antt =====
-- internal/transport/ws.go: what one end of wsNetConn writes, the other end reads.
use mathlib.Core.List.{append_assoc, append-nil}
use cando.Base.{
  All, suc, length-append, ℕ, ◌≡◌, ◌≢◌, ◌<◌, refl, sym, ap, ◌∙◌, Option, some, none, List, [], ◌∷◌,
  ◌++◌, length, true, arith,
}
use cando.Base.Bytes.{Bytes}
use cando.Transport.WebSocket.{
  Kind, binary, other, ReadEnd, more, eof, failed, ReadError, none_, broken, closed, WsNetConn,
  answered, read_next, read_from, read, reads_after, reads, write,
}
use cando.Transport.WebSocket.Messages.{MessageReader}
use cando.Transport.WebSocket.Stream.{pending, begun, stream, read-stream, reads-stream}

module _ {ℓ} {R : Type ℓ} (m : MessageReader R) where
  -- The reader of a message never fails.
  abbrev pub NeverFails : Type ℓ
  NeverFails = (r : R) (n : ℕ) → (m.read_message r n).1 ≢ failed

  -- What a read without an error returns is not empty.
  abbrev Serves : (Bytes × ReadError) × WsNetConn R → Type 0
  Serves ((bs, none_), c) = bs ≢ []
  Serves ((bs, broken), c) = ⊥
  Serves ((bs, closed), c) = (bs ≡ []) × (stream m c ≡ [])

  answered-Serves :
      (a : Bytes × ReadEnd × R) (ms : List (Kind × R)) (rest : (Bytes × ReadError) × WsNetConn R)
      → (a.1 ≡ more → a.0 ≢ [])
      → a.1 ≢ failed
      → Serves rest
      → Serves (answered m.read_message a ms rest)
  unfolding answered
  answered-Serves (bs, more, r) ms rest p f h = p refl
  answered-Serves (bs, failed, r) ms rest p f h = f refl
  answered-Serves ([], eof, r) ms rest p f h = h
  answered-Serves (b ∷ bs, eof, r) ms rest p f h = λ e. cc

  read_next-Serves :
      (ms : List (Kind × R)) (n : ℕ) → NeverFails → 0 < n → Serves (read_next m.read_message ms n)
  unfolding read_next stream begun pending
  read_next-Serves [] n f h = (refl, refl)
  read_next-Serves ((other, r) ∷ ms) n f h = read_next-Serves ms n f h
  read_next-Serves ((binary, r) ∷ ms) n f h =
      answered-Serves (m.read_message r n) ms (read_next m.read_message ms n) (m.progress r n h)
        (f r n) (read_next-Serves ms n f h)

  read_from-Serves :
      (o : Option R) (ms : List (Kind × R)) (n : ℕ)
      → NeverFails
      → 0 < n
      → Serves (read_from m.read_message o ms n)
  unfolding read_from
  read_from-Serves none ms n f h = read_next-Serves ms n f h
  read_from-Serves (some r) ms n f h =
      answered-Serves (m.read_message r n) ms (read_next m.read_message ms n) (m.progress r n h)
        (f r n) (read_next-Serves ms n f h)

  shorter : (bs xs s : Bytes) (n : ℕ) → length s < suc n → s ≡ bs ++ xs → bs ≢ [] → length xs < n
  shorter [] xs s n l e h = absurd (h refl)
  shorter (b ∷ bs) xs s n l e h = let q = ap length e in let r = length-append bs xs in omega arith

  reads_after-whole :
      (ns : List ℕ) (s : Bytes) (a : (Bytes × ReadError) × WsNetConn R)
      → length s < suc (length ns)
      → s ≡ a.0.0 ++ stream m a.1
      → Serves a
      → ((c : WsNetConn R)
          → length (stream m c) < length ns
          → (reads m.read_message ns c).0 ≡ stream m c)
      → (reads_after m.read_message a (reads m.read_message ns)).0 ≡ s
  unfolding reads_after
  reads_after-whole ns s ((bs, none_), c) l e h ih =
      ap (λ x. bs ++ x) (ih c (shorter bs (stream m c) s (length ns) l e h)) ∙ sym e
  reads_after-whole ns s ((bs, broken), c) l e h ih = absurd h
  reads_after-whole ns s ((bs, closed), c) l e h ih =
      sym (e ∙ ap (λ x. bs ++ x) h.1 ∙ append-nil bs)

  -- A connection whose readers never fail: reads of positive sizes, more of them than bytes are to
  -- come, return the whole stream.
  pub reads_whole :
      (ns : List ℕ) (c : WsNetConn R)
      → NeverFails
      → All (λ n. 0 < n) ns
      → length (stream m c) < length ns
      → (reads m.read_message ns c).0 ≡ stream m c
  unfolding reads read
  reads_whole [] c f p h = absurd (omega arith)
  reads_whole (n ∷ ns) c f p h =
      reads_after-whole ns (stream m c) (read m.read_message c n) h (read-stream m c n)
        (read_from-Serves c.reader c.messages n f p.0) (λ d q. reads_whole ns d f p.1 q)

  -- The messages of the bytes that were handed to WriteMessage, on a connection that nobody has read
  -- from.
  unfoldable pub carried : List Bytes → List (Kind × R)
  carried [] = []
  carried (p ∷ ps) = (binary, m.message p) ∷ carried ps

  unfoldable pub arriving : List Bytes → WsNetConn R
  arriving sent = record { reader = none; messages = carried sent }

  -- Calls of Write that all succeed.
  unfoldable pub written : List Bytes → List Bytes → List Bytes
  written [] sent = sent
  written (p ∷ ps) sent = written ps (write true p sent).1

  carried-append :
      (xs ys : List Bytes)
      → pending m (carried (xs ++ ys)) ≡ pending m (carried xs) ++ pending m (carried ys)
  unfolding carried pending
  carried-append [] ys = refl
  carried-append (x ∷ xs) ys =
      ap (λ z. m.content (m.message x) ++ z) (carried-append xs ys)
      ∙ sym
          (append_assoc (m.content (m.message x)) (pending m (carried xs)) (pending m (carried ys)))

  unfoldable pub joined : List Bytes → Bytes
  joined [] = []
  joined (p ∷ ps) = p ++ joined ps

  written-pending :
      (ps sent : List Bytes)
      → pending m (carried (written ps sent)) ≡ pending m (carried sent) ++ joined ps
  unfolding written write joined pending carried
  written-pending [] sent = sym (append-nil (pending m (carried sent)))
  written-pending (p ∷ ps) sent =
      written-pending ps (sent ++ (p ∷ []))
      ∙ ap (λ z. z ++ joined ps)
          (carried-append sent (p ∷ [])
            ∙ ap (λ z. pending m (carried sent) ++ z)
                (append-nil (m.content (m.message p)) ∙ m.whole p))
      ∙ append_assoc (pending m (carried sent)) p (joined ps)

  -- Whatever one end writes in calls of any sizes, reads of any sizes at the other end return a first
  -- part of it, and the rest is still to come.
  pub reads-written :
      (ns : List ℕ) (ps : List Bytes)
      → joined ps
        ≡ (reads m.read_message ns (arriving (written ps []))).0
          ++ stream m (reads m.read_message ns (arriving (written ps []))).1
  unfolding arriving stream begun pending carried
  reads-written ns ps = sym (written-pending ps []) ∙ reads-stream m ns (arriving (written ps []))

-- ===== src/Tests/CarrierRuns.antt =====
-- Runs of internal/transport's WebSocket connection, listener and choice of a dialer; the reader of a
-- message is its bytes.
use cando.Base.{
  ℕ, ◌≡◌, ◌≢◌, ◌<◌, refl, sym, ◌+◌, true, some, List, [], ◌∷◌, ◌++◌, ok, arith, take, drop, length,
  ltb, if◌then◌else◌, take-append-drop, length-take, length-drop,
}
use cando.Base.Bytes.{Bytes, text, bytes_eq}
use cando.Base.Text.{to_lower, lower_byte, is_empty, trim_space, trim_left, trim_right, is_space}
use cando.Config.Normalize.{normalize}
use cando.App.{Runnable, run_config}
use cando.Transport.WebSocket.{
  ReadEnd, more, eof, failed, read, reads, write, has_text, has_prefix, is_web_socket_upgrade,
  answer, not_found, answered, read_next, read_from, reads_after,
}
use cando.Transport.WebSocket.Messages.{MessageReader}
use cando.Transport.WebSocket.Stream.{stream}
use cando.Transport.WebSocket.Delivery.{joined, arriving, written, carried, reads-written}
use cando.Transport.AsyncListener.{
  Event, arrived, slot, set_up, enqueued, closes, withdrawn, new_async_listener, run,
}
use cando.Transport.AsyncListener.Handover.{located, given, run-located}
use cando.Transport.AsyncListener.Bounds.{IsBounded, run-IsBounded}
use cando.Transport.Choice.{fingerprint_id, hello_named, randomized_alpn}
use cando.Transport.Choice.Complete.{IsKeyed, dials, run_config-dials}
use cando.Tests.ConfigRuns.{web, serving, valid}

-- A reader that ends together with the last bytes.
abbrev part : Bytes → ℕ → Bytes × ReadEnd × Bytes
part r n = (take n r, if ltb n (length r) then more else eof, drop n r)

nonempty : (b : Bytes) → 0 < length b → b ≢ []
nonempty [] h e = absurd (omega arith)
nonempty (x ∷ b) h e = cc e

none_left : (b : Bytes) → length b ≡ 0 → b ≡ []
none_left [] h = refl
none_left (x ∷ b) h = absurd (omega arith)

part_progress : (r : Bytes) (n : ℕ) → 0 < n → (part r n).1 ≡ more → (part r n).0 ≢ []
part_progress r n h e = nonempty (take n r) (ground (arith, length-take n r))

part_end : (r : Bytes) (n : ℕ) → (part r n).1 ≡ eof → (part r n).2 ≡ []
part_end r n e = none_left (drop n r) (ground (arith, length-drop n r))

abbrev whole : MessageReader Bytes
whole = record {
  read_message = part;
  content = λ r. r;
  in_order = λ r n. sym (take-append-drop n r);
  at_most = λ r n. omega (arith, length-take n r);
  progress = part_progress;
  at_end = part_end;
  message = λ p. p;
  whole = λ p. refl;
}

abbrev two_writes : List Bytes
two_writes = text "ab" ∷ text "cde" ∷ []

reads-written_example :
    joined whole two_writes
    ≡ (reads part (1 ∷ 3 ∷ []) (arriving whole (written whole two_writes []))).0
      ++ stream whole (reads part (1 ∷ 3 ∷ []) (arriving whole (written whole two_writes []))).1
reads-written_example = reads-written whole (1 ∷ 3 ∷ []) two_writes

-- The second read stops where the first message ends.
short_reads : (reads part (1 ∷ 3 ∷ []) (arriving whole (written whole two_writes []))).0 ≡ text "ab"
unfolding reads read read_next read_from answered reads_after arriving carried written write
short_reads = refl

never_fails : (r : Bytes) (n : ℕ) → (part r n).1 ≢ failed
never_fails r n e = ground arith

browser : is_web_socket_upgrade (text "keep-alive, Upgrade") (text "WebSocket") ≡ true
unfolding is_web_socket_upgrade has_text has_prefix to_lower lower_byte bytes_eq
browser = refl

prober : answer (text "/cando") (text "/") (text "Upgrade") (text "websocket") ≡ not_found
unfolding answer is_web_socket_upgrade has_text has_prefix to_lower lower_byte bytes_eq is_empty
prober = refl

abbrev busy : List Event
busy =
    arrived 1
    ∷ slot
    ∷ arrived 2
    ∷ slot
    ∷ set_up 1
    ∷ enqueued 1
    ∷ closes
    ∷ set_up 2
    ∷ withdrawn 2
    ∷ []

run-located_example :
    located 2 (run new_async_listener busy)
    ≡ located 2 new_async_listener + given 2 new_async_listener busy
run-located_example = run-located 2 busy new_async_listener

run-IsBounded_example : IsBounded (run new_async_listener busy)
run-IsBounded_example = run-IsBounded busy

randomised : fingerprint_id (text " Randomised ") ≡ randomized_alpn
unfolding fingerprint_id hello_named to_lower lower_byte trim_space trim_left trim_right is_space
    bytes_eq is_empty
randomised = refl

abbrev digest : Bytes → Bytes
digest b = text "0123456789abcdef0123456789abcdef"

keyed : IsKeyed digest (λ k. some k)
keyed = record { digest = λ b. refl; block = λ k h. (k, refl) }

run_config-dials_example :
    (r : Runnable) × ((run_config (dials digest (λ k. some k)) (normalize (serving (web ∷ [])))).1
      ≡ ok r)
run_config-dials_example =
    run_config-dials digest (λ k. some k) (normalize (serving (web ∷ []))) keyed valid

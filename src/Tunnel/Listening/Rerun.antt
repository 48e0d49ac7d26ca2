-- ===== src/Tunnel/Listening/Rerun.antt =====
-- internal/app/app.go: RunConfig returns the error of a client's Run without closing the client.
use cando.Base.{
  ◌≡◌, refl, ap, ◌∙◌, Bool, true, false, Option, none, some, List, [], ◌∷◌, arith, Bool-cases, inl,
  inr,
}
use cando.Config.{Forward, is_udp}
use cando.Tunnel.Listening.{
  Socket, is_among, Listening, new_client, socket_of, track, serve_forward, serve_rest,
  serve_forwards,
}
use cando.Tunnel.Listening.Released.{Exclusive, same_socket_refl, track-opened}

abbrev StaysIn : Socket → Option Listening → Type 0
StaysIn a none = Unit
StaysIn a (some c) = is_among a c.opened ≡ true

track-StaysIn :
    (a b : Socket) (k : Bool) (c : Listening)
    → is_among a (b ∷ c.opened) ≡ true
    → is_among a (track k b (record c { opened = b ∷ c.opened })).opened ≡ true
track-StaysIn a b k c h =
    ap (is_among a) (track-opened k b (record c { opened = b ∷ c.opened })) ∙ h

module _ (can_listen : List Socket → Socket → Bool) where
  serve_forward-StaysIn :
      (a : Socket) (f : Forward) (c : Listening)
      → is_among a (socket_of f ∷ c.opened) ≡ true
      → StaysIn a (serve_forward can_listen f c)
  unfolding serve_forward
  serve_forward-StaysIn a f c h = elim (Bool-cases (can_listen c.opened (socket_of f))) [
    | inl e ↦ rw e (track-StaysIn a (socket_of f) (is_udp f.protocol) c h)
    | inr e ↦ rw e tt
  ]

  serve_rest-stays :
      (a : Socket) (rest : Listening → Listening × Bool) (c : Listening) (o : Option Listening)
      → is_among a c.opened ≡ true
      → StaysIn a o
      → ((c' : Listening) → is_among a c'.opened ≡ true → is_among a (rest c').0.opened ≡ true)
      → is_among a (serve_rest rest c o).0.opened ≡ true
  unfolding serve_rest
  serve_rest-stays a rest c none h k r = h
  serve_rest-stays a rest c (some c') h k r = r c' k

  opened_stays :
      (a : Socket) (fs : List Forward) (c : Listening)
      → is_among a c.opened ≡ true
      → is_among a (serve_forwards can_listen fs c).0.opened ≡ true
  unfolding serve_forwards is_among
  opened_stays a [] c h = h
  opened_stays a (f ∷ fs) c h =
      serve_rest-stays a (serve_forwards can_listen fs) c _ h
        (serve_forward-StaysIn a f c (ground (arith, h))) (opened_stays a fs)

  -- The first forward's socket is open when Run has gone through its listeners.
  first_stays :
      (f : Forward) (fs : List Forward) (c : Listening)
      → can_listen c.opened (socket_of f) ≡ true
      → is_among (socket_of f) (serve_forwards can_listen (f ∷ fs) c).0.opened ≡ true
  unfolding serve_forwards serve_forward serve_rest is_among
  first_stays f fs c e = rw e (
      opened_stays (socket_of f) fs _ (
        track-StaysIn (socket_of f) (socket_of f) (is_udp f.protocol) c
          (ground (arith, same_socket_refl (socket_of f)))))

  refused_first :
      (f : Forward) (fs : List Forward) (c : Listening)
      → can_listen c.opened (socket_of f) ≡ false
      → serve_forwards can_listen (f ∷ fs) c ≡ (c, false)
  unfolding serve_forwards serve_forward serve_rest
  refused_first f fs c e = rw e refl

  -- Without Close, which nothing calls where Run returns the error of a listener, the next Run of
  -- the same configuration in the same program fails at its first forward, whatever kept the last one
  -- from coming up, if that forward was the one that came up and its address names its port.
  pub rerun_fails :
      (fixed : Socket → Bool) (before : List Socket) (f : Forward) (fs : List Forward)
      → Exclusive fixed can_listen
      → fixed (socket_of f) ≡ true
      → can_listen before (socket_of f) ≡ true
      → let left = (serve_forwards can_listen (f ∷ fs) (new_client before)).0.opened in
        serve_forwards can_listen (f ∷ fs) (new_client left) ≡ (new_client left, false)
  unfolding new_client
  rerun_fails fixed before f fs x n h =
      refused_first f fs _ (x _ (socket_of f) n (first_stays f fs (new_client before) h))

-- ===== src/Tunnel/Listening/Released.antt =====
-- internal/tunnel/client.go and internal/app/app.go: what a client's Run leaves open.
use cando.Base.{
  ◌≡◌, refl, ap, ◌∙◌, Bool, true, false, ◌||◌, Option, none, some, List, [], ◌∷◌, ◌++◌, arith,
  Bool-cases, inl, inr, All,
}
use cando.Base.Bytes.{Bytes, bytes_eq, bytes_eq_iff, bytes_eq_refl}
use cando.Config.{Forward}
use cando.Tunnel.Listening.{
  Socket, same_kind, same_socket, is_among, closed_of, Listening, new_client, socket_of, track,
  serve_forward, serve_rest, serve_forwards, close_forwards,
}

pub same_socket_refl : (a : Socket) → same_socket a a ≡ true
unfolding same_socket same_kind
same_socket_refl (true, s) = bytes_eq_refl s
same_socket_refl (false, s) = bytes_eq_refl s

-- What the client has in its two lists.
abbrev pub tracked : Listening → List Socket
tracked c = c.forward_lns ++ c.packet_conns

-- Nothing of `xs` is among `ys`.
abbrev Apart : List Socket → List Socket → Type 0
Apart xs ys = All (λ a. is_among a ys ≡ false) xs

-- What the program relies on of the system: where an address names its port, which `fixed` tells, a
-- socket that is open is refused. For the port 0 the system chooses a free one, so that such an address
-- may be listened on again.
abbrev pub Exclusive : (Socket → Bool) → (List Socket → Socket → Bool) → Type 0
Exclusive fixed can_listen =
    (opened : List Socket) (a : Socket)
    → fixed a ≡ true
    → is_among a opened ≡ true
    → can_listen opened a ≡ false

-- The address of each forward names its port.
abbrev pub AreFixed : (Socket → Bool) → List Forward → Type 0
AreFixed fixed = All (λ f. fixed (socket_of f) ≡ true)

closed_of-Apart :
    (those opened : List Socket) → Apart opened those → closed_of those opened ≡ opened
unfolding closed_of
closed_of-Apart those [] h = refl
closed_of-Apart those (a ∷ opened) h = rw h.0 (ap (◌∷◌ a) (closed_of-Apart those opened h.1))

-- What is open was open before, or the client has it in its lists; the two are apart.
pub record IsKept (before : List Socket) (c : Listening) : Type 0 where
  pub new : List Socket
  pub opened : c.opened ≡ new ++ before
  pub known : All (λ a. is_among a (tracked c) ≡ true) new
  pub apart : Apart before (tracked c)

closed_of-append :
    (those new before : List Socket)
    → All (λ a. is_among a those ≡ true) new
    → Apart before those
    → closed_of those (new ++ before) ≡ before
unfolding closed_of
closed_of-append those [] before k h = closed_of-Apart those before h
closed_of-append those (a ∷ new) before k h = rw k.0 (closed_of-append those new before k.1 h)

bytes_eq_sym : (a b : Bytes) → bytes_eq a b ≡ bytes_eq b a
bytes_eq_sym a b = ground (arith, bytes_eq_iff a b, bytes_eq_iff b a)

same_socket_sym : (a b : Socket) → same_socket a b ≡ same_socket b a
unfolding same_socket same_kind
same_socket_sym (true, s) (true, t) = bytes_eq_sym s t
same_socket_sym (true, s) (false, t) = refl
same_socket_sym (false, s) (true, t) = refl
same_socket_sym (false, s) (false, t) = bytes_eq_sym s t

is_among-append :
    (a : Socket) (xs ys : List Socket) → is_among a (xs ++ ys) ≡ (is_among a xs || is_among a ys)
unfolding is_among
is_among-append a [] ys = refl
is_among-append a (x ∷ xs) ys = ground (arith, is_among-append a xs ys)

tracked-track :
    (x : Socket) (k : Bool) (a : Socket) (c : Listening)
    → is_among x (tracked (track k a c)) ≡ (is_among x (tracked c) || same_socket a x)
unfolding track is_among
tracked-track x true a c = ground (
  arith,
  is_among-append x c.forward_lns (c.packet_conns ++ (a ∷ [])),
  is_among-append x c.packet_conns (a ∷ []),
  is_among-append x c.forward_lns c.packet_conns,
)
tracked-track x false a c = ground (
  arith,
  is_among-append x (c.forward_lns ++ (a ∷ [])) c.packet_conns,
  is_among-append x c.forward_lns (a ∷ []),
  is_among-append x c.forward_lns c.packet_conns,
)

known_step :
    (k : Bool) (a : Socket) (c : Listening) (new : List Socket)
    → All (λ x. is_among x (tracked c) ≡ true) new
    → All (λ x. is_among x (tracked (track k a c)) ≡ true) new
known_step k a c [] h = tt
known_step k a c (x ∷ new) h =
    (ground (arith, tracked-track x k a c, h.0), known_step k a c new h.1)

track-Apart :
    (k : Bool) (a : Socket) (c : Listening) (before : List Socket)
    → is_among a before ≡ false
    → Apart before (tracked c)
    → Apart before (tracked (track k a c))
unfolding is_among
track-Apart k a c [] n h = tt
track-Apart k a c (x ∷ before) n h = (
  ground (arith, tracked-track x k a c, same_socket_sym a x, h.0, n),
  track-Apart k a c before (ground (arith, n)) h.1,
)

pub track-opened : (k : Bool) (a : Socket) (c : Listening) → (track k a c).opened ≡ c.opened
unfolding track
track-opened true a c = refl
track-opened false a c = refl

-- The socket was not open before.
fresh_before :
    (a : Socket) (new before opened : List Socket)
    → opened ≡ new ++ before
    → is_among a opened ≡ false
    → is_among a before ≡ false
fresh_before a new before opened e h =
    ground (arith, ap (is_among a) e, is_among-append a new before, h)

opened-IsKept :
    (before : List Socket) (k : Bool) (a : Socket) (c : Listening)
    → IsKept before c
    → is_among a c.opened ≡ false
    → IsKept before (track k a (record c { opened = a ∷ c.opened }))
opened-IsKept before k a c h n =
    let c' = record c { opened = a ∷ c.opened } in
    record {
      new = a ∷ h.new;
      opened = track-opened k a c' ∙ ap (◌∷◌ a) h.opened;
      known = (
        ground (arith, tracked-track a k a c', same_socket_refl a),
        known_step k a c' h.new h.known,
      );
      apart = track-Apart k a c' before (fresh_before a h.new before c.opened h.opened n) h.apart;
    }

nothing_tracked : (before : List Socket) → Apart before []
unfolding is_among
nothing_tracked [] = tt
nothing_tracked (a ∷ before) = (refl, nothing_tracked before)

new_client-IsKept : (before : List Socket) → IsKept before (new_client before)
unfolding new_client
new_client-IsKept before = record {
  new = [];
  opened = refl;
  known = tt;
  apart = nothing_tracked before;
}

module _ (fixed : Socket → Bool) (can_listen : List Socket → Socket → Bool)
    (exclusive : Exclusive fixed can_listen) where
  -- A step of the loop keeps track of the socket that it opens.
  abbrev StepIsKept : List Socket → Option Listening → Type 0
  StepIsKept before none = Unit
  StepIsKept before (some c) = IsKept before c

  serve_forward-IsKept :
      (before : List Socket) (f : Forward) (c : Listening)
      → fixed (socket_of f) ≡ true
      → IsKept before c
      → StepIsKept before (serve_forward can_listen f c)
  unfolding serve_forward
  serve_forward-IsKept before f c x h = elim (Bool-cases (can_listen c.opened (socket_of f))) [
    | inr e ↦ rw e tt
    | inl e ↦
        rw e (opened-IsKept before _ _ c h (ground (arith, exclusive c.opened (socket_of f) x, e)))
  ]

  serve_rest-IsKept :
      (before : List Socket) (rest : Listening → Listening × Bool) (c : Listening)
      (o : Option Listening)
      → IsKept before c
      → StepIsKept before o
      → ((c' : Listening) → IsKept before c' → IsKept before (rest c').0)
      → IsKept before (serve_rest rest c o).0
  unfolding serve_rest
  serve_rest-IsKept before rest c none h k r = h
  serve_rest-IsKept before rest c (some c') h k r = r c' k

  serve_forwards-IsKept :
      (before : List Socket) (fs : List Forward) (c : Listening)
      → AreFixed fixed fs
      → IsKept before c
      → IsKept before (serve_forwards can_listen fs c).0
  unfolding serve_forwards
  serve_forwards-IsKept before [] c x h = h
  serve_forwards-IsKept before (f ∷ fs) c x h =
      serve_rest-IsKept before (serve_forwards can_listen fs) c _ h
        (serve_forward-IsKept before f c x.0 h) (λ c' k. serve_forwards-IsKept before fs c' x.1 k)

  -- With forwards whose addresses name their ports, and whatever part of Run's listeners came up, Close
  -- gives back all of them, and leaves open exactly what was open before.
  pub close-released :
      (before : List Socket) (fs : List Forward)
      → AreFixed fixed fs
      → (close_forwards (serve_forwards can_listen fs (new_client before)).0).opened ≡ before
  unfolding close_forwards
  close-released before fs x =
      let c = (serve_forwards can_listen fs (new_client before)).0 in
      let h = serve_forwards-IsKept before fs (new_client before) x (new_client-IsKept before) in
      ap (closed_of (tracked c)) h.opened
      ∙ closed_of-append (tracked c) h.new before h.known h.apart

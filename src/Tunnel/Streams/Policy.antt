-- ===== src/Tunnel/Streams/Policy.antt =====
-- Which targets handleForwardStream (internal/tunnel/server.go) dials.
use cando.Base.{
  ℕ, ◌≡◌, ◌≢◌, refl, sym, ap, ◌∙◌, ◌↔◌, ◌⊎◌, inl, inr, Bool, true, false, some, subst, List, [],
  ◌∷◌, Holds, ok, err, Result-cases, arith,
}
use cando.Base.Bytes.{Bytes, bytes_eq_iff}
use cando.Config.{ServerConfig}
use cando.Config.Validate.{contains}
use cando.Protocol.{kind_forward, kind_forward_udp}
use cando.Protocol.Header.{HeaderError, read_stream_header}
use cando.Tunnel.Targets.{blocked_forward_target}
use cando.Tunnel.Streams.{
  Network, tcp, udp, dial, dialled, denied, forward_stream, handle_forward_stream,
}

-- The whitelist if there is one, and else what is not blocked.
abbrev pub IsListed : ServerConfig → Bytes → Type 0
IsListed cfg target =
    ((cfg.forward_whitelist ≡ []) × (blocked_forward_target target ≡ false))
    ⊎ Holds cfg.forward_whitelist target

-- What the configuration lets a client reach: nothing without allow_forward.
pub record IsPermitted (cfg : ServerConfig) (target : Bytes) : Type 0 where
  pub allowed : cfg.allow_forward ≡ true
  pub listed : IsListed cfg target

-- The network that a kind of stream asks for.
abbrev pub Asks : ℕ → Network → Type 0
Asks kind net = ((kind ≡ kind_forward) × (net ≡ tcp)) ⊎ ((kind ≡ kind_forward_udp) × (net ≡ udp))

contains-Holds : (ts : List Bytes) (t : Bytes) → (contains ts t ≡ true) ↔ Holds ts t
unfolding contains
contains-Holds [] t = ground arith
contains-Holds (s ∷ ts) t = ground (arith, bytes_eq_iff s t, contains-Holds ts t)

pub denied_iff :
    (whitelist : List Bytes) (target : Bytes)
    → (denied whitelist target ≡ false)
      ↔ (((whitelist ≡ []) × (blocked_forward_target target ≡ false)) ⊎ Holds whitelist target)
unfolding denied
denied_iff [] target = ground arith
denied_iff (t ∷ ts) target = ground (arith, contains-Holds (t ∷ ts) target)

dialled-dial :
    (up : Network → Bytes → Bool) (net : Network) (addr rest : Bytes)
    → dialled (dial up net addr rest) ≡ some (net, addr)
unfolding dialled dial
dialled-dial up net addr rest = ground arith

forward_stream_iff :
    (up : Network → Bytes → Bool) (cfg : ServerConfig) (kind : ℕ) (t rest : Bytes) (net : Network)
    (target : Bytes)
    → (dialled (forward_stream up cfg (ok ((kind, t), rest))) ≡ some (net, target)) ↔ (
        (t ≡ target)
        × Asks kind net
        × (cfg.allow_forward ≡ true)
        × (denied cfg.forward_whitelist t ≡ false))
unfolding forward_stream dialled
forward_stream_iff up cfg kind t rest net target =
    ground (arith, dialled-dial up tcp t rest, dialled-dial up udp t rest)

unread_undialled :
    (up : Network → Bytes → Bool) (cfg : ServerConfig) (e : HeaderError) (net : Network)
    (target : Bytes)
    → dialled (forward_stream up cfg (err e)) ≢ some (net, target)
unfolding forward_stream dialled
unread_undialled up cfg e net target q = ground arith

-- A forward stream has a target dialled over a network, whether the dial succeeds or not, exactly if
-- its header is read with a forward kind for that network and the target, allow_forward is set, and
-- the target is in the whitelist, or there is no whitelist and the target is not blocked.
pub handle_forward_stream_iff :
    (up : Network → Bytes → Bool) (cfg : ServerConfig) (input : Bytes) (net : Network)
    (target : Bytes)
    → (dialled (handle_forward_stream up cfg input) ≡ some (net, target)) ↔ (
        (kind : ℕ) × (rest : Bytes) × (read_stream_header input ≡ ok ((kind, target), rest))
        × Asks kind net
        × IsPermitted cfg target)
unfolding handle_forward_stream
handle_forward_stream_iff up cfg input net target = (
  λ q. elim (Result-cases (read_stream_header input)) [
    | inr (e, r) ↦ absurd (
        unread_undialled up cfg e net target
          (sym (ap (λ x. dialled (forward_stream up cfg x)) r) ∙ q))
    | inl (((kind, t), rest), r) ↦
        let (same, asks, allow, ok_) =
          (forward_stream_iff up cfg kind t rest net target).0
            (sym (ap (λ x. dialled (forward_stream up cfg x)) r) ∙ q) in
        (
          kind,
          rest,
          r ∙ ap (λ x. ok ((kind, x), rest)) same,
          asks,
          record {
            allowed = allow;
            listed = subst (IsListed cfg) same ((denied_iff cfg.forward_whitelist t).0 ok_);
          },
        )
  ],
  λ c.
      let (kind, rest, r, asks, p) = c in
      ap (λ x. dialled (forward_stream up cfg x)) r
      ∙ (forward_stream_iff up cfg kind target rest net target).1
          (refl, asks, p.allowed, (denied_iff cfg.forward_whitelist target).1 p.listed),
)

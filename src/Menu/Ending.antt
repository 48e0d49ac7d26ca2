-- ===== src/Menu/Ending.antt =====
-- internal/menu/manage.go: the fuel of the editors is enough.
use cando.Base.{
  ℕ, zero, suc, ◌≡◌, ◌≢◌, ◌≤◌, ◌<◌, refl, Bool, true, false, Option, none, some, [], ◌∷◌, Result,
  err, arith, length, Bool-cases, inl, inr, ◌++◌, ◌+◌,
}
use cando.Base.Bytes.{Bytes, text, bytes_eq}
use cando.Base.Decimal.{itoa}
use cando.Base.Text.{is_empty, to_lower, trim_space, trim_left, trim_right}
use cando.Config.{ServerConfig, ClientConfig}
use cando.Menu.{Input, ask, ask_default, ask_proto, ask_required, pick_index}
use cando.Menu.Editor.{
  Command, add_forward, delete_forward, add_reverse, delete_reverse, add_service, delete_service,
  toggle_forward, done, unknown, client_command, server_command, Stuck, out_of_fuel, new_forward,
  new_service, forward_added, reverse_named, service_named, forward_deleted, reverse_deleted,
  service_deleted, client_step, server_step, turn, edit, is_done, edit_client, edit_server,
}

pub ask-length : (input : Input) → length (ask input).1 ≤ length input
unfolding ask
ask-length [] = omega arith
ask-length (l ∷ input) = omega arith

pub ask_default-length :
    (def : Bytes) (input : Input) → length (ask_default def input).1 ≤ length input
unfolding ask_default
ask_default-length def input = ask-length input

pub ask_proto-length : (input : Input) → length (ask_proto input).1 ≤ length input
unfolding ask_proto
ask_proto-length input = ask_default-length (text "tcp") input

pick_index-length : (n : ℕ) (input : Input) → length (pick_index n input).1 ≤ length input
unfolding pick_index
pick_index-length zero input = omega arith
pick_index-length (suc n) input = ask-length input

module _ {A : Type 0} where
  -- No more input is left than there was.
  abbrev Shrinks : Input → Option (A × Input) → Type 0
  Shrinks input none = Unit
  Shrinks input (some r) = length r.1 ≤ length input

  turn-ne :
      (again : A → Input → Result Stuck (A × Input)) (last : Bool) (o : Option (A × Input)) (n : ℕ)
      (input : Input)
      → length input ≤ n
      → Shrinks input o
      → ((a : A) (rest : Input) → length rest ≤ n → again a rest ≢ err out_of_fuel)
      → turn again last o ≢ err out_of_fuel
  unfolding turn
  turn-ne again last none n input l s h = λ e. cc
  turn-ne again true (some r) n input l s h = λ e. cc
  turn-ne again false (some (a, rest)) n input l s h = h a rest (omega (arith, l, s))

  last-ne :
      (again : A → Input → Result Stuck (A × Input)) (o : Option (A × Input))
      → turn again true o ≢ err out_of_fuel
  unfolding turn
  last-ne again none = λ e. cc
  last-ne again (some r) = λ e. cc

  edit-ne :
      (command_of : Bytes → Command) (step : Command → A → Input → Option (A × Input)) (f : ℕ)
      (a : A) (input : Input)
      → command_of [] ≡ done
      → ((c : Command) (a : A) (input : Input) → Shrinks input (step c a input))
      → length input < f
      → edit command_of step f a input ≢ err out_of_fuel
  unfolding edit ask to_lower trim_space trim_left trim_right is_done
  edit-ne command_of step zero a input d s l = absurd (omega arith)
  edit-ne command_of step (suc f) a [] d s l =
      rw d (last-ne (edit command_of step f) (step done a []))
  edit-ne command_of step (suc f) a (line ∷ input) d s l =
      let c = command_of (to_lower (trim_space line)) in
      turn-ne (edit command_of step f) (is_done c) (step c a input) (length input) input
        (omega arith) (s c a input)
        (λ b rest q. edit-ne command_of step f b rest d s (omega (arith, q, l)))

weaken :
    (line : Bytes) (input : Input) (o : Option (Bytes × Input))
    → Shrinks input o
    → Shrinks (line ∷ input) o
weaken line input none h = tt
weaken line input (some r) h = omega (arith, h)

ask_required-Shrinks : (input : Input) → Shrinks input (ask_required input)
unfolding ask_required
ask_required-Shrinks [] = tt
ask_required-Shrinks (line ∷ input) = elim (Bool-cases (is_empty (trim_space line))) [
  | inl e ↦ rw e (weaken line input (ask_required input) (ask_required-Shrinks input))
  | inr e ↦ rw e (omega arith)
]

new_forward-length : (n : ℕ) (input : Input) → length (new_forward n input).1 ≤ length input
unfolding new_forward
new_forward-length n input =
    let name = ask_default (text "svc" ++ itoa (n + 1)) input in
    let proto = ask_proto name.1 in
    let local = ask_default (text "0.0.0.0:1080") proto.1 in
    omega (
      arith,
      ask_default-length (text "svc" ++ itoa (n + 1)) input,
      ask_proto-length name.1,
      ask_default-length (text "0.0.0.0:1080") proto.1,
      ask_default-length (text "127.0.0.1:1080") local.1,
    )

new_service-length :
    (name : Bytes) (input : Input) → length (new_service name input).1 ≤ length input
unfolding new_service
new_service-length name input =
    omega
      (arith, ask_proto-length input, ask_default-length (text "0.0.0.0:8443") (ask_proto input).1)

service_named-Shrinks :
    (s : ServerConfig) (input : Input) (o : Option (Bytes × Input))
    → Shrinks input o
    → Shrinks input (service_named s o)
unfolding service_named
service_named-Shrinks s input none h = tt
service_named-Shrinks s input (some (name, rest)) h = omega (arith, h, new_service-length name rest)

reverse_named-Shrinks :
    (cl : ClientConfig) (input : Input) (o : Option (Bytes × Input))
    → Shrinks input o
    → Shrinks input (reverse_named cl o)
unfolding reverse_named
reverse_named-Shrinks cl input none h = tt
reverse_named-Shrinks cl input (some (name, rest)) h =
    omega (arith, h, ask_default-length (text "127.0.0.1:8443") rest)

server_step-Shrinks :
    (c : Command) (s : ServerConfig) (input : Input) → Shrinks input (server_step c s input)
unfolding server_step service_deleted
server_step-Shrinks add_service s input =
    service_named-Shrinks s input (ask_required input) (ask_required-Shrinks input)
server_step-Shrinks delete_service s input = pick_index-length (length s.services) input
server_step-Shrinks toggle_forward s input = omega arith
server_step-Shrinks add_forward s input = omega arith
server_step-Shrinks delete_forward s input = omega arith
server_step-Shrinks add_reverse s input = omega arith
server_step-Shrinks delete_reverse s input = omega arith
server_step-Shrinks done s input = omega arith
server_step-Shrinks unknown s input = omega arith

client_step-Shrinks :
    (c : Command) (cl : ClientConfig) (input : Input) → Shrinks input (client_step c cl input)
unfolding client_step forward_added forward_deleted reverse_deleted
client_step-Shrinks add_forward cl input = new_forward-length (length cl.forwards) input
client_step-Shrinks delete_forward cl input = pick_index-length (length cl.forwards) input
client_step-Shrinks add_reverse cl input =
    reverse_named-Shrinks cl input (ask_required input) (ask_required-Shrinks input)
client_step-Shrinks delete_reverse cl input = pick_index-length (length cl.services) input
client_step-Shrinks add_service cl input = omega arith
client_step-Shrinks delete_service cl input = omega arith
client_step-Shrinks toggle_forward cl input = omega arith
client_step-Shrinks done cl input = omega arith
client_step-Shrinks unknown cl input = omega arith

-- Both editors come to their end, or ask for a name for ever where the input has ended: the fuel of
-- one turn more than there are lines is enough.
pub editors-ne-out_of_fuel :
    (s : ServerConfig) (cl : ClientConfig) (input : Input)
    → (edit_server s input ≢ err out_of_fuel) × (edit_client cl input ≢ err out_of_fuel)
unfolding edit_server edit_client server_command client_command bytes_eq is_empty
editors-ne-out_of_fuel s cl input = (
  edit-ne server_command server_step (suc (length input)) s input refl server_step-Shrinks
      (omega arith),
  edit-ne client_command client_step (suc (length input)) cl input refl client_step-Shrinks
      (omega arith),
)

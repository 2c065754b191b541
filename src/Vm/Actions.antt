-- ===== src/Vm/Actions.antt =====
-- The lines of input of src/vm.rs, and the actions of src/node.rs and src/boot.rs. What an action asks of
-- the swarm is its result; the listings of peers are logged.
use p2p_auction.Prelude.{String, ◌==◌, Option, none, some, List, [], ◌∷◌, if◌then◌else◌}
use p2p_auction.Prelude.Result.{Result, ok, err, message, ◌>>=◌, from_option}
use p2p_auction.Prelude.Text.{split_whitespace, join}
use p2p_auction.PeerEnv.{PeerEnv}

-- `VirtualMachineAction` of a node.
pub data NodeAction : Type 0 where
  ping find_node routing_table connected_peers : NodeAction

-- `VirtualMachineAction` of a boot node.
pub data BootAction : Type 0 where
  ping routing_table : BootAction

pub data Command : Type 0 where
  dial : (address : String) → Command
  get_closest_peers : (peer : String) → Command
  log_connected_peers : Command
  print_routing_table : Command

-- The next argument, and those after it.
unfoldable pub arg_parse : List String → Result (String × List String)
arg_parse [] = err (message "Insufficient arguments")
arg_parse (arg ∷ args) = ok (arg, args)

unfoldable pub remaining_args : List String → Result String
remaining_args args =
    let rest = join args in if rest == "" then err (message "Insufficient arguments") else ok rest

-- What a kind of node gives to the trait: its actions, how they are named, and what they do.
pub record VirtualMachine : Type 1 where
  pub VirtualMachineAction : Type 0
  pub action_from_str : String → Option VirtualMachineAction
  pub match_action : List String → VirtualMachineAction → Result Command

-- `None => return Err("Couldn't parse any argument".into())`.
abbrev known_action {ℓ} : {A : Type ℓ} → Option A → Result A
known_action none = err (message "Couldn't parse any argument")
known_action (some a) = ok a

unfoldable pub execute_action : VirtualMachine → List String → Result Command
unfolding arg_parse
execute_action vm args = do
  first ← arg_parse args
  rpc ← known_action (vm.action_from_str first.0)
  vm.match_action first.1 rpc

-- A line of the standard input.
unfoldable pub execute_line : VirtualMachine → String → Result Command
unfolding execute_action
execute_line vm line = execute_action vm (split_whitespace line)

unfoldable pub node_action_from_str : String → Option NodeAction
node_action_from_str text =
    if text == "PING"
    then some NodeAction.ping
    else if text == "FIND_NODE"
    then some find_node
    else if text == "ROUTING_TABLE"
    then some NodeAction.routing_table
    else if text == "CONNECTED_PEERS"
    then some connected_peers
    else none

unfoldable pub boot_action_from_str : String → Option BootAction
boot_action_from_str text =
    if text == "PING"
    then some BootAction.ping
    else if text == "ROUTING_TABLE"
    then some BootAction.routing_table
    else none

module _ ⦃peers : PeerEnv⦄ where
  -- `PING`, of both kinds of node.
  unfoldable pub ping_address : List String → Result Command
  unfolding arg_parse
  ping_address args = do
    first ← arg_parse args
    address ← from_option (peers.multiaddr_from_str first.0)
    dialled ← peers.dial address
    ok (dial address)

  unfoldable pub node_match_action : List String → NodeAction → Result Command
  unfolding ping_address arg_parse
  node_match_action args NodeAction.ping = ping_address args
  node_match_action args find_node = do
    first ← arg_parse args
    peer ← from_option (peers.peer_id_from_str first.0)
    ok (get_closest_peers peer)
  node_match_action args NodeAction.routing_table = ok print_routing_table
  node_match_action args connected_peers = ok log_connected_peers

  unfoldable pub boot_match_action : List String → BootAction → Result Command
  unfolding ping_address
  boot_match_action args BootAction.ping = ping_address args
  boot_match_action args BootAction.routing_table = ok log_connected_peers

  -- `impl VirtualMachine for Node` and for `BootNode`.
  abbrev pub node : VirtualMachine
  node = record {
    VirtualMachineAction = NodeAction;
    action_from_str = node_action_from_str;
    match_action = node_match_action;
  }

  abbrev pub boot_node : VirtualMachine
  boot_node = record {
    VirtualMachineAction = BootAction;
    action_from_str = boot_action_from_str;
    match_action = boot_match_action;
  }

-- ===== src/Tests/Nodes.antt =====
-- The theorems on the files of a testnet of several nodes at concrete inputs: a disk in memory.
use mono_chain.Prelude.{
  ℕ, ◌<◌, ◌≡◌, ◌≢◌, refl, sym, ◌∙◌, ◌⊎◌, inl, inr, true, false, some, List, [], ◌∷◌, ◌++◌, map,
  length, All, String, arith, bytes_eq, bytes_eq_self,
}
use mono_chain.Prelude.Int.{pos}
use mono_chain.Sdk.Outcome.{ok, err, panicked, ◌>>=◌}
use mono_chain.Sdk.Amounts.{amount_of}
use mono_chain.Cmd.Text.{Text, codes, all_digits, value_from}
use mono_chain.Cmd.ChainId.{is_valid_chain_id}
use mono_chain.Cmd.Decimal.{itoa}
use mono_chain.Cmd.Paths.{join, base, rel, clean, components}
use mono_chain.Cmd.Testnet.{split_commas}
use mono_chain.Cmd.MultiNode.{Bytes, NodeConfig, Balance, BankGenesis}
use mono_chain.Cmd.MultiNode.Args.{Flags, InitArgs, args_of, given_ports, no_keys, parse_args}
use mono_chain.Cmd.MultiNode.Files.{Ctx, copy_file, is_sub_dir}
use mono_chain.Cmd.MultiNode.Setup.{Nodes, no_nodes, node_dir, joined_gentxs_dir, init_nodes}
use mono_chain.Cmd.MultiNode.Genesis.{fill_bank}
use mono_chain.Cmd.MultiNode.Run.{init_testnet_files, copy_gentxs, chain_id_or_random}
use mono_chain.Cmd.MultiNode.Ports.{
  get_elem?, accepted, no_negative, bond_coin, Listed, parse_args_cases,
}
use mono_chain.Cmd.MultiNode.Listeners.{p2p, network_config-apart}
use mono_chain.Cmd.MultiNode.Canonical.{document, file_of, Chosen, init_testnet_files_lem}
use mono_chain.Cmd.MultiNode.Supply.{held, fill_bank_lem}
use mono_chain.Cmd.MultiNode.Names.{OfLettersAndDigits, random_chain_id}
use mono_chain.Cmd.MultiNode.Copies.{copy_of, AreApart, HasCopy, copy_gentxs_lem}
use mono_chain.Cmd.MultiNode.Built.{gen_files_from, gentxs_from, all_peers, init_nodes_lem}
use mono_chain.Tests.Disk.{Disk, disk}
use mathlib.Core.List.Memᴰ

joined :
    join (codes "./.testnets" ∷ codes "validator0" ∷ codes "config" ∷ [])
    ≡ codes ".testnets/validator0/config"
unfolding join
joined = refl

cleaned : clean (codes "/a/../..//b/./c/") ≡ codes "/b/c"
unfolding clean
cleaned = refl

climbed : clean (codes "a/../../b/..") ≡ codes ".."
unfolding clean
climbed = refl

based : base (codes "/a/gentx-1.json//") ≡ codes "gentx-1.json"
unfolding base
based = refl

related : rel (codes "/a/b/c") (codes "/a/d") ≡ codes "../../d"
unfolding rel components
related = refl

abbrev flags : Flags
flags = record {
  output_dir = codes "o";
  keyring_backend = codes "test";
  chain_id = codes "c";
  min_gas_prices = [];
  node_dir_prefix = codes "n";
  starting_ip_address = codes "h";
  num_validators = pos 2;
  key_type = codes "k";
  validators_stake_amount = codes "5,x,6";
  list_ports = [];
}

abbrev args : InitArgs
args = args_of flags (given_ports (bond_coin disk (pos 5) ∷ bond_coin disk (pos 6) ∷ []) 0 no_keys)

parsed : parse_args disk flags ≡ ok args
unfolding parse_args all_digits value_from
parsed = refl

-- The amount `x` is passed over, and validator 1 stakes 6.
parse_args_cases_example :
    let stakes = accepted disk (split_commas flags.validators_stake_amount) in
    ((no_negative disk stakes ≡ false) × (parse_args disk flags ≡ err panicked))
    ⊎ ((no_negative disk stakes ≡ true)
        × ((args : InitArgs) × (parse_args disk flags ≡ ok args)
            × ((i : ℕ)
                → args.validators_stakes_amount i ≡ get_elem? (map (bond_coin disk) stakes) i)
            × Listed disk flags.list_ports flags.num_validators args.ports))
parse_args_cases_example = parse_args_cases disk flags

abbrev any_config : NodeConfig
any_config = record {
  root_dir = [];
  moniker = [];
  rpc_listen_address = [];
  persistent_peers = [];
  allow_duplicate_ip = false;
  p2p_listen_address = [];
  proxy_app = [];
  prometheus_listen_addr = [];
  prometheus = false;
  rest = [];
}

abbrev start : Ctx disk
start = record { state = ([], []); config = any_config }

-- The run ends with two nodes.
runs : (init_testnet_files disk args start).0 ≡ ok tt
unfolding init_testnet_files ◌>>=◌ itoa bytes_eq all_digits value_from given_ports
runs = refl

init_testnet_files_example :
    (chain_id : Text) × Chosen disk args.chain_id chain_id
    × ((b : Bytes) × (time : ℕ) × ((i : ℕ)
          → i < 2
          → disk.genesis_at (file_of disk args i) (init_testnet_files disk args start).1.state
            ≡ some (document disk chain_id time b)))
init_testnet_files_example = init_testnet_files_lem disk args 2 start refl runs

random_chain_id_example :
    (t : Text) × ((chain_id_or_random disk [] ([], [])).0 ≡ ok (codes "chain-" ++ t))
    × (length t ≡ 6)
    × OfLettersAndDigits t
    × (is_valid_chain_id (codes "chain-" ++ t) ≡ false)
random_chain_id_example = random_chain_id disk ([], [])

-- Node 1 listens for RPC requests on 26654, and node 0 for its peers on 26656.
network_config-apart_example : (p2p ≡ p2p) × ◌≡◌ {A = ℕ} 1 1
network_config-apart_example =
    network_config-apart disk flags args [] 2 parsed refl refl (omega arith) p2p p2p 1 1 any_config
      any_config (omega arith) (omega arith) refl

abbrev bank : BankGenesis
bank = record { balances = []; supply = []; rest = [] }

abbrev rich : List Balance
rich =
    record { address = codes "a"; coins = bond_coin disk (pos 5) ∷ bond_coin disk (pos 6) ∷ [] }
    ∷ []

abbrev filled : BankGenesis
filled = record {
  balances = rich;
  supply = bond_coin disk (pos 5) ∷ bond_coin disk (pos 6) ∷ [];
  rest = [];
}

is_filled : fill_bank disk rich bank ≡ ok filled
unfolding fill_bank
is_filled = refl

fill_bank_example :
    (filled.balances ≡ rich)
    × (filled.rest ≡ bank.rest)
    × ((denom : String) → amount_of denom filled.supply ≡ held denom filled.balances)
fill_bank_example = fill_bank_lem disk rich bank filled is_filled refl

made : Nodes
unfolding init_nodes ◌>>=◌ itoa bytes_eq given_ports
made = elim (init_nodes disk args (codes "c") 2 0 no_nodes start).0 [
  | ok nodes ↦ nodes
  | err e ↦ no_nodes
]

is_made : (init_nodes disk args (codes "c") 2 0 no_nodes start).0 ≡ ok made
unfolding init_nodes ◌>>=◌ itoa bytes_eq given_ports made
is_made = refl

-- Two nodes are made.
init_nodes_example :
    (length made.node_ids ≡ 2)
    × (length made.val_pub_keys ≡ 2)
    × (length made.gen_accounts ≡ 2)
    × (length made.gen_balances ≡ 2)
    × (made.gen_files ≡ gen_files_from disk args 0 2)
    × (made.gentxs_files ≡ gentxs_from args 0 made.node_ids)
    × (made.persistent_peers ≡ all_peers args made.node_ids)
init_nodes_example = init_nodes_lem disk args (codes "c") 2 made start is_made

abbrev gentx : Text
gentx = codes "o/n1/config/gentx/gentx-idn1.json"

abbrev with_gentx : Disk
with_gentx = ((gentx, 1 ∷ 2 ∷ []) ∷ [], [])

outside_0 : is_sub_dir disk with_gentx gentx (joined_gentxs_dir args 0) ≡ ok false
unfolding is_sub_dir bytes_eq itoa node_dir
outside_0 = refl

inside_1 : is_sub_dir disk with_gentx gentx (joined_gentxs_dir args 1) ≡ ok true
unfolding is_sub_dir bytes_eq itoa node_dir
inside_1 = refl

copy_0 : copy_of (joined_gentxs_dir args 0) gentx ≡ codes "o/n0/config/gentx/gentx-idn1.json"
unfolding copy_file bytes_eq itoa node_dir join
copy_0 = refl

below_two : (i : ℕ) → i < 2 → (i ≡ 0) ⊎ (i ≡ 1)
below_two i h = ground arith

differ : bytes_eq (codes "o/n0/config/gentx/gentx-idn1.json") gentx ≡ false
unfolding bytes_eq
differ = refl

other_file : codes "o/n0/config/gentx/gentx-idn1.json" ≢ gentx
other_file e =
    let same : bytes_eq (codes "o/n0/config/gentx/gentx-idn1.json") gentx ≡ true =
      rw e (bytes_eq_self gentx) in
    cc (same, differ)

one_apart : AreApart disk args (gentx ∷ []) 2 with_gentx
one_apart = record {
  no_source = λ i f g h m m' outside e.
      let f_is : f ≡ gentx = Memᴰ.eq_of_singleton m in
      let g_is : g ≡ gentx = Memᴰ.eq_of_singleton m' in
      elim (below_two i h) [
        | inl is_0 ↦ other_file (rw (is_0, f_is, g_is, copy_0) at e)
        | inr is_1 ↦ absurd (cc (rw (is_1, f_is, inside_1) at outside))
      ];
  one_source = λ i j f g h h' m m' e. Memᴰ.eq_of_singleton m ∙ sym (Memᴰ.eq_of_singleton m');
}

are_copied : (copy_gentxs disk args (gentx ∷ []) 2 0 with_gentx).0 ≡ ok tt
unfolding copy_gentxs ◌>>=◌ bytes_eq itoa node_dir
are_copied = refl

-- The gentx of node 1 is copied to node 0.
copy_gentxs_example :
    All
      (λ f.
        is_sub_dir disk with_gentx f (joined_gentxs_dir args 0) ≡ ok false
        → HasCopy disk args
            (gentx ∷ [])
            2
            with_gentx
            0
            f
            (copy_gentxs disk args (gentx ∷ []) 2 0 with_gentx).1)
      (gentx ∷ [])
copy_gentxs_example =
    copy_gentxs_lem disk args (gentx ∷ []) 2 with_gentx one_apart are_copied 0 (omega arith)

-- ===== src/Cmd/MultiNode/Args.antt =====
-- `initArgs` and the function RunE of testnet_multi_node.go, up to `initTestnetFiles`.
use mono_chain.Prelude.{ℕ, zero, suc, ◌*◌, Option, none, some, List, [], ◌∷◌, ◌==◌, if◌then◌else◌}
use mono_chain.Prelude.Int.{ℤ, pos, ◌-ℤ◌, pos_part}
use mono_chain.Sdk.Outcome.{on_ok, Result, ok}
use mono_chain.Sdk.Amounts.{Coin, int}
use mono_chain.Burn.Types.{default_bond_denom}
use mono_chain.Cmd.Text.{Text}
use mono_chain.Cmd.Decimal.{itoa}
use mono_chain.Cmd.Testnet.{split_commas}
use mono_chain.Cmd.MultiNode.{Env}

-- A Go map with numbers as keys.
abbrev pub IntMap : Type 0 → Type 0
IntMap A = ℕ → Option A

module _ {A : Type 0} where
  abbrev pub no_keys : IntMap A
  no_keys i = none

  abbrev pub put : ℕ → A → IntMap A → IntMap A
  put k a m i = if i == k then some a else m i

-- `m[i]` of a map to texts
abbrev pub text_at : Option Text → Text
text_at none = []
text_at (some t) = t

-- The values of the flags.
pub record Flags : Type 0 where
  pub output_dir : Text
  pub keyring_backend : Text
  pub chain_id : Text
  pub min_gas_prices : Text
  pub node_dir_prefix : Text
  pub starting_ip_address : Text
  pub num_validators : ℤ
  pub key_type : Text
  pub validators_stake_amount : Text
  pub list_ports : Text

pub record InitArgs : Type 0 where
  pub algo : Text
  pub chain_id : Text
  pub keyring_backend : Text
  pub min_gas_prices : Text
  pub node_dir_prefix : Text
  pub num_validators : ℤ
  pub output_dir : Text
  pub starting_ip_address : Text
  pub validators_stakes_amount : IntMap Coin
  pub ports : IntMap Text

-- The default port of node `i`.
abbrev pub default_port : ℕ → Text
default_port i = itoa (pos 26657 -ℤ pos (3 * i))

-- The loop over the validators where no ports are listed; `left` rounds are left.
unfoldable pub default_ports : (left i : ℕ) → IntMap Text → IntMap Text
default_ports zero i m = m
default_ports (suc left) i m = default_ports left (suc i) (put i (default_port i) m)

-- The loop that stores each text under the next number.
unfoldable pub given_ports : {A : Type 0} → List A → ℕ → IntMap A → IntMap A
given_ports [] top m = m
given_ports (port ∷ ports) top m = given_ports ports (suc top) (put top port m)

abbrev pub parse_ports : Text → ℤ → IntMap Text
parse_ports [] n = default_ports (pos_part n) 0 no_keys
parse_ports (c ∷ cs) n = given_ports (split_commas (c ∷ cs)) 0 no_keys

-- The arguments with the given stakes.
abbrev pub args_of : Flags → IntMap Coin → InitArgs
args_of f stakes = record {
  algo = f.key_type;
  chain_id = f.chain_id;
  keyring_backend = f.keyring_backend;
  min_gas_prices = f.min_gas_prices;
  node_dir_prefix = f.node_dir_prefix;
  num_validators = f.num_validators;
  output_dir = f.output_dir;
  starting_ip_address = f.starting_ip_address;
  validators_stakes_amount = stakes;
  ports = parse_ports f.list_ports f.num_validators;
}

-- `if !ok { continue }`
abbrev pub on_some : {A B : Type 0} → Option A → B → (A → B) → B
on_some none b f = b
on_some (some a) b f = f a

module _ (env : Env) where
  -- An amount that is no number is passed over; `NewCoin` panics on one below zero.
  unfoldable pub given_stakes : List Text → ℕ → IntMap Coin → Result (IntMap Coin)
  given_stakes [] top m = ok m
  given_stakes (amount ∷ amounts) top m =
      on_some (env.int_from_string amount) (given_stakes amounts top m) λ a.
        on_ok (env.math.new_coin default_bond_denom (int a))
          λ coin. given_stakes amounts (suc top) (put top coin m)

  -- The arguments that RunE makes of the flags.
  unfoldable pub parse_args : Flags → Result InitArgs
  unfolding given_stakes given_ports default_ports split_commas
  parse_args f =
      on_ok (given_stakes (split_commas f.validators_stake_amount) 0 no_keys)
        λ stakes. ok (args_of f stakes)

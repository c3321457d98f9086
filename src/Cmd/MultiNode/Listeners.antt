-- ===== src/Cmd/MultiNode/Listeners.antt =====
-- The ports that the configurations of collectGenFiles listen on.
use mono_chain.Prelude.{ℕ, ◌+◌, ◌≤◌, ◌<◌, ◌≡◌, refl, sym, ap, ◌∙◌, ◌-◌, ◌*◌, inl, inr, [], arith}
use mono_chain.Prelude.Int.{pos, ◌-ℤ◌}
use mono_chain.Sdk.Outcome.{ok}
use mono_chain.Cmd.Text.{Text}
use mono_chain.Cmd.Decimal.{itoa, port_from, port-itoa}
use mono_chain.Cmd.MultiNode.Genesis.{network_config}
use mono_chain.Cmd.MultiNode.{Env, NodeConfig}
use mono_chain.Cmd.MultiNode.Args.{text_at, Flags, InitArgs, default_port, parse_args}
use mono_chain.Cmd.MultiNode.Ports.{Listed, parse_args_cases}

-- The ports of a node: of the peers, of the RPC server, of the connection to the application, and
-- of the metrics.
pub data Listener : Type 0 where
  p2p rpc proxy metrics : Listener

abbrev pub address : Listener → NodeConfig → Text
address p2p c = c.p2p_listen_address
address rpc c = c.rpc_listen_address
address proxy c = c.proxy_app
address metrics c = c.prometheus_listen_addr

abbrev pub port : Listener → NodeConfig → ℕ
port l c = port_from 0 (address l c)

abbrev port_number : Listener → ℕ → ℕ
port_number p2p i = 26656 - 3 * i
port_number rpc i = 26657 - 3 * i
port_number proxy i = 26658 - 3 * i
port_number metrics i = 26660 + i

itoa-below : (a b : ℕ) → b ≤ a → itoa (pos a -ℤ pos b) ≡ itoa (pos (a - b))
unfolding ◌-ℤ◌
itoa-below a b h = ap itoa (ground arith)

port-itoa_below : (a b : ℕ) → b ≤ a → port_from 0 (itoa (pos a -ℤ pos b)) ≡ a - b
port-itoa_below a b h = rw (itoa-below a b h) (port-itoa (a - b))

port_lem :
    (l : Listener) (args : InitArgs) (peers : Text) (i : ℕ) (c : NodeConfig)
    → i < 8886
    → text_at (args.ports i) ≡ default_port i
    → port l (network_config args peers i c) ≡ port_number l i
unfolding network_config port_from
port_lem p2p args peers i c h e = port-itoa_below 26656 (3 * i) (omega arith)
port_lem rpc args peers i c h e = rw e (port-itoa_below 26657 (3 * i) (omega arith))
port_lem proxy args peers i c h e = port-itoa_below 26658 (3 * i) (omega arith)
port_lem metrics args peers i c h e = port-itoa (26660 + i)

port_number-injective :
    (l m : Listener) (i j : ℕ)
    → i < 8886
    → j < 8886
    → port_number l i ≡ port_number m j
    → (l ≡ m) × (i ≡ j)
port_number-injective p2p p2p i j hi hj e = (refl, omega arith)
port_number-injective p2p rpc i j hi hj e = absurd (omega arith)
port_number-injective p2p proxy i j hi hj e = absurd (omega arith)
port_number-injective p2p metrics i j hi hj e = absurd (omega arith)
port_number-injective rpc p2p i j hi hj e = absurd (omega arith)
port_number-injective rpc rpc i j hi hj e = (refl, omega arith)
port_number-injective rpc proxy i j hi hj e = absurd (omega arith)
port_number-injective rpc metrics i j hi hj e = absurd (omega arith)
port_number-injective proxy p2p i j hi hj e = absurd (omega arith)
port_number-injective proxy rpc i j hi hj e = absurd (omega arith)
port_number-injective proxy proxy i j hi hj e = (refl, omega arith)
port_number-injective proxy metrics i j hi hj e = absurd (omega arith)
port_number-injective metrics p2p i j hi hj e = absurd (omega arith)
port_number-injective metrics rpc i j hi hj e = absurd (omega arith)
port_number-injective metrics proxy i j hi hj e = absurd (omega arith)
port_number-injective metrics metrics i j hi hj e = (refl, omega arith)

-- Where --list-ports is empty, and for at most 8886 validators, no two of the four listeners of the
-- nodes of a testnet, on one node or on two, are configured for the same port.
pub network_config-apart :
    (env : Env) (f : Flags) (args : InitArgs) (peers : Text) (n : ℕ)
    → parse_args env f ≡ ok args
    → f.list_ports ≡ []
    → f.num_validators ≡ pos n
    → n ≤ 8886
    → (l m : Listener) (i j : ℕ) (c d : NodeConfig) → i < n
    → j < n
    → port l (network_config args peers i c) ≡ port m (network_config args peers j d)
    → (l ≡ m) × (i ≡ j)
network_config-apart env f args peers n parsed no_list size few l m i j c d hi hj e =
    port_number-injective l m i j (omega arith) (omega arith) (
      sym (port_lem l args peers i c (omega arith) (default i hi))
      ∙ e
      ∙ port_lem m args peers j d (omega arith) (default j hj))
  where
    default : (k : ℕ) → k < n → text_at (args.ports k) ≡ default_port k
    default = elim (parse_args_cases env f) [
      | inl (_, bad) ↦ absurd (cc)
      | inr (_, (made, ok_made, _, listed)) ↦
          let same : made ≡ args = cc in
          let h : Listed env [] (pos n) made.ports = rw (no_list, size) at listed in
          λ k hk. ap (λ (a : InitArgs). text_at (a.ports k)) (sym same) ∙ h k hk
    ]
